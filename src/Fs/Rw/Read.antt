-- ===== src/Fs/Rw/Read.antt =====
-- What `readi` reads.
use os2_project.Base.{
  ℕ, zero, suc, ◌+◌, ◌-◌, ◌*◌, ◌/◌, ◌%◌, ◌^◌, ◌≤◌, ◌<◌, ◌≡◌, ◌≢◌, Bool, true, false, ◌||◌, some,
  if◌then◌else◌, ltb, leb, ◌==◌, u32, u64, refl, sym, ap, ap₂, subst, ◌∙◌, minus_one, arith, dec_lt,
  ne→==, lt→ltb, le→ltb,
}
use os2_project.UserCopy.Bytes.{stored, stored_ext, stored_add}
use os2_project.UserCopy.Either.{CanUse, CanUse-skip, CanUse-first, translated, either_copyout_lem}
use os2_project.Fs.{Super, Fs, bread, pure, ◌>>=◌, bmap, block_size, max_file}
use os2_project.Fs.Alloc.{IsValid}
use os2_project.Fs.Map.Gets.Calls.{bmap_lem}
use os2_project.Fs.Map.{IsFile, ref, slot, byte_at, contents_at}
use os2_project.Fs.Map.Bmap.{bind-some}
use os2_project.Fs.Rw.{chunk, copy_out, read_from, readi}

-- Each block of the file below its size is there.
pub record IsWhole (s : Fs) : Type 0 where
  pub small : s.inode.size ≤ max_file * block_size
  pub blocks : (bn : ℕ) → bn * block_size < s.inode.size → ref s (slot bn) ≢ 0

abbrev pub with_mem : Fs → (ℕ → ℕ) → Fs
with_mem s mem = record s { mem = mem }

-- How many bytes `readi` is to give: those asked for, as far as the file goes.
abbrev pub readable : Fs → ℕ → ℕ → ℕ
readable s off n =
    if ltb s.inode.size off || leb (2 ^ 32) (off + n)
    then 0
    else if ltb s.inode.size (off + n)
    then s.inode.size - off
    else n

pub chunk_le : (left off : ℕ) → chunk left off ≤ left
chunk_le left off = ground arith

pub chunk_pos : (left off : ℕ) → 0 < left → 0 < chunk left off
chunk_pos left off lt = ground arith

pub chunk_block :
    (left off i : ℕ)
    → i < chunk left off
    → ((off + i) / block_size ≡ off / block_size) × ((off + i) % block_size ≡ off % block_size + i)
chunk_block left off i lt = ground arith

-- The byte at an offset of a file that has the block.
pub byte_there :
    (s : Fs) (left off i : ℕ)
    → ref s (slot (off / block_size)) ≢ 0
    → i < chunk left off
    → s.cache (ref s (slot (off / block_size))) (off % block_size + i) ≡ byte_at s (off + i)
byte_there s left off i nz lt =
    let (q, r) = chunk_block left off i lt in
    sym (
      ap₂ (λ q r. contents_at s.cache (ref s (slot q)) r) q r
      ∙ rw (ne→== (ref s (slot (off / block_size))) 0 nz) refl)

module _ (page : ℕ → ℕ) (sb : Super) (fits : sb.size < 2 ^ 32) where
  -- `bmap` of a block that the file has.
  bmap_there :
      (s : Fs) (bn : ℕ)
      → IsValid sb s
      → IsFile sb s
      → bn < max_file
      → ref s (slot bn) ≢ 0
      → bmap sb bn s ≡ some (ref s (slot bn), s)
  bmap_there s bn v f low nz =
      let (a, s', ran, g) = bmap_lem sb fits s bn v f low in
      let e : s' ≡ s = g.same nz in
      ran ∙ ap₂ (λ a t. some (a, t)) (sym g.here ∙ ap (λ t. ref t (slot bn)) e) e

  module _ (user : Bool) (s : Fs) (v : IsValid sb s) (f : IsFile sb s) (w : IsWhole s) where
    abbrev pub read_to : ℕ → ℕ → ℕ → (ℕ → ℕ) → Fs
    read_to dst off n mem =
        with_mem s (stored n (λ i. translated page user (dst + i)) (λ i. byte_at s (off + i)) mem)

    read_join :
        (dst off m n : ℕ) (mem : ℕ → ℕ)
        → m ≤ n
        → read_to
            (dst + m)
            (off + m)
            (n - m)
            (stored m (λ i. translated page user (dst + i)) (λ i. byte_at s (off + i)) mem)
          ≡ read_to dst off n mem
    read_join dst off m n mem le =
        let at = λ (i : ℕ). translated page user (dst + i) in
        let src = λ (i : ℕ). byte_at s (off + i) in
        let e : m + (n - m) ≡ n = omega arith in
        ap (with_mem s) (
          stored_ext (n - m) (λ i. translated page user (dst + m + i)) (λ i. at (m + i))
            (λ i. byte_at s (off + m + i)) (λ i. src (m + i)) (stored m at src mem)
            (λ i lt. ap (translated page user) (omega arith)) (λ i lt. ap (byte_at s) (omega arith))
          ∙ sym (stored_add m (n - m) at src mem)
          ∙ ap (λ l. stored l at src mem) e)

    with_mem-IsValid : (mem : ℕ → ℕ) → IsValid sb (with_mem s mem)
    with_mem-IsValid mem = record { map = v.map; meta = v.meta; saved = v.saved }

    with_mem-IsFile : (mem : ℕ → ℕ) → IsFile sb (with_mem s mem)
    with_mem-IsFile mem = record { distinct = f.distinct; owned = f.owned }

    -- One chunk of the loop.
    copy_chunk :
        (dst off left : ℕ) (mem : ℕ → ℕ)
        → ref s (slot (off / block_size)) ≢ 0
        → CanUse page user dst left
        → copy_out page sb user dst
            (λ i. s.cache (ref s (slot (off / block_size))) (off % block_size + i))
            (chunk left off)
            (with_mem s mem)
          ≡ some (true, read_to dst off (chunk left off) mem)
    copy_chunk dst off left mem nz can =
        let m = chunk left off in
        let at = λ (i : ℕ). translated page user (dst + i) in
        let x = λ (i : ℕ). s.cache (ref s (slot (off / block_size))) (off % block_size + i) in
        ap (λ r. some (r.0, with_mem s r.1))
          (either_copyout_lem page user dst x m mem
              (CanUse-first page user dst left m (chunk_le left off) can)
            ∙ ap (λ m. (true, m))
                (stored_ext m at at x (λ i. byte_at s (off + i)) mem (λ i lt. refl)
                  (λ i lt. byte_there s left off i nz lt)))

    read_from_lem :
        (k dst off n tot : ℕ) (mem : ℕ → ℕ)
        → n - tot ≤ k
        → tot ≤ n
        → n < 2 ^ 32
        → off + (n - tot) ≤ s.inode.size
        → CanUse page user dst (n - tot)
        → read_from page sb k user dst off n tot (with_mem s mem)
          ≡ some (n, read_to dst off (n - tot) mem)
    unfolding read_from stored
    read_from_lem zero dst off n tot mem fuel le small room can =
        let e : n ≡ tot = omega arith in
        let z : 0 ≡ n - tot = omega arith in ap₂ (λ t l. some (t, read_to dst off l mem)) (sym e) z
    read_from_lem (suc k) dst off n tot mem fuel le small room can = elim (dec_lt tot n) [
      | no done ↦
          let e : n ≡ tot = omega arith in
          let z : 0 ≡ n - tot = omega arith in
          rw (le→ltb tot n (omega arith)) (ap₂ (λ t l. some (t, read_to dst off l mem)) (sym e) z)
      | yes lt ↦
          let bn = off / block_size in
          let left = n - tot in
          let m = chunk left off in
          let a = ref s (slot bn) in
          let nz : a ≢ 0 = w.blocks bn (omega (arith, room, lt)) in
          let mem1 =
            stored m (λ i. translated page user (dst + i)) (λ i. byte_at s (off + i)) mem in
          let sm = with_mem s mem in
          let fewer : m ≤ left = chunk_le left off in
          let some_bytes : 0 < m = chunk_pos left off (omega arith) in
          let more = λ (ok : Bool).
            if ok
            then read_from page sb k user (u64 (dst + m)) (u32 (off + m)) n (u32 (tot + m))
            else pure minus_one in
          let copied = λ (a : ℕ). (do
            x ← bread a
            ok ← copy_out page sb user dst (λ i. x (off % block_size + i)) m
            more ok) in
          let at : n - (tot + m) ≡ left - m = omega arith in
          let dst_at : u64 (dst + m) ≡ dst + m = omega (arith, can.0, fewer) in
          let off_at : u32 (off + m) ≡ off + m = omega (arith, room, w.small, fewer) in
          let tot_at : u32 (tot + m) ≡ tot + m = omega (arith, small, fewer, lt) in
          rw (lt→ltb tot n lt) (
            bind-some (bmap sb bn) (λ a. if a == 0 then pure tot else copied a) sm a sm
              (bmap_there sm bn (with_mem-IsValid mem) (with_mem-IsFile mem)
                (omega (arith, room, w.small, lt)) nz)
            ∙ rw (ne→== a 0 nz) (
                bind-some (copy_out page sb user dst (λ i. s.cache a (off % block_size + i)) m) more
                  sm true (with_mem s mem1) (copy_chunk dst off left mem nz can))
            ∙ ap
                (λ d.
                  read_from page sb k user d (u32 (off + m)) n (u32 (tot + m)) (with_mem s mem1))
                dst_at
            ∙ ap₂ (λ o t. read_from page sb k user (dst + m) o n t (with_mem s mem1)) off_at tot_at
            ∙ read_from_lem k (dst + m) (off + m) n (tot + m) mem1 (omega (arith, fuel, some_bytes))
                (omega (arith, fewer, lt)) small (omega (arith, room, fewer))
                (subst (CanUse page user (dst + m)) (sym at)
                  (CanUse-skip page user dst left m fewer can))
            ∙ ap (λ l. some (n, read_to (dst + m) (off + m) l mem1)) at
            ∙ ap (λ t. some (n, t)) (read_join dst off m left mem fewer))
    ]

    -- The loop of `readi` over `n` bytes that the file has.
    read_all :
        (dst off n : ℕ)
        → n < 2 ^ 32
        → off + n ≤ s.inode.size
        → CanUse page user dst n
        → read_from page sb n user dst off n 0 s ≡ some (n, read_to dst off n s.mem)
    read_all dst off n small room can =
        let e : n - 0 ≡ n = omega arith in
        read_from_lem n dst off n 0 s.mem (omega arith) (omega arith) small (omega (arith, room))
          (subst (CanUse page user dst) (sym e) can)
        ∙ ap (λ l. some (n, read_to dst off l s.mem)) e

    -- For a consistent file that has each block below its size, `readi` of `n` bytes at `off` into
    -- memory that the caller has returns the number of those bytes that the file has (0 where `off`
    -- lies past its end, or `off + n` wraps around), stores exactly these bytes, and changes
    -- nothing else.
    pub readi_lem :
        (dst off n : ℕ)
        → n < 2 ^ 32
        → off < 2 ^ 32
        → CanUse page user dst (readable s off n)
        → readi page sb user dst off n s
          ≡ some (
            readable s off n,
            with_mem s (
                stored
                  (readable s off n)
                  (λ i. translated page user (dst + i))
                  (λ i. byte_at s (off + i))
                  s.mem),
          )
    unfolding readi stored
    readi_lem dst off n small off_small can = elim (dec_lt s.inode.size off) [
      | yes past ↦ rw (lt→ltb s.inode.size off past) refl
      | no inside ↦ elim (dec_lt (off + n) (2 ^ 32)) [
        | no wraps ↦
            let h : u32 (off + n) < off = omega arith in
            let closed : (ltb s.inode.size off || leb (2 ^ 32) (off + n)) ≡ true = ground arith in
            let shut : (ltb s.inode.size off || ltb (u32 (off + n)) off) ≡ true = ground arith in
            rw (shut, closed) refl
        | yes fits_in ↦
            let e : u32 (off + n) ≡ off + n = omega arith in
            let open_guard : (ltb s.inode.size off || leb (2 ^ 32) (off + n)) ≡ false =
              ground arith in
            let same_guard : (ltb s.inode.size off || ltb (off + n) off) ≡ false = ground arith in
            let n' = if ltb s.inode.size (off + n) then s.inode.size - off else n in
            let all : readable s off n ≡ n' = rw open_guard refl in
            rw (e, same_guard, open_guard)
              (read_all dst off n' (ground arith) (ground arith)
                (subst (CanUse page user dst) all can))
      ]
    ]
