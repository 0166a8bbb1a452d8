-- ===== src/Fs/Rw/Write.antt =====
-- What `writei` writes.
use os2_project.Base.{
  ℕ, zero, suc, ◌+◌, ◌-◌, ◌*◌, ◌/◌, ◌%◌, ◌^◌, ◌≤◌, ◌<◌, ◌≡◌, ◌≢◌, Bool, true, Option, some,
  if◌then◌else◌, ◌==◌, u32, u64, sym, ap, ap₂, subst, fun_ext, ◌∙◌, arith, update, ℕ_discrete,
  dec_lt, ne→==, lt→ltb, le→ltb,
}
use os2_project.UserCopy.{put_bytes}
use os2_project.UserCopy.Either.{CanUse, CanUse-skip, CanUse-first, translated, either_copyin_lem}
use os2_project.Fs.{Super, Fs, bmap, log_write, pure, ◌>>=◌, ◌>>◌, block_size, max_file}
use os2_project.Fs.Alloc.{in_use, IsValid, written, set_buf-log_write}
use os2_project.Fs.Map.{ref, slot, IsFile, Grows, Grows-refl}
use os2_project.Fs.Map.Bmap.{bind-some}
use os2_project.Fs.Map.Gets.Calls.{bmap_lem}
use os2_project.Fs.Rw.{chunk, copy_in, write_from}
use os2_project.Fs.Rw.Read.{chunk_le, chunk_pos}
use os2_project.Fs.Rw.Wrote.{Wrote, grown-Wrote, Wrote-trans, chunk-Wrote}

chunk_within : (left off : ℕ) → off % block_size + chunk left off ≤ block_size
chunk_within left off = ground arith

module _ (page : ℕ → ℕ) (sb : Super) (fits : sb.size < 2 ^ 32) (user : Bool) where
  -- The bytes that a call writes.
  abbrev pub given : (ℕ → ℕ) → ℕ → ℕ → ℕ
  given mem src i = mem (translated page user (src + i))

  -- The loop has written `m` bytes of `left`, and all of them if there are free blocks.
  pub record Loops (s s' : Fs) (off left src m : ℕ) : Type 0 where
    pub wrote : Wrote sb s s' off m (given s.mem src)
    pub le : m ≤ left
    pub full : m < left → (c : ℕ) → c < sb.size → in_use sb s' c ≡ true

  Loops-trans :
      (s t u : Fs) (off left src m n : ℕ)
      → m ≤ left
      → off + left ≤ max_file * block_size
      → Wrote sb s t off m (given s.mem src)
      → Loops t u (off + m) (left - m) (src + m) n
      → Loops s u off left src (m + n)
  Loops-trans s t u off left src m n le room g h =
      let at : m + n - m ≡ n = omega arith in
      let more : Wrote sb t u (off + m) (m + n - m) (λ i. given s.mem src (m + i)) =
        subst (λ l. Wrote sb t u (off + m) l (λ i. given s.mem src (m + i))) (sym at)
          (subst (Wrote sb t u (off + m) n) (later s.mem t.mem src m g.mem) h.wrote) in
      record {
        wrote =
            Wrote-trans sb s t u off m (m + n) (given s.mem src) (omega arith)
              (omega (arith, room, le, h.le)) g more;
        le = omega (arith, le, h.le);
        full = λ lt. h.full (omega arith);
      }
    where
      later :
          (mem mem' : ℕ → ℕ) (src m : ℕ)
          → mem' ≡ mem
          → given mem' (src + m) ≡ (λ i. given mem src (m + i))
      later mem mem' src m e =
          ap (λ (M : ℕ → ℕ). λ (i : ℕ). M (translated page user (src + m + i))) e
          ∙ fun_ext (λ i. ap (λ a. mem (translated page user a)) (omega arith))

  stops :
      (s s' : Fs) (off left src : ℕ)
      → Grows sb s s'
      → (0 < left → (c : ℕ) → c < sb.size → in_use sb s' c ≡ true)
      → Loops s s' off left src 0
  stops s s' off left src g full = record {
    wrote = grown-Wrote sb s s' off (given s.mem src) g;
    le = omega arith;
    full = full;
  }

  -- The result of the loop.
  abbrev Runs : ℕ → Fs → ℕ → ℕ → ℕ → ℕ → Type 0
  Runs k s src off n tot =
      (m : ℕ) × (s' : Fs) × (write_from page sb k user src off n tot s
        ≡ some ((off + m, tot + m), s'))
      × Loops s s' off (n - tot) src m

  -- Nothing is left.
  done :
      (s : Fs) (off n tot src : ℕ)
      → IsValid sb s
      → IsFile sb s
      → n ≤ tot
      → Loops s s off (n - tot) src 0
  done s off n tot src v f le =
      stops s s off (n - tot) src (Grows-refl sb s v f) (λ lt. absurd (omega (arith, lt, le)))

  abbrev ended : ℕ → ℕ → Fs → Option ((ℕ × ℕ) × Fs)
  ended off tot s = some ((off, tot), s)

  same_result : (off tot : ℕ) (s : Fs) → ended off tot s ≡ ended (off + 0) (tot + 0) s
  same_result off tot s = ap₂ (λ o t. ended o t s) (omega arith) (omega arith)

  -- One copy from the caller's memory into a buffer.
  copy_chunk :
      (s s1 : Fs) (b off left src : ℕ)
      → s1.mem ≡ s.mem
      → CanUse page user src left
      → copy_in page sb b (off % block_size) user src (chunk left off) s1
        ≡ some (
          true,
          record s1 {
            cache =
                update s1.cache b
                  (put_bytes (off % block_size) (given s.mem src) (chunk left off) (s1.cache b));
          },
        )
  copy_chunk s s1 b off left src e can =
      ap (λ r. some (r.0, record s1 { cache = update s1.cache b r.1 }))
        (either_copyin_lem page (off % block_size) user src (chunk left off) s1.mem (s1.cache b)
            (CanUse-first page user src left (chunk left off) (chunk_le left off) can)
          ∙ ap
              (λ mem.
                (true, put_bytes (off % block_size) (given mem src) (chunk left off) (s1.cache b)))
              e)

  -- The state with the next chunk in block `b`.
  abbrev after : Fs → Fs → ℕ → ℕ → ℕ → ℕ → Fs
  after s s1 b off left src =
      written s1 b (put_bytes (off % block_size) (given s.mem src) (chunk left off) (s1.cache b))

  -- A turn of the loop whose block is there.
  turn :
      (k off n tot src b : ℕ) (s s1 : Fs)
      → bmap sb (off / block_size) s ≡ some (b, s1)
      → b ≢ 0
      → s1.mem ≡ s.mem
      → tot < n
      → n < 2 ^ 32
      → off + (n - tot) ≤ max_file * block_size
      → CanUse page user src (n - tot)
      → write_from page sb (suc k) user src off n tot s ≡ (
          let m = chunk (n - tot) off in
          write_from page sb k user
            (src + m)
            (off + m)
            n
            (tot + m)
            (after s s1 b off (n - tot) src))
  unfolding write_from
  turn k off n tot src b s s1 ran nz same_mem lt small room can =
      let m = chunk (n - tot) off in
      let y = put_bytes (off % block_size) (given s.mem src) m (s1.cache b) in
      let loop = write_from page sb k user in
      let more = λ (a : ℕ) (ok : Bool).
        if ok
        then (do log_write a; loop (u64 (src + m)) (u32 (off + m)) n (u32 (tot + m)))
        else pure (off, tot) in
      let copy = λ (a : ℕ). copy_in page sb a (off % block_size) user src m in
      let fewer : m ≤ n - tot = chunk_le (n - tot) off in
      let src_at : u64 (src + m) ≡ src + m = omega (arith, can.0, fewer) in
      let off_at : u32 (off + m) ≡ off + m = omega (arith, room, fewer) in
      let tot_at : u32 (tot + m) ≡ tot + m = omega (arith, small, fewer, lt) in
      rw (lt→ltb tot n lt) (
        bind-some (bmap sb (off / block_size))
          (λ a. if a == 0 then pure (off, tot) else copy a >>= more a) s b s1 ran
        ∙ rw (ne→== b 0 nz) (
            bind-some (copy b) (more b) s1 true (record s1 { cache = update s1.cache b y })
              (copy_chunk s s1 b off (n - tot) src same_mem can))
        ∙ set_buf-log_write s1 b y (loop (u64 (src + m)) (u32 (off + m)) n (u32 (tot + m)))
        ∙ ap (λ d. loop d (u32 (off + m)) n (u32 (tot + m)) (written s1 b y)) src_at
        ∙ ap₂ (λ o t. loop (src + m) o n t (written s1 b y)) off_at tot_at)

  -- No block is free for the next byte.
  full_turn :
      (k off n tot src : ℕ) (s s1 : Fs)
      → bmap sb (off / block_size) s ≡ some (0, s1)
      → tot < n
      → write_from page sb (suc k) user src off n tot s ≡ ended (off + 0) (tot + 0) s1
  unfolding write_from
  full_turn k off n tot src s s1 ran lt =
      let m = chunk (n - tot) off in
      let more = λ (a : ℕ) (ok : Bool).
        if ok
        then (do
          log_write a
          write_from page sb k user (u64 (src + m)) (u32 (off + m)) n (u32 (tot + m)))
        else pure (off, tot) in
      let copied = λ (a : ℕ). copy_in page sb a (off % block_size) user src m >>= more a in
      rw (lt→ltb tot n lt) (
        bind-some (bmap sb (off / block_size)) (λ a. if a == 0 then pure (off, tot) else copied a) s
          0 s1 ran
        ∙ same_result off tot s1)

  ended_sum :
      (off tot m l : ℕ) (s : Fs)
      → ended (off + m + l) (tot + m + l) s ≡ ended (off + (m + l)) (tot + (m + l)) s
  ended_sum off tot m l s = ap₂ (λ o t. ended o t s) (omega arith) (omega arith)

  pub write_from_lem :
      (k off n tot src : ℕ) (s : Fs)
      → IsValid sb s
      → IsFile sb s
      → n - tot ≤ k
      → n < 2 ^ 32
      → off + (n - tot) ≤ max_file * block_size
      → CanUse page user src (n - tot)
      → Runs k s src off n tot
  unfolding write_from
  write_from_lem zero off n tot src s v f fuel small room can =
      (0, s, same_result off tot s, done s off n tot src v f (omega arith))
  write_from_lem (suc k) off n tot src s v f fuel small room can = elim (dec_lt tot n) [
    | no over ↦ (
      0,
      s,
      rw (le→ltb tot n (omega arith)) (same_result off tot s),
      done s off n tot src v f (omega arith),
    )
    | yes lt ↦
        let bn = off / block_size in
        let m = chunk (n - tot) off in
        let left = n - tot in
        let fewer : m ≤ left = chunk_le left off in
        let some_bytes : 0 < m = chunk_pos left off (omega arith) in
        let (a, s1, ran, g) = bmap_lem sb fits s bn v f (omega (arith, room, lt)) in
        elim (ℕ_discrete a 0) [
          | yes z ↦ (
            0,
            s1,
            full_turn k off n tot src s s1 (ran ∙ ap (λ a. some (a, s1)) z) lt,
            stops s s1 off left src g.grows (λ _. g.full z),
          )
          | no nz ↦
              let nz' : ref s1 (slot bn) ≢ 0 = λ z. nz (sym g.here ∙ z) in
              let s2 = after s s1 a off left src in
              let wrote : Wrote sb s s2 off m (given s.mem src) =
                subst (λ b. Wrote sb s (after s s1 b off left src) off m (given s.mem src)) g.here
                  (chunk-Wrote sb s s1 off m (given s.mem src) g.grows (omega (arith, room, lt)) nz'
                    (chunk_within left off)) in
              let at : n - (tot + m) ≡ left - m = omega arith in
              let (l, s3, ran3, rest) =
                write_from_lem k (off + m) n (tot + m) (src + m) s2 wrote.valid wrote.file
                  (omega (arith, fuel, some_bytes, lt)) small (omega (arith, room, fewer))
                  (subst (CanUse page user (src + m)) (sym at)
                    (CanUse-skip page user src left m fewer can)) in
              (
                m + l,
                s3,
                turn k off n tot src a s s1 ran nz g.grows.mem lt small room can
                    ∙ ran3
                    ∙ ended_sum off tot m l s3,
                Loops-trans s s2 s3 off left src m l fewer room wrote
                    (subst (λ left. Loops s2 s3 (off + m) left (src + m) l) at rest),
              )
        ]
  ]
