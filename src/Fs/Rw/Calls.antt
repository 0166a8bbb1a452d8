-- ===== src/Fs/Rw/Calls.antt =====
-- `writei`, and `readi` behind it.
use os2_project.Base.{
  ◌/◌, ◌%◌, ℕ, ◌+◌, ◌-◌, ◌*◌, ◌^◌, ◌≤◌, ◌<◌, ◌≡◌, Bool, true, false, ◌||◌, some, if◌then◌else◌, ltb,
  u32, ◌⊎◌, inl, inr, refl, sym, ap, subst, ◌∙◌, arith, minus_one, dec_lt, lt→ltb, le→ltb,
}
use os2_project.UserCopy.{put_bytes}
use os2_project.UserCopy.Either.{CanUse, CanUse-first, translated}
use os2_project.UserCopy.Bytes.{stored, stored_ext}
use os2_project.Log.{max_op_blocks}
use os2_project.Fs.{
  Super, Inode, Fs, M, pure, ◌>>=◌, ◌>>◌, get_inode, set_inode, iupdate, block_size, bits_per_block,
  max_file,
}
use os2_project.Fs.Alloc.{in_use, IsValid}
use os2_project.Fs.Map.{byte_at, IsFile}
use os2_project.Fs.Map.Bmap.{bind-some}
use os2_project.Fs.Rw.{write_from, writei, readi}
use os2_project.Fs.Rw.Read.{IsWhole, with_mem, readable, readi_lem}
use os2_project.Fs.Rw.Wrote.{Wrote}
use os2_project.Fs.Rw.Write.{given, write_from_lem}
use os2_project.Fs.Rw.Finish.{
  with_size, HasInode, updated, iupdate_lem, Written, finished, finished-in_use, finished-Written,
}

-- Of the MAXOPBLOCKS that `begin_op` reserves: the most blocks that a write of `n` bytes at `off` can put in the log: the inode, the indirect
-- block, the blocks with the bytes, and the blocks of the map.
abbrev pub logged_blocks : Super → ℕ → ℕ → ℕ
logged_blocks sb off n =
    2
    + (off % block_size + n + (block_size - 1)) / block_size
    + (sb.size + (bits_per_block - 1)) / bits_per_block

-- The write fits what the call has reserved, where the call has put nothing else in the log.
abbrev pub FitsLog : Super → ℕ → ℕ → Type 0
FitsLog sb off n = logged_blocks sb off n ≤ max_op_blocks

-- The greatest piece that `filewrite` writes in one transaction fits, wherever it starts, on a disk
-- with up to four blocks of the map.
filewrite-FitsLog :
    (sb : Super) (off n : ℕ)
    → sb.size ≤ 4 * bits_per_block
    → n ≤ (max_op_blocks - 1 - 1 - 2) / 2 * block_size
    → FitsLog sb off n
filewrite-FitsLog sb off n few le = omega arith

module _ (page : ℕ → ℕ) (sb : Super) (fits : sb.size < 2 ^ 32) (user : Bool) where
  -- What `writei` does behind its loop.
  abbrev last_part : ℕ → ℕ → M ℕ
  last_part off m = do
    ip ← get_inode
    (if ltb ip.size off then set_inode (record ip { size = off }) else pure tt)
    iupdate sb
    pure m

  then_done : (s : Fs) (m : ℕ) → (iupdate sb >> pure m) s ≡ some (m, updated sb s)
  then_done s m = bind-some (iupdate sb) (λ _. pure m) s tt (updated sb s) (iupdate_lem sb s)

  last_part_lem :
      (s s1 : Fs) (off m : ℕ) (f : ℕ → ℕ) (v : IsValid sb s) (fl : IsFile sb s) (h : HasInode sb s)
      (g : Wrote sb s s1 off m f)
      → last_part (off + m) m s1 ≡ some (m, finished sb s s1 off m f v fl h g)
  last_part_lem s s1 off m f v fl h g =
      let e : s1.inode.size ≡ s.inode.size = ap (λ (ip : Inode). ip.size) g.shape in
      elim (dec_lt s.inode.size (off + m)) [
        | yes lt ↦
            rw
              (
                lt→ltb s1.inode.size (off + m) (omega (arith, lt, e)),
                lt→ltb s.inode.size (off + m) lt,
              )
              (then_done (with_size s1 (off + m)) m)
        | no ge ↦
            rw
              (
                le→ltb s1.inode.size (off + m) (omega (arith, ge, e)),
                le→ltb s.inode.size (off + m) (omega arith),
              )
              (then_done s1 m ∙ ap (λ z. some (m, updated sb (with_size s1 z))) e)
      ]

  -- In a file system whose map is consistent, with a file whose blocks are different data blocks in
  -- use, a `writei` that starts inside the file, ends within the greatest size, fits what
  -- `begin_op` reserves in the log (`FitsLog`, for a call that has put nothing else there), and
  -- reads from memory that the caller has returns: it has written `m` of the `n` bytes, all of them
  -- unless no block is left free. The file is then the array of bytes that it was with these bytes
  -- put at `off`; its size has grown to the end of them if that lies further; its inode is on its
  -- block in the transaction; the map and the file are consistent, and no other data block in use
  -- has changed.
  pub writei_lem :
      (s : Fs) (src off n : ℕ)
      → IsValid sb s
      → IsFile sb s
      → HasInode sb s
      → off ≤ s.inode.size
      → off + n ≤ max_file * block_size
      → FitsLog sb off n
      → CanUse page user src n
      → (m : ℕ) × (s' : Fs) × (writei page sb user src off n s ≡ some (m, s'))
        × Written sb s s' off m (λ i. s.mem (translated page user (src + i)))
        × (m ≤ n)
        × (m < n → (c : ℕ) → c < sb.size → in_use sb s' c ≡ true)
  unfolding writei
  writei_lem s src off n v fl h start room reserved can =
      let e : n - 0 ≡ n = omega arith in
      let (m, s1, ran, l) =
        write_from_lem page sb fits user n off n 0 src s v fl (omega arith) (omega (arith, room))
          (omega (arith, room)) (subst (CanUse page user src) (sym e) can) in
      let f = given page sb fits user s.mem src in
      let s' = finished sb s s1 off m f v fl h l.wrote in
      let fewer : m ≤ n = omega (arith, l.le) in
      let at : u32 (off + n) ≡ off + n = omega (arith, room) in
      let guard : (ltb s.inode.size off || ltb (off + n) off) ≡ false = ground (arith, start) in
      (
        m,
        s',
        rw (at, guard, le→ltb (max_file * block_size) (off + n) room)
            (bind-some (write_from page sb n user src off n 0) (λ r. last_part r.0 r.1) s
                (off + m, 0 + m) s1 ran
              ∙ (let z : 0 + m ≡ m = omega arith in ap (λ k. last_part (off + m) k s1) z)
              ∙ last_part_lem s s1 off m f v fl h l.wrote),
        finished-Written sb s s1 off m f v fl h l.wrote start (omega (arith, room, fewer)),
        fewer,
        λ lt c low.
            finished-in_use sb s s1 off m f v fl h l.wrote c low ∙ l.full (omega (arith, lt)) c low,
      )

  -- Outside the file, or past the greatest size, `writei` does nothing.
  writei_rejects :
      (s : Fs) (src off n : ℕ)
      → n < 2 ^ 32
      → off < 2 ^ 32
      → (s.inode.size < off) ⊎ (max_file * block_size < off + n)
      → writei page sb user src off n s ≡ some (minus_one, s)
  unfolding writei
  writei_rejects s src off n small off_small out = elim (dec_lt (off + n) (2 ^ 32)) [
    | no wraps ↦
        let h : (ltb s.inode.size off || ltb (u32 (off + n)) off) ≡ true = ground arith in rw h refl
    | yes fits_in ↦ elim (dec_lt s.inode.size off) [
      | yes past ↦ rw (lt→ltb s.inode.size off past) refl
      | no inside ↦
          let at : u32 (off + n) ≡ off + n = omega arith in
          let h : (ltb s.inode.size off || ltb (off + n) off) ≡ false = ground arith in
          let far : max_file * block_size < off + n = elim out [
            | inl past ↦ absurd (inside past)
            | inr far ↦ far
          ] in
          rw (at, h, lt→ltb (max_file * block_size) (off + n) far) refl
    ]
  ]

module _ (page : ℕ → ℕ) (sb : Super) (fits : sb.size < 2 ^ 32) (user user' : Bool) where
  -- The bytes read back.
  read_back :
      (s s' : Fs) (src dst off m : ℕ)
      → Written sb s s' off m (given page sb fits user s.mem src)
      → IsWhole s
      → off + m ≤ max_file * block_size
      → CanUse page user' dst m
      → readi page sb user' dst off m s'
        ≡ some (
          m,
          with_mem s' (
              stored m
                (λ i. translated page user' (dst + i))
                (given page sb fits user s.mem src)
                s.mem),
        )
  read_back s s' src dst off m w whole room can =
      let w' = w.whole whole in
      let f = given page sb fits user s.mem src in
      let at = λ (i : ℕ). translated page user' (dst + i) in
      let inside : off + m ≤ s'.inode.size = below s.inode.size s'.inode.size (off + m) w.size in
      let all : readable s' off m ≡ m = ground (arith, inside, room) in
      readi_lem page sb fits user' s' w.valid w.file w' dst off m (omega (arith, room))
        (omega (arith, room)) (subst (CanUse page user' dst) (sym all) can)
      ∙ ap (λ n. some (n, with_mem s' (stored n at (λ i. byte_at s' (off + i)) s'.mem))) all
      ∙ ap (λ mem. some (m, with_mem s' mem))
          (stored_ext m at at (λ i. byte_at s' (off + i)) f s'.mem (λ i lt. refl)
              (λ i lt. w.bytes (off + i) (omega (arith, lt, room)) ∙ here f off m (byte_at s) i lt)
            ∙ ap (stored m at f) w.mem)
    where
      below : (a b c : ℕ) → b ≡ (if ltb a c then c else a) → c ≤ b
      below a b c h = ground (arith, h)

      here :
          (f : ℕ → ℕ) (off m : ℕ) (x : ℕ → ℕ) (i : ℕ) → i < m → put_bytes off f m x (off + i) ≡ f i
      here f off m x i lt = let e : off + i - off ≡ i = omega arith in ground (arith, ap f e)

  -- Under the conditions of `writei_lem`, and where each block of the file below its size is there:
  -- `writei` returns a number of bytes `m`, and a `readi` of as many bytes at the same place, to
  -- memory that its caller has, returns `m` and stores exactly the bytes that were written,
  -- changing nothing else. Less than `n` bytes are written only where no block is free.
  pub readi-writei :
      (s : Fs) (src dst off n : ℕ)
      → IsValid sb s
      → IsFile sb s
      → HasInode sb s
      → IsWhole s
      → off ≤ s.inode.size
      → off + n ≤ max_file * block_size
      → FitsLog sb off n
      → CanUse page user src n
      → CanUse page user' dst n
      → (m : ℕ) × (s' : Fs) × (writei page sb user src off n s ≡ some (m, s'))
        × (readi page sb user' dst off m s'
            ≡ some (
              m,
              with_mem s' (
                  stored m
                    (λ i. translated page user' (dst + i))
                    (λ i. s.mem (translated page user (src + i)))
                    s.mem),
            ))
        × (m < n → (c : ℕ) → c < sb.size → in_use sb s' c ≡ true)
  readi-writei s src dst off n v fl h whole start room reserved can can' =
      let (m, s', ran, w, fewer, full) =
        writei_lem page sb fits user s src off n v fl h start room reserved can in
      (
        m,
        s',
        ran,
        read_back s s' src dst off m w whole (omega (arith, room, fewer))
            (CanUse-first page user' dst n m fewer can'),
        full,
      )
