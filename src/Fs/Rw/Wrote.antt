-- ===== src/Fs/Rw/Wrote.antt =====
-- What the loop of `writei` does to the file, chunk by chunk.
use os2_project.Base.{
  ℕ, ◌+◌, ◌-◌, ◌*◌, ◌/◌, ◌%◌, ◌≤◌, ◌<◌, ◌≡◌, ◌≢◌, refl, sym, ap, subst, ◌∙◌, arith, true, update-ne,
  ℕ_discrete, dec_lt, eq→==, ne→==,
}
use os2_project.Raid.Types.{Block}
use os2_project.UserCopy.{put_bytes}
use os2_project.UserCopy.In.{put_bytes_join}
use os2_project.Fs.{Super, Fs, max_file, block_size}
use os2_project.Fs.Alloc.{in_use, IsValid, written}
use os2_project.Fs.Map.{with_addrs, ref, n_refs, slot, contents_at, byte_at, Beside, IsFile, Grows}
use os2_project.Fs.Rw.Put.{
  slot-lt, put-in_use, put-IsValid, put-ref, put-IsFile, data-byte, behind_map, not_indirect,
}

module _ (sb : Super) where
  -- The `m` bytes of `f` are in the file from `off` on, in blocks that it has; the rest of it stays, and
  -- so does what `Grows` keeps.
  pub record Wrote (s s' : Fs) (off m : ℕ) (f : ℕ → ℕ) : Type 0 where
    pub valid : IsValid sb s'
    pub file : IsFile sb s'
    pub bytes : (i : ℕ) → i < max_file * block_size → byte_at s' i ≡ put_bytes off f m (byte_at s) i
    pub mapped : (i : ℕ) → i < m → ref s' (slot ((off + i) / block_size)) ≢ 0
    pub keeps : (k : ℕ) → k < n_refs → ref s k ≢ 0 → ref s' k ≡ ref s k
    pub stays : (b : ℕ) → b < sb.size → in_use sb s b ≡ true → in_use sb s' b ≡ true
    pub others :
        (b : ℕ)
        → b < sb.size
        → in_use sb s b ≡ true
        → ((k : ℕ) → k < n_refs → ref s k ≢ b)
        → Beside sb b
        → (s'.cache b ≡ s.cache b) × ((k : ℕ) → k < n_refs → ref s' k ≢ b)
    pub shape : s'.inode ≡ with_addrs s.inode s'.inode.addrs
    pub mem : s'.mem ≡ s.mem

  pub grown-Wrote : (s s' : Fs) (off : ℕ) (f : ℕ → ℕ) → Grows sb s s' → Wrote s s' off 0 f
  grown-Wrote s s' off f g = record {
    valid = g.valid;
    file = g.file;
    bytes = λ i lt. g.bytes i lt ∙ put_none off f (byte_at s) i;
    mapped = λ i lt. absurd (omega arith);
    keeps = g.keeps;
    stays = g.stays;
    others = g.others;
    shape = g.shape;
    mem = g.mem;
  }
    where
      put_none : (off : ℕ) (f x : ℕ → ℕ) (i : ℕ) → x i ≡ put_bytes off f 0 x i
      put_none off f x i = ground arith

  pub Wrote-trans :
      (s t u : Fs) (off m n : ℕ) (f : ℕ → ℕ)
      → m ≤ n
      → off + n ≤ max_file * block_size
      → Wrote s t off m f
      → Wrote t u (off + m) (n - m) (λ i. f (m + i))
      → Wrote s u off n f
  Wrote-trans s t u off m n f le room g h = record {
    valid = h.valid;
    file = h.file;
    bytes = λ i lt.
        h.bytes i lt
        ∙ put_ext (off + m) (n - m) (λ i. f (m + i)) (byte_at t) (put_bytes off f m (byte_at s)) i
            (g.bytes i lt)
        ∙ ap (λ x. x i) (put_bytes_join off m n f (byte_at s) le);
    mapped = λ i lt. elim (dec_lt i m) [
      | yes first ↦
          let nz = g.mapped i first in
          λ z. absurd (
            nz (
              sym (
                h.keeps (slot ((off + i) / block_size))
                  (slot-lt ((off + i) / block_size) (omega (arith, lt, room))) nz)
              ∙ z))
      | no far ↦
          let e : off + m + (i - m) ≡ off + i = omega arith in
          subst (λ o. ref u (slot (o / block_size)) ≢ 0) e (h.mapped (i - m) (omega arith))
    ];
    keeps = λ k lt ne.
        let e : ref t k ≡ ref s k = g.keeps k lt ne in h.keeps k lt (λ z. ne (sym e ∙ z)) ∙ e;
    stays = λ b lt used. h.stays b lt (g.stays b lt used);
    others = λ b lt used no_ref out.
        let (same, still) = g.others b lt used no_ref out in
        let (same', still') = h.others b lt (g.stays b lt used) still out in (same' ∙ same, still');
    shape = h.shape ∙ ap (λ ip. with_addrs ip u.inode.addrs) g.shape;
    mem = h.mem ∙ g.mem;
  }
    where
      put_ext :
          (off n : ℕ) (f x y : ℕ → ℕ) (i : ℕ)
          → x i ≡ y i
          → put_bytes off f n x i ≡ put_bytes off f n y i
      put_ext off n f x y i h = ground (arith, h)

  -- Block `off / BSIZE` of the file changed, for a chunk of bytes in it.
  module _ (s s1 : Fs) (off m : ℕ) (f : ℕ → ℕ) (g : Grows sb s s1)
      (low : off / block_size < max_file) (nz : ref s1 (slot (off / block_size)) ≢ 0)
      (within : off % block_size + m ≤ block_size) where
    abbrev block : ℕ
    block = ref s1 (slot (off / block_size))

    abbrev chunk_put : Block
    chunk_put = put_bytes (off % block_size) f m (s1.cache block)

    chunk-byte :
        (i : ℕ)
        → i < max_file * block_size
        → byte_at (written s1 block chunk_put) i ≡ put_bytes off f m (byte_at s) i
    chunk-byte i lt =
        data-byte sb s1 g.valid g.file (off / block_size) low nz chunk_put i lt
        ∙ (elim (ℕ_discrete (i / block_size) (off / block_size)) [
          | yes e ↦
              let old : s1.cache block (i % block_size) ≡ byte_at s i =
                sym (
                  ap (λ q. contents_at s1.cache (ref s1 (slot q)) (i % block_size)) e
                  ∙ rw (ne→== block 0 nz) refl)
                ∙ g.bytes i lt in
              rw (eq→== (i / block_size) (off / block_size) e)
                (in_block off m f (s1.cache block) (byte_at s) i e within old)
          | no ne ↦
              rw (ne→== (i / block_size) (off / block_size) ne)
                (g.bytes i lt ∙ beside off m f (byte_at s) i ne within)
        ])
      where
        in_block :
            (off m : ℕ) (f x y : ℕ → ℕ) (i : ℕ)
            → i / block_size ≡ off / block_size
            → off % block_size + m ≤ block_size
            → x (i % block_size) ≡ y i
            → put_bytes (off % block_size) f m x (i % block_size) ≡ put_bytes off f m y i
        in_block off m f x y i e within h = elim (dec_lt i off) [
          | yes lt ↦ ground (arith, h)
          | no far ↦
              let at : i % block_size - off % block_size ≡ i - off = omega (arith, e) in
              ground (arith, h, ap f at)
        ]

        beside :
            (off m : ℕ) (f y : ℕ → ℕ) (i : ℕ)
            → i / block_size ≢ off / block_size
            → off % block_size + m ≤ block_size
            → y i ≡ put_bytes off f m y i
        beside off m f y i ne within = ground arith

    pub chunk-Wrote : Wrote s (written s1 block chunk_put) off m f
    chunk-Wrote =
        let bn = off / block_size in
        let out = behind_map sb s1 g.valid g.file bn low nz chunk_put in
        let apart = not_indirect sb s1 g.valid g.file bn low nz chunk_put in
        let refs = put-ref sb s1 g.valid g.file block chunk_put out apart in
        record {
          valid = put-IsValid sb s1 g.valid g.file block chunk_put out;
          file = put-IsFile sb s1 g.valid g.file block chunk_put out apart;
          bytes = chunk-byte;
          mapped = λ i lt.
              let e : (off + i) / block_size ≡ bn = omega (arith, lt, within) in
              subst (λ q. ref (written s1 block chunk_put) (slot q) ≢ 0) (sym e)
                (λ z. nz (sym (refs (slot bn)) ∙ z));
          keeps = λ k lt ne. refs k ∙ g.keeps k lt ne;
          stays = λ b lt used.
              put-in_use sb s1 g.valid g.file block chunk_put out b lt ∙ g.stays b lt used;
          others = λ b lt used no_ref beside.
              let (same, still) = g.others b lt used no_ref beside in
              (
                update-ne s1.cache block b chunk_put (still (slot bn) (slot-lt bn low)) ∙ same,
                λ k hk e. still k hk (sym (refs k) ∙ e),
              );
          shape = g.shape;
          mem = g.mem;
        }
