-- ===== src/Fs/Rw/Put.antt =====
-- A block changed that is not of the map: one of the file, or one beside it.
use os2_project.Base.{
  ℕ, ◌+◌, ◌-◌, ◌*◌, ◌/◌, ◌%◌, ◌<◌, ◌≡◌, ◌≢◌, inl, inr, refl, sym, ap, subst, ◌∙◌, arith, true,
  if◌then◌else◌, ltb, ◌==◌, update_self, update-ne, ℕ_discrete, eq→==, ne→==,
}
use os2_project.Raid.Types.{Block}
use os2_project.Raid.Superblock.{word_at}
use os2_project.Fs.{Super, Fs, n_direct, max_file, block_size, bblock}
use os2_project.Fs.Bits.{AllBytes}
use os2_project.Fs.Alloc.{
  IsData, in_use, IsValid, written, written-in_use, written-saved, bblock-le,
}
use os2_project.Fs.Map.{ref, n_refs, slot, contents_at, byte_at, Beside, IsFile}

pub slot-lt : (b : ℕ) → b < max_file → slot b < n_refs
slot-lt b lt = ground arith

pub slot-ne : (b : ℕ) → slot b ≢ n_direct
slot-ne b = ground arith

slot_inj : (b c : ℕ) → slot b ≡ slot c → b ≡ c
slot_inj b c e = ground arith

module _ (sb : Super) (s : Fs) (v : IsValid sb s) (f : IsFile sb s) (b : ℕ) (x : Block)
    (out : Beside sb b) where
  off_map : (c : ℕ) → c < sb.size → b ≢ bblock sb c
  off_map c lt e = elim out [
    | inl low ↦ absurd (omega (arith, e, low))
    | inr high ↦ absurd (omega (arith, e, high, bblock-le sb c lt))
  ]

  pub put-in_use : (c : ℕ) → c < sb.size → in_use sb (written s b x) c ≡ in_use sb s c
  put-in_use c lt = written-in_use sb s b c x (off_map c lt)

  pub put-IsValid : IsValid sb (written s b x)
  put-IsValid = record {
    map = λ c lt.
        subst AllBytes (sym (update-ne s.cache b (bblock sb c) x (off_map c lt))) (v.map c lt);
    meta = λ c le lt. put-in_use c lt ∙ v.meta c le lt;
    saved = written-saved sb s b x v.saved;
  }

  -- The block is not that of the addresses.
  module _ (apart : s.inode.addrs n_direct ≢ 0 → b ≢ s.inode.addrs n_direct) where
    pub put-ref : (k : ℕ) → ref (written s b x) k ≡ ref s k
    put-ref k =
        ap (λ e. if ltb k (n_direct + 1) then s.inode.addrs k else e)
          (elim (ℕ_discrete (s.inode.addrs n_direct) 0) [
            | yes z ↦ rw (eq→== (s.inode.addrs n_direct) 0 z) refl
            | no nz ↦
                ap
                  (λ y.
                    if s.inode.addrs n_direct == 0 then 0 else word_at y (4 * (k - (n_direct + 1))))
                  (update-ne s.cache b (s.inode.addrs n_direct) x (apart nz))
          ])

    pub put-IsFile : IsFile sb (written s b x)
    put-IsFile = record {
      distinct = λ j k hj hk nz e.
          f.distinct j k hj hk (λ z. nz (put-ref j ∙ z)) (sym (put-ref j) ∙ e ∙ put-ref k);
      owned = λ k hk nz.
          let (behind, busy) = f.owned k hk (λ z. nz (put-ref k ∙ z)) in
          subst (λ a. IsData sb a × (in_use sb (written s b x) a ≡ true)) (sym (put-ref k))
            (behind, put-in_use (ref s k) behind.1 ∙ busy);
    }

    -- The bytes in the other blocks.
    pub put-byte :
        (i : ℕ)
        → (ref s (slot (i / block_size)) ≢ 0 → b ≢ ref s (slot (i / block_size)))
        → byte_at (written s b x) i ≡ byte_at s i
    put-byte i ne =
        let a = ref s (slot (i / block_size)) in
        ap (λ r. contents_at (written s b x).cache r (i % block_size))
          (put-ref (slot (i / block_size)))
        ∙ (elim (ℕ_discrete a 0) [
          | yes z ↦ rw (eq→== a 0 z) refl
          | no nz ↦
              ap (λ y. if a == 0 then 0 else y (i % block_size)) (update-ne s.cache b a x (ne nz))
        ])

-- A block of the contents of the file changed.
module _ (sb : Super) (s : Fs) (v : IsValid sb s) (f : IsFile sb s) (bn : ℕ) (low : bn < max_file)
    (nz : ref s (slot bn) ≢ 0) (x : Block) where
  pub behind_map : Beside sb (ref s (slot bn))
  behind_map = inr (f.owned (slot bn) (slot-lt bn low) nz).0.0

  pub not_indirect : s.inode.addrs n_direct ≢ 0 → ref s (slot bn) ≢ s.inode.addrs n_direct
  not_indirect nz' e =
      slot-ne bn (f.distinct (slot bn) n_direct (slot-lt bn low) (omega arith) nz e)

  pub data-byte :
      (i : ℕ)
      → i < max_file * block_size
      → byte_at (written s (ref s (slot bn)) x) i
        ≡ (if i / block_size == bn then x (i % block_size) else byte_at s i)
  data-byte i lt =
      let a = ref s (slot bn) in
      let j = i / block_size in
      elim (ℕ_discrete j bn) [
        | yes e ↦ rw (eq→== j bn e) (
            ap (λ r. contents_at (written s a x).cache r (i % block_size))
              (put-ref sb s v f a x behind_map not_indirect (slot j) ∙ ap (λ c. ref s (slot c)) e)
            ∙ rw (ne→== a 0 nz) (ap (λ y. y (i % block_size)) (update_self s.cache a x)))
        | no ne ↦ rw (ne→== j bn ne) (
            put-byte sb s v f a x behind_map not_indirect i (λ nz' e. ne (
              slot_inj j bn (
                sym (
                  f.distinct (slot bn) (slot j) (slot-lt bn low) (slot-lt j (omega arith)) nz e)))))
      ]
