-- ===== src/Raid/Volume/Laws.antt =====
-- What writing a block of the volume does to each of its blocks.
use os2_project.Base.{ℕ, ◌+◌, ◌<◌, ◌≡◌, ◌≢◌, refl, ap, true, arith, ◌∙◌, sym, Bool-cases, inl, inr}
use os2_project.Base.Int.{is_zero}
use os2_project.KernelString.{memcmp, memcmp_iff}
use os2_project.Raid.Types.{
  Block, block_size, Config, IsConfig, RaidType, raid0, raid1, raid0_1, raid4, raid5, put,
}
use os2_project.Raid.Geometry.{data_disks, volume, place_of, parity_disk, is_mirrored, has_parity}
use os2_project.Raid.Geometry.Places.{mirror_bounds, parity_bounds, place-injective, place_bounds}
use os2_project.Raid.Rw.Parity.{parity_write, new_parity}
use os2_project.Raid.Volume.{view, written}

module _ (disk : ℕ → ℕ → Block) (d b : ℕ) (x : Block) where
  pub put_self : put disk d b x d b ≡ x
  put_self = ground arith

  pub put_ne : (e k : ℕ) → (d ≡ e → b ≡ k → ⊥) → put disk d b x e k ≡ disk e k
  put_ne e k h = ground (arith, h)

module _ (q d b : ℕ) (disk : ℕ → ℕ → Block) (x : Block) where
  -- The data read back agrees with what was written, also where the write was left out.
  parity_write_self : (i : ℕ) → i < block_size → parity_write q d b disk x d b i ≡ x i
  parity_write_self i lt = elim (Bool-cases (is_zero (memcmp (disk d b) x block_size))) [
    | inl same ↦ rw same ((memcmp_iff (disk d b) x block_size).0 same i lt)
    | inr differ ↦ rw (differ, put_self (put disk q b (new_parity (disk d b) x (disk q b))) d b x)
  ]

  parity_write_ne :
      (e k : ℕ)
      → (d ≡ e → b ≡ k → ⊥)
      → (q ≡ e → b ≡ k → ⊥)
      → parity_write q d b disk x e k ≡ disk e k
  parity_write_ne e k h g = elim (Bool-cases (is_zero (memcmp (disk d b) x block_size))) [
    | inl same ↦ rw same
    | inr differ ↦ rw (
      differ,
      put_ne (put disk q b (new_parity (disk d b) x (disk q b))) d b x e k h,
      put_ne disk q b (new_parity (disk d b) x (disk q b)) e k g,
    )
  ]

module _ (c : Config) (ok : IsConfig c) (disk : ℕ → ℕ → Block) (b : ℕ) (x : Block) where
  mirror_self :
      (t : RaidType)
      → let l = place_of c t b in
        put (put disk l.disk l.block x) (l.disk + data_disks c t) l.block x l.disk l.block ≡ x
  mirror_self t = ground arith

  -- What is written is read back.
  pub view-written_self :
      (t : RaidType) (i : ℕ) → i < block_size → view c t (written c t disk b x) b i ≡ x i
  view-written_self raid0 i lt =
      let l = place_of c raid0 b in ap (λ y. y i) (put_self disk l.disk l.block x)
  view-written_self raid1 i lt = ap (λ y. y i) (mirror_self raid1)
  view-written_self raid0_1 i lt = ap (λ y. y i) (mirror_self raid0_1)
  view-written_self raid4 i lt =
      let l = place_of c raid4 b in
      parity_write_self (parity_disk c raid4 l.block) l.disk l.block disk x i lt
  view-written_self raid5 i lt =
      let l = place_of c raid5 b in
      parity_write_self (parity_disk c raid5 l.block) l.disk l.block disk x i lt

  module _ (a : ℕ) (differ : b ≢ a) where
    apart :
        (t : RaidType)
        → a < volume c t
        → b < volume c t
        → let l = place_of c t b in
          let k = place_of c t a in l.disk ≡ k.disk → l.block ≡ k.block → ⊥
    apart t h g e f =
        differ (place-injective c ok t b a g h (λ i. record { disk = e i; block = f i }))

    mirrored_ne :
        (t : RaidType)
        → is_mirrored t ≡ true
        → a < volume c t
        → b < volume c t
        → let l = place_of c t b in
          let k = place_of c t a in
          put (put disk l.disk l.block x) (l.disk + data_disks c t) l.block x k.disk k.block
          ≡ disk k.disk k.block
    mirrored_ne t e h g =
        let l = place_of c t b in
        let k = place_of c t a in
        put_ne (put disk l.disk l.block x) (l.disk + data_disks c t) l.block x k.disk k.block
          (λ same _.
            absurd (
              omega (arith, same, (mirror_bounds c ok t a e h).0, (place_bounds c ok t b g).first)))
        ∙ put_ne disk l.disk l.block x k.disk k.block (apart t h g)

    parity_ne :
        (t : RaidType)
        → has_parity t ≡ true
        → a < volume c t
        → b < volume c t
        → let l = place_of c t b in
          let k = place_of c t a in
          parity_write (parity_disk c t l.block) l.disk l.block disk x k.disk k.block
          ≡ disk k.disk k.block
    parity_ne t e h g =
        let l = place_of c t b in
        let k = place_of c t a in
        parity_write_ne (parity_disk c t l.block) l.disk l.block disk x k.disk k.block (apart t h g)
          (λ same row. (parity_bounds c ok t a e h).2 (ap (parity_disk c t) (sym row) ∙ same))

    -- Every other block of the volume stays as it is.
    pub view-written_ne :
        (t : RaidType)
        → a < volume c t
        → b < volume c t
        → view c t (written c t disk b x) a ≡ view c t disk a
    view-written_ne raid0 h g = put_ne disk _ _ x _ _ (apart raid0 h g)
    view-written_ne raid1 h g = mirrored_ne raid1 refl h g
    view-written_ne raid0_1 h g = mirrored_ne raid0_1 refl h g
    view-written_ne raid4 h g = parity_ne raid4 refl h g
    view-written_ne raid5 h g = parity_ne raid5 refl h g
