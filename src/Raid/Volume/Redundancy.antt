-- ===== src/Raid/Volume/Redundancy.antt =====
-- What the levels keep beside the data: a mirror of every disk, or a parity block for every stripe.
use os2_project.Base.{
  ℕ, zero, suc, ◌+◌, ◌≤◌, ◌<◌, ◌≡◌, ◌≢◌, refl, ap, true, arith, ◌∙◌, ap₂, subst, Bool-cases, inl,
  inr, bit_xor, update, ℕ_discrete,
}
use os2_project.Base.Bits.{xor_assoc, xor_comm, xor_self, xor_cancel, xor-zero}
use os2_project.Base.Fold.{xor_below, xor_below-ext, xor_below-update}
use os2_project.Base.Int.{is_zero}
use os2_project.KernelString.{memcmp}
use os2_project.Raid.Types.{
  Block, block_size, Config, IsConfig, blocks_per_disk, RaidType, raid0, raid1, raid0_1, raid4,
  raid5, put,
}
use os2_project.Raid.Geometry.{data_disks, volume, place_of, parity_disk, is_mirrored, has_parity}
use os2_project.Raid.Geometry.Places.{mirror_bounds, parity_bounds, place_bounds}
use os2_project.Raid.Rw.Parity.{parity_write, new_parity}
use os2_project.Raid.Volume.{written}
use os2_project.Raid.Volume.Laws.{put_ne}

-- Every data disk has an equal mirror, superblocks aside.
abbrev pub Mirrored : Config → RaidType → (ℕ → ℕ → Block) → Type 0
Mirrored c t disk =
    (d b : ℕ) → 1 ≤ d → d ≤ data_disks c t → 1 ≤ b → disk (d + data_disks c t) b ≡ disk d b

-- The exclusive or of one byte of a stripe, over the disks of the array.
abbrev pub stripe : Config → (ℕ → ℕ → Block) → ℕ → ℕ → ℕ
stripe c disk b i = xor_below c.disks (λ e. disk (suc e) b i)

-- Every stripe adds up to nothing, so that any block of it is the sum of the others.
abbrev pub Balanced : Config → (ℕ → ℕ → Block) → Type 0
Balanced c disk = (b i : ℕ) → 1 ≤ b → b < blocks_per_disk c → stripe c disk b i ≡ 0

module _ (c : Config) (disk : ℕ → ℕ → Block) (b i : ℕ) (x : Block) where
  stripe-put :
      (d : ℕ)
      → 1 ≤ d
      → d ≤ c.disks
      → stripe c (put disk d b x) b i ≡ bit_xor (stripe c disk b i) (bit_xor (disk d b i) (x i))
  stripe-put zero low high = absurd (omega arith)
  stripe-put (suc d) low high =
      xor_below-ext c.disks (λ e. put disk (suc d) b x (suc e) b i)
        (update (λ e. disk (suc e) b i) d (x i)) (λ e lt. ground arith)
      ∙ xor_below-update c.disks (λ e. disk (suc e) b i) d (x i) (omega arith)

  stripe-put_ne : (d k : ℕ) → b ≢ k → stripe c (put disk d b x) k i ≡ stripe c disk k i
  stripe-put_ne d k differ =
      xor_below-ext c.disks (λ e. put disk d b x (suc e) k i) (λ e. disk (suc e) k i)
        (λ e lt. ap (λ y. y i) (put_ne disk d b x (suc e) k (λ _ same. differ same)))

-- What the two writes add to a stripe cancels out.
xor_balance :
    (s old new parity : ℕ)
    → bit_xor (bit_xor s (bit_xor parity (bit_xor (bit_xor new old) parity))) (bit_xor old new) ≡ s
xor_balance s old new parity =
    let step : bit_xor parity (bit_xor (bit_xor new old) parity) ≡ bit_xor old new =
      ap (bit_xor parity) (xor_comm (bit_xor new old) parity)
      ∙ xor_cancel parity (bit_xor new old)
      ∙ xor_comm new old in
    rw step (
      xor_assoc s (bit_xor old new) (bit_xor old new)
      ∙ ap (bit_xor s) (xor_self (bit_xor old new))
      ∙ xor-zero s)

module _ (c : Config) (q d b : ℕ) (disk : ℕ → ℕ → Block) (x : Block) where
  -- The two writes of a parity level leave their stripe balanced.
  both_put :
      (i : ℕ)
      → 1 ≤ d
      → d ≤ c.disks
      → 1 ≤ q
      → q ≤ c.disks
      → q ≢ d
      → stripe c (put (put disk q b (new_parity (disk d b) x (disk q b))) d b x) b i
        ≡ stripe c disk b i
  both_put i d1 dn q1 qn other =
      stripe-put c with_parity b i x d d1 dn
      ∙ ap₂ (λ s o. bit_xor s (bit_xor o (x i)))
          (stripe-put c disk b i (new_parity (disk d b) x (disk q b)) q q1 qn)
          (ap (λ y. y i)
            (put_ne disk q b (new_parity (disk d b) x (disk q b)) d b (λ same _. other same)))
      ∙ xor_balance (stripe c disk b i) (disk d b i) (x i) (disk q b i)
    where
      with_parity : ℕ → ℕ → Block
      with_parity = put disk q b (new_parity (disk d b) x (disk q b))

  parity_write-stripe :
      (k i : ℕ)
      → 1 ≤ d
      → d ≤ c.disks
      → 1 ≤ q
      → q ≤ c.disks
      → q ≢ d
      → stripe c (parity_write q d b disk x) k i ≡ stripe c disk k i
  parity_write-stripe k i d1 dn q1 qn other =
      elim (Bool-cases (is_zero (memcmp (disk d b) x block_size))) [
        | inl same ↦ rw same
        | inr differ ↦ rw differ (elim (ℕ_discrete b k) [
          | yes e ↦
              subst (λ j. stripe c (put (put disk q b np) d b x) j i ≡ stripe c disk j i) e
                (both_put i d1 dn q1 qn other)
          | no ne ↦
              stripe-put_ne c (put disk q b np) b i x d k ne ∙ stripe-put_ne c disk b i np q k ne
        ])
      ]
    where
      np : Block
      np = new_parity (disk d b) x (disk q b)

module _ (c : Config) (ok : IsConfig c) (disk : ℕ → ℕ → Block) (b : ℕ) (x : Block) where
  parity_level :
      (t : RaidType)
      → has_parity t ≡ true
      → b < volume c t
      → Balanced c disk
      → let l = place_of c t b in
        Balanced c (parity_write (parity_disk c t l.block) l.disk l.block disk x)
  parity_level t e h all k i low high =
      let l = place_of c t b in
      let w = place_bounds c ok t b h in
      let (q1, qn, other) = parity_bounds c ok t b e h in
      parity_write-stripe c (parity_disk c t l.block) l.disk l.block disk x k i w.first w.last q1 qn
        other
      ∙ all k i low high

  -- Writing a block of the volume at a level with parity keeps every stripe of a balanced array
  -- balanced.
  pub written-Balanced :
      (t : RaidType)
      → has_parity t ≡ true
      → b < volume c t
      → Balanced c disk
      → Balanced c (written c t disk b x)
  written-Balanced raid0 e h all = absurd (ground arith)
  written-Balanced raid1 e h all = absurd (ground arith)
  written-Balanced raid0_1 e h all = absurd (ground arith)
  written-Balanced raid4 e h all = parity_level raid4 refl h all
  written-Balanced raid5 e h all = parity_level raid5 refl h all

  mirror_level :
      (t : RaidType)
      → is_mirrored t ≡ true
      → b < volume c t
      → Mirrored c t disk
      → let l = place_of c t b in
        Mirrored c t (put (put disk l.disk l.block x) (l.disk + data_disks c t) l.block x)
  mirror_level t e h all d k low high behind = ground (
    arith,
    all d k low high behind,
    (mirror_bounds c ok t b e h).0,
    (place_bounds c ok t b h).first,
  )

  -- Writing a block of the volume at a mirrored level keeps every data disk equal to its mirror,
  -- superblocks aside.
  pub written-Mirrored :
      (t : RaidType)
      → is_mirrored t ≡ true
      → b < volume c t
      → Mirrored c t disk
      → Mirrored c t (written c t disk b x)
  written-Mirrored raid0 e h all = absurd (ground arith)
  written-Mirrored raid1 e h all = mirror_level raid1 refl h all
  written-Mirrored raid0_1 e h all = mirror_level raid0_1 refl h all
  written-Mirrored raid4 e h all = absurd (ground arith)
  written-Mirrored raid5 e h all = absurd (ground arith)
