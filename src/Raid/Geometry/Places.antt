-- ===== src/Raid/Geometry/Places.antt =====
-- Where the blocks of a volume lie on the disks.
use os2_project.Base.{
  ℕ, ◌+◌, ◌-◌, ◌*◌, ◌/◌, ◌%◌, ◌^◌, ◌≤◌, ◌<◌, ◌≡◌, ◌≢◌, ap, sym, ◌∙◌, true, arith, u64,
}
use native.Mathlib.Nat.{div-le_self, add-div_right, mod-lt, mul-le-mul, mul_comm}
use os2_project.Raid.Types.{
  Config, IsConfig, blocks_per_disk, RaidType, raid0, raid1, raid0_1, raid4, raid5, Place,
}
use os2_project.Raid.Geometry.{
  place, raid5_parity, raid5_disk, data_disks, volume, place_of, parity_disk, is_mirrored,
  has_parity,
}
use os2_project.Raid.Geometry.Laws.{
  div-lt, div_mod_ext, raid5_parity_bounds, raid5_disk_bounds, raid5_disk-injective,
}

-- A place on one of `disks` disks, in one of the blocks 1 to `blocks - 1`.
pub record Within (disks blocks : ℕ) (l : Place) : Type 0 where
  pub first : 1 ≤ l.disk
  pub last : l.disk ≤ disks
  pub behind : 1 ≤ l.block
  pub before : l.block < blocks

word_lem : (x : ℕ) → x < 2 ^ 64 → u64 x ≡ x
word_lem x h = omega arith

module _ (c : Config) (ok : IsConfig c) where
  open ok use {enough, few, some_blocks, small}

  pub data_disks_bounds : (t : RaidType) → (1 ≤ data_disks c t) × (data_disks c t ≤ c.disks)
  data_disks_bounds raid0 = omega arith
  data_disks_bounds raid1 = omega arith
  data_disks_bounds raid0_1 = omega arith
  data_disks_bounds raid4 = omega arith
  data_disks_bounds raid5 = omega arith

  pub blocks_bounds : (2 ≤ blocks_per_disk c) × (blocks_per_disk c < 2 ^ 31)
  blocks_bounds = omega arith

  -- A block number of a volume fits a word with room to spare.
  pub volume_bound : (t : RaidType) (b : ℕ) → b < volume c t → b < 2 ^ 48
  volume_bound t b h =
      let m : volume c t ≤ 2 ^ 16 * 2 ^ 31 =
        mul-le-mul {n₁ = data_disks c t} {m₁ = blocks_per_disk c - 1} {n₂ = 2 ^ 16} {m₂ = 2 ^ 31}
          (omega (arith, (data_disks_bounds t).1)) (omega arith) in
      omega (arith, h, m)

  -- The arithmetic of one block number, by the disks `n` and by the blocks `k` of a disk.
  record Row (n k b : ℕ) : Type 0 where
    disks : (0 < n) × (n ≤ c.disks)
    inside : b / n < k
    column : b % n < n
    by_disk : b / k < n
    rest : b % k < k
    fits : b < 2 ^ 48
    quotients : (b / n ≤ b) × (b / k ≤ b)

  row : (t : RaidType) (b : ℕ) → b < volume c t → Row (data_disks c t) (blocks_per_disk c - 1) b
  row t b h =
      let n = data_disks c t in
      let k = blocks_per_disk c - 1 in
      let pos = (data_disks_bounds t).0 in
      let pos' : 0 < k = omega (arith, blocks_bounds) in
      record {
        disks = data_disks_bounds t;
        inside = div-lt b n k pos h;
        column = mod-lt b {m = n} pos;
        by_disk = div-lt b k n pos' (rw (mul_comm k n) h);
        rest = mod-lt b {m = k} pos';
        fits = volume_bound t b h;
        quotients = (div-le_self b n, div-le_self b k);
      }

  -- The place of a block of the volume, with the word arithmetic computed away.
  abbrev plain : RaidType → ℕ → Place
  plain raid1 b = let k = blocks_per_disk c - 1 in record { disk = b / k + 1; block = b % k + 1 }
  plain raid5 b =
      let n = data_disks c raid5 in
      let stripe = b / n + 1 in
      record { disk = raid5_disk n (raid5_parity n stripe) (b % n + 1); block = stripe }
  plain t b = let n = data_disks c t in record { disk = b % n + 1; block = b / n + 1 }

  place_plain : (t : RaidType) (b : ℕ) → b < volume c t → place_of c t b ≡ plain t b
  unfolding place
  place_plain raid0 b h =
      let r = row raid0 b h in
      λ i. record {
        disk = word_lem (b % c.disks + 1) (omega arith) i;
        block = word_lem (b / c.disks + 1) (omega arith) i;
      }
  place_plain raid1 b h =
      let r = row raid1 b h in
      let e : u64 (blocks_per_disk c + 2 ^ 64 - 1) ≡ blocks_per_disk c - 1 =
        omega (arith, blocks_bounds) in
      rw e (λ i. record {
        disk = word_lem (b / (blocks_per_disk c - 1) + 1) (omega arith) i;
        block = word_lem (b % (blocks_per_disk c - 1) + 1) (omega (arith, blocks_bounds)) i;
      })
  place_plain raid0_1 b h =
      let n = c.disks / 2 in
      let r = row raid0_1 b h in
      λ i. record {
        disk = word_lem (b % n + 1) (omega arith) i;
        block = (ap (λ t. t / n) (word_lem (b + n) (omega arith)) ∙ add-div_right b r.disks.0) i;
      }
  place_plain raid4 b h =
      let n = c.disks - 1 in
      let r = row raid4 b h in
      λ i. record {
        disk = word_lem (b % n + 1) (omega arith) i;
        block = word_lem (b / n + 1) (omega arith) i;
      }
  place_plain raid5 b h =
      let n = c.disks - 1 in
      let r = row raid5 b h in
      let e : u64 (b / n + 1) ≡ b / n + 1 = word_lem (b / n + 1) (omega arith) in
      let f : u64 (b % n + 1) ≡ b % n + 1 = word_lem (b % n + 1) (omega arith) in
      λ i. record { disk = raid5_disk n (raid5_parity n (e i)) (f i); block = e i }

  plain-Within :
      (t : RaidType) (b : ℕ) → b < volume c t → Within c.disks (blocks_per_disk c) (plain t b)
  plain-Within raid0 b h = let r = row raid0 b h in omega (arith, blocks_bounds)
  plain-Within raid1 b h = let r = row raid1 b h in omega (arith, blocks_bounds)
  plain-Within raid0_1 b h = let r = row raid0_1 b h in omega (arith, blocks_bounds)
  plain-Within raid4 b h = let r = row raid4 b h in omega (arith, blocks_bounds)
  plain-Within raid5 b h =
      let r = row raid5 b h in
      let n = c.disks - 1 in
      let stripe = b / n + 1 in
      let (low, high) =
        raid5_parity_bounds n stripe (omega arith) (omega arith) (omega arith) (omega arith) in
      let (first, last, other) =
        raid5_disk_bounds n (raid5_parity n stripe) (b % n + 1) (omega arith) (omega arith) low high
          (omega arith) (omega arith) in
      omega (arith, blocks_bounds)

  plain-injective :
      (t : RaidType) (a b : ℕ) → a < volume c t → b < volume c t → plain t a ≡ plain t b → a ≡ b
  plain-injective raid0 a b h k e =
      div_mod_ext a b c.disks (omega (arith, ap (λ l. l.block) e))
        (omega (arith, ap (λ l. l.disk) e))
  plain-injective raid1 a b h k e =
      div_mod_ext a b (blocks_per_disk c - 1) (omega (arith, ap (λ l. l.disk) e))
        (omega (arith, ap (λ l. l.block) e))
  plain-injective raid0_1 a b h k e =
      div_mod_ext a b (c.disks / 2) (omega (arith, ap (λ l. l.block) e))
        (omega (arith, ap (λ l. l.disk) e))
  plain-injective raid4 a b h k e =
      div_mod_ext a b (c.disks - 1) (omega (arith, ap (λ l. l.block) e))
        (omega (arith, ap (λ l. l.disk) e))
  plain-injective raid5 a b h k e =
      let r = row raid5 a h in
      let s = row raid5 b k in
      let n = c.disks - 1 in
      let same : a / n ≡ b / n = omega (arith, ap (λ l. l.block) e) in
      let at : raid5_disk n (raid5_parity n (a / n + 1)) (a % n + 1)
          ≡ raid5_disk n (raid5_parity n (a / n + 1)) (b % n + 1) =
        rw (← same) at (ap (λ l. l.disk) e) in
      let (low, high) =
        raid5_parity_bounds n (a / n + 1) (omega arith) (omega arith) (omega arith) (omega arith) in
      div_mod_ext a b n same (
        omega (
          arith,
          raid5_disk-injective n (raid5_parity n (a / n + 1)) (a % n + 1) (b % n + 1) (omega arith)
              (omega arith) low high (omega arith) (omega arith) (omega arith) (omega arith) at,
        ))

  -- At every level a block of the volume lies on a disk of the array, behind the superblock and
  -- before the end of the disk.
  pub place_bounds :
      (t : RaidType) (b : ℕ) → b < volume c t → Within c.disks (blocks_per_disk c) (place_of c t b)
  place_bounds t b h = rw (place_plain t b h) (plain-Within t b h)

  -- No two blocks of the volume share a place.
  pub place-injective :
      (t : RaidType) (a b : ℕ)
      → a < volume c t
      → b < volume c t
      → place_of c t a ≡ place_of c t b
      → a ≡ b
  place-injective t a b h k e =
      plain-injective t a b h k (sym (place_plain t a h) ∙ e ∙ place_plain t b k)

  -- At every level two different blocks of the volume lie at different places.
  pub place-ne :
      (t : RaidType) (a b : ℕ)
      → a < volume c t
      → b < volume c t
      → a ≢ b
      → place_of c t a ≢ place_of c t b
  place-ne t a b h k differ same = differ (place-injective t a b h k same)

  plain_mirror :
      (t : RaidType) (b : ℕ)
      → is_mirrored t ≡ true
      → b < volume c t
      → ((plain t b).disk ≤ data_disks c t) × ((plain t b).disk + data_disks c t ≤ c.disks)
  plain_mirror raid0 b e h = absurd (ground arith)
  plain_mirror raid1 b e h = let r = row raid1 b h in (omega arith, omega arith)
  plain_mirror raid0_1 b e h = let r = row raid0_1 b h in (omega arith, omega arith)
  plain_mirror raid4 b e h = absurd (ground arith)
  plain_mirror raid5 b e h = absurd (ground arith)

  plain_parity :
      (t : RaidType) (b : ℕ)
      → has_parity t ≡ true
      → b < volume c t
      → let q = parity_disk c t (plain t b).block in
        (1 ≤ q) × (q ≤ c.disks) × (q ≢ (plain t b).disk)
  plain_parity raid0 b e h = absurd (ground arith)
  plain_parity raid1 b e h = absurd (ground arith)
  plain_parity raid0_1 b e h = absurd (ground arith)
  plain_parity raid4 b e h = let r = row raid4 b h in (omega arith, omega arith, omega arith)
  plain_parity raid5 b e h =
      let r = row raid5 b h in
      let n = c.disks - 1 in
      let stripe = b / n + 1 in
      let (low, high) =
        raid5_parity_bounds n stripe (omega arith) (omega arith) (omega arith) (omega arith) in
      let (first, last, other) =
        raid5_disk_bounds n (raid5_parity n stripe) (b % n + 1) (omega arith) (omega arith) low high
          (omega arith) (omega arith) in
      (low, omega arith, omega arith)

  -- At a mirrored level a block of the volume lies on a data disk, and the mirror of that disk is a
  -- disk of the array.
  pub mirror_bounds :
      (t : RaidType) (b : ℕ)
      → is_mirrored t ≡ true
      → b < volume c t
      → ((place_of c t b).disk ≤ data_disks c t)
        × ((place_of c t b).disk + data_disks c t ≤ c.disks)
  mirror_bounds t b e h = rw (place_plain t b h) (plain_mirror t b e h)

  -- At a level with parity the parity disk of a block of the volume is a disk of the array other
  -- than the one that has the block.
  pub parity_bounds :
      (t : RaidType) (b : ℕ)
      → has_parity t ≡ true
      → b < volume c t
      → let l = place_of c t b in
        let q = parity_disk c t l.block in (1 ≤ q) × (q ≤ c.disks) × (q ≢ l.disk)
  parity_bounds t b e h = rw (place_plain t b h) (plain_parity t b e h)
