-- ===== src/Raid/Api/Format.antt =====
-- `raid_system_init`: the superblock of each level, and what is on the disks afterwards.
use os2_project.Base.{
  ℕ, zero, suc, ◌+◌, ◌-◌, ◌*◌, ◌/◌, ◌%◌, ◌^◌, ◌≤◌, ◌<◌, ◌≡◌, refl, ap, some, false, arith, ◌∙◌, u32,
  minus_one, if◌then◌else◌, ◌==◌, ne→==, sign_extend,
}
use native.Mathlib.Nat.{mul-le-mul, mul_comm}
use os2_project.Raid.Types.{
  block_size, Config, IsConfig, blocks_per_disk, RaidType, raid0, raid1, raid0_1, raid4, raid5,
  code, raid_type, healthy, Superblock,
}
use os2_project.Raid.Geometry.{data_disks, volume, has_parity}
use os2_project.Raid.Geometry.Places.{blocks_bounds, data_disks_bounds}
use os2_project.Raid.Superblock.{is_raid_uninitialized, Fits}
use os2_project.Raid.Volume.{Describes}
use os2_project.Raid.Api.{metadata_for, new_superblock}

-- The largest block number that the superblock of a level admits: for RAID0, RAID1 and RAID0_1 it is
-- the number of blocks.
abbrev pub max_block : Config → RaidType → ℕ
max_block c t = if has_parity t then volume c t - 1 else volume c t

less_one : (k n : ℕ) → 0 < k → k * n - n ≡ n * (k - 1)
less_one zero n h = absurd (omega arith)
less_one (suc k) n h = let e : suc k - 1 ≡ k = omega arith in rw e (omega (arith, mul_comm n k))

module _ (c : Config) (ok : IsConfig c) where
  volume_small : (t : RaidType) → volume c t < 2 ^ 32
  volume_small t =
      let m : volume c t ≤ (2 ^ 11 - 1) * (2 ^ 21 - 1) =
        mul-le-mul {n₁ = data_disks c t} {m₁ = blocks_per_disk c - 1} {n₂ = 2 ^ 11 - 1}
          {m₂ = 2 ^ 21 - 1} (omega (arith, (data_disks_bounds c ok t).1, ok.few))
          (omega (arith, ok.small)) in
      omega (arith, m)

  max_mirrored :
      (t : RaidType) → u32 (blocks_per_disk c * data_disks c t - data_disks c t) ≡ volume c t
  max_mirrored t =
      let n = data_disks c t in
      omega
        (arith, volume_small t, less_one (blocks_per_disk c) n (omega (arith, blocks_bounds c ok)))

  max_parity :
      u32 (blocks_per_disk c * (c.disks - 1) + 2 ^ 64 - c.disks)
      ≡ (c.disks - 1) * (blocks_per_disk c - 1) - 1
  max_parity =
      let e = less_one (blocks_per_disk c) (c.disks - 1) (omega (arith, blocks_bounds c ok)) in
      let pos : 1 * 1 ≤ (c.disks - 1) * (blocks_per_disk c - 1) =
        mul-le-mul {n₁ = 1} {m₁ = 1} {n₂ = c.disks - 1} {m₂ = blocks_per_disk c - 1}
          (omega (arith, ok.enough)) (omega (arith, blocks_bounds c ok)) in
      omega (arith, volume_small raid4, e, pos, ok.enough)

  -- What a superblock tells of an array of level `t`.
  pub record IsFormat (t : RaidType) (sb : Superblock) : Type 0 where
    pub max : sb.max_blknum ≡ max_block c t
    pub level : sb.raid_level ≡ code t
    pub disks : sb.num_of_disks ≡ data_disks c t
    pub status : sb.disk_status ≡ healthy
    pub size : sb.blk_size ≡ block_size
    pub parity : sb.parrity_disk ≡ (if code t == 3 then c.disks else minus_one)
    pub swap : sb.swap_disk < 2 ^ 32

  -- With three disks or more every level gets a superblock that tells its disks, its status and its
  -- block size, and whose largest admitted block number is the last block of the volume for RAID4
  -- and RAID5, and one more for the others.
  pub metadata-IsFormat :
      (t : RaidType) → (sb : Superblock) × (metadata_for c t ≡ some sb) × IsFormat t sb
  unfolding metadata_for
  metadata-IsFormat raid0 = (
    _,
    refl,
    record {
      max = max_mirrored raid0;
      level = refl;
      disks = refl;
      status = refl;
      size = refl;
      parity = refl;
      swap = omega arith;
    },
  )
  metadata-IsFormat raid1 = (
    new_superblock c raid1 minus_one (if c.disks % 2 == 1 then c.disks else minus_one)
        (u32 (blocks_per_disk c * (c.disks / 2) - c.disks / 2)) (c.disks / 2),
    rw (ne→== c.disks 1 (omega (arith, ok.enough))),
    record {
      max = max_mirrored raid1;
      level = refl;
      disks = refl;
      status = refl;
      size = refl;
      parity = refl;
      swap = ground (arith, ok.few);
    },
  )
  metadata-IsFormat raid0_1 = (
    new_superblock c raid0_1 minus_one (if c.disks % 2 == 1 then c.disks else minus_one)
        (u32 (blocks_per_disk c * (c.disks / 2) - c.disks / 2)) (c.disks / 2),
    rw (ne→== c.disks 1 (omega (arith, ok.enough))),
    record {
      max = max_mirrored raid0_1;
      level = refl;
      disks = refl;
      status = refl;
      size = refl;
      parity = refl;
      swap = ground (arith, ok.few);
    },
  )
  metadata-IsFormat raid4 = (
    new_superblock c raid4 c.disks minus_one
        (u32 (blocks_per_disk c * (c.disks - 1) + 2 ^ 64 - c.disks)) (c.disks - 1),
    rw (ne→== c.disks 2 (omega (arith, ok.enough))),
    record {
      max = max_parity;
      level = refl;
      disks = refl;
      status = refl;
      size = refl;
      parity = refl;
      swap = omega arith;
    },
  )
  metadata-IsFormat raid5 = (
    new_superblock c raid5 minus_one minus_one
        (u32 (blocks_per_disk c * (c.disks - 1) + 2 ^ 64 - c.disks)) (c.disks - 1),
    rw (ne→== c.disks 2 (omega (arith, ok.enough))),
    record {
      max = max_parity;
      level = refl;
      disks = refl;
      status = refl;
      size = refl;
      parity = refl;
      swap = omega arith;
    },
  )

  pub raid_type-code : (t : RaidType) → raid_type (code t) ≡ some t
  unfolding raid_type
  raid_type-code raid0 = refl
  raid_type-code raid1 = refl
  raid_type-code raid0_1 = refl
  raid_type-code raid4 = refl
  raid_type-code raid5 = refl

  parity_of :
      (t : RaidType)
      → t ≡ raid4
      → sign_extend (if code t == 3 then c.disks else minus_one) ≡ c.disks
  parity_of raid0 e = absurd (ground (arith, e))
  parity_of raid1 e = absurd (ground (arith, e))
  parity_of raid0_1 e = absurd (ground (arith, e))
  parity_of raid4 e = ground (arith, ok.few)
  parity_of raid5 e = absurd (ground (arith, e))

  max_enough : (t : RaidType) → volume c t ≤ max_block c t + 1
  max_enough t = ground arith

  max_small : (t : RaidType) → max_block c t < 2 ^ 32
  max_small t = ground (arith, volume_small t)

  small_words : (t : RaidType) → (code t < 2 ^ 32) × (data_disks c t < 2 ^ 32)
  small_words t = (ground arith, omega (arith, (data_disks_bounds c ok t).1, ok.few))

  module _ (t : RaidType) (sb : Superblock) (f : IsFormat t sb) where
    -- It can serve the volume of its level.
    pub IsFormat-Describes : Describes c t sb
    IsFormat-Describes = record {
      level = ap raid_type f.level ∙ raid_type-code t;
      disks = f.disks;
      parity = λ e. ap sign_extend f.parity ∙ parity_of t e;
      max = rw f.max (max_enough t);
    }

    -- It survives the trip to a disk.
    pub IsFormat-Fits : Fits sb
    IsFormat-Fits =
        let (code_small, disks_small) = small_words t in
        record {
          raid_level = rw f.level code_small;
          disk_status = rw f.status (omega arith);
          parrity_disk = rw f.parity (ground (arith, ok.few));
          swap_disk = f.swap;
          max_blknum = rw f.max (max_small t);
          blk_size = rw f.size (omega arith);
          num_of_disks = rw f.disks disks_small;
        }

    -- It is not taken for an empty one.
    pub IsFormat-initialized : is_raid_uninitialized sb ≡ false
    unfolding is_raid_uninitialized
    IsFormat-initialized = ground (arith, f.size)
