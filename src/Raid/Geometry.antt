-- ===== src/Raid/Geometry.antt =====
-- Where `rw_block` of kernel/raid.c puts a logical block: the disk and the block on that disk, for
-- each RAID level. `n` is `num_of_disks`, the disks that carry data.
pub mod Laws
pub mod Places
use os2_project.Base.{
  ℕ, ◌+◌, ◌-◌, ◌*◌, ◌/◌, ◌%◌, ◌^◌, Bool, true, false, if◌then◌else◌, ltb, u32, u64,
}
use os2_project.Raid.Types.{
  Config, blocks_per_disk, RaidType, raid0, raid1, raid0_1, raid4, raid5, Place,
}

-- `parrity_index` of RAID5, by the stripe.
unfoldable pub raid5_parity : ℕ → ℕ → ℕ
raid5_parity n stripe = u64 (u32 (n + 1) + 2 ^ 64 - u64 (stripe + 2 ^ 64 - 1) % u32 (n + 1))

-- The data disk of RAID5, by the parity disk and the place in the stripe.
unfoldable pub raid5_disk : ℕ → ℕ → ℕ → ℕ
raid5_disk n parity offset =
    let d = u64 (parity + offset) in if ltb (u32 (n + 1)) d then d % u32 (n + 1) else d

unfoldable pub place : Config → RaidType → ℕ → ℕ → Place
unfolding raid5_parity raid5_disk
place c raid0 n b = record { disk = u64 (b % n + 1); block = u64 (b / n + 1) }
place c raid1 n b =
    let m = u64 (blocks_per_disk c + 2 ^ 64 - 1) in
    record { disk = u64 (b / m + 1); block = u64 (b % m + 1) }
place c raid0_1 n b = record { disk = u64 (b % n + 1); block = u64 (b + n) / n }
place c raid4 n b = record { disk = u64 (b % n + 1); block = u64 (b / n + 1) }
place c raid5 n b =
    let stripe = u64 (b / n + 1) in
    record { disk = raid5_disk n (raid5_parity n stripe) (u64 (b % n + 1)); block = stripe }

-- The data disks that `raid_system_init` sets up for a level, and the blocks that fit them: block 0
-- of each disk holds the superblock.
abbrev pub data_disks : Config → RaidType → ℕ
data_disks c raid0 = c.disks
data_disks c raid1 = c.disks / 2
data_disks c raid0_1 = c.disks / 2
data_disks c raid4 = c.disks - 1
data_disks c raid5 = c.disks - 1

abbrev pub volume : Config → RaidType → ℕ
volume c t = data_disks c t * (blocks_per_disk c - 1)

abbrev pub place_of : Config → RaidType → ℕ → Place
place_of c t b = place c t (data_disks c t) b

-- The parity disk of RAID4 and RAID5 for the blocks of a stripe.
abbrev pub parity_disk : Config → RaidType → ℕ → ℕ
parity_disk c raid5 stripe = raid5_parity (data_disks c raid5) stripe
parity_disk c _ stripe = c.disks

abbrev pub is_mirrored : RaidType → Bool
is_mirrored raid1 = true
is_mirrored raid0_1 = true
is_mirrored _ = false

abbrev pub has_parity : RaidType → Bool
has_parity raid4 = true
has_parity raid5 = true
has_parity _ = false
