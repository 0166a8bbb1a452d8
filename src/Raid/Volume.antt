-- ===== src/Raid/Volume.antt =====
-- The array as one volume of blocks: what reading and writing a block through `rw_block` does, at
-- every level, while all its disks are healthy.
pub mod Access
pub mod Laws
pub mod Redundancy
use os2_project.Base.{
  ℕ, ◌+◌, ◌-◌, ◌*◌, ◌/◌, ◌%◌, ◌^◌, ◌≤◌, ◌<◌, ◌≡◌, ◌≢◌, refl, ap, Bool, true, false, Option, none,
  some, ◌==◌, arith, if◌then◌else◌, ◌∙◌, sign_extend, u64, ne→==, sym,
}
use os2_project.Raid.Types.{
  Block, Config, IsConfig, blocks_per_disk, RaidType, raid0, raid1, raid0_1, raid4, raid5,
  raid_type, healthy, uninitialized, Superblock, Machine, Place, put,
}
use os2_project.Raid.Machine.{M, load_block, store_block}
use os2_project.Raid.Machine.Laws.{Reaches}
use os2_project.Raid.Geometry.{
  data_disks, volume, place, place_of, parity_disk, is_mirrored, has_parity, raid5_parity,
}
use os2_project.Raid.Geometry.Places.{
  Within, data_disks_bounds, blocks_bounds, place_bounds, mirror_bounds, parity_bounds,
}
use os2_project.Raid.Rw.{rw_level, rw_block, handle_rw_raid01, divisor}
use os2_project.Raid.Rw.Locks.{Free, on_disk}
use os2_project.Raid.Rw.Mirror.{read_raid01_lem, write_raid01_lem}
use os2_project.Raid.Rw.Parity.{
  parity_write, rw_unmirrored_read, rw_unmirrored_plain, rw_unmirrored_parity,
}

-- The superblock of an array of a level.
pub record Describes (c : Config) (t : RaidType) (sb : Superblock) : Type 0 where
  pub level : raid_type sb.raid_level ≡ some t
  pub disks : sb.num_of_disks ≡ data_disks c t
  pub parity : t ≡ raid4 → sign_extend sb.parrity_disk ≡ c.disks
  pub max : volume c t ≤ sb.max_blknum + 1

-- All disks are healthy and known to be, no disk lock is held, and a page can be had.
pub record Online (c : Config) (m : Machine) : Type 0 where
  pub good : (d : ℕ) → 1 ≤ d → d ≤ c.disks → m.device.disk_status d ≡ healthy
  pub free : (d : ℕ) → m.device.disk_locked d ≡ false
  pub spare : 0 < m.free_pages

-- The contents of a block of the volume.
abbrev pub view : Config → RaidType → (ℕ → ℕ → Block) → ℕ → Block
view c t disk b = let l = place_of c t b in disk l.disk l.block

-- The disks after a block of the volume is written.
abbrev pub written : Config → RaidType → (ℕ → ℕ → Block) → ℕ → Block → ℕ → ℕ → Block
written c raid0 disk b x = let l = place_of c raid0 b in put disk l.disk l.block x
written c raid1 disk b x =
    let l = place_of c raid1 b in
    put (put disk l.disk l.block x) (l.disk + data_disks c raid1) l.block x
written c raid0_1 disk b x =
    let l = place_of c raid0_1 b in
    put (put disk l.disk l.block x) (l.disk + data_disks c raid0_1) l.block x
written c raid4 disk b x =
    let l = place_of c raid4 b in parity_write (parity_disk c raid4 l.block) l.disk l.block disk x
written c raid5 disk b x =
    let l = place_of c raid5 b in parity_write (parity_disk c raid5 l.block) l.disk l.block disk x
