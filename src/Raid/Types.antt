-- ===== src/Raid/Types.antt =====
-- kernel/raid.h, and the RAID constants of kernel/defs.h: the types of the RAID layer, and the
-- machine that it runs on. An `int`, `uint` or `enum` is held as its 32-bit pattern.
use os2_project.Base.{
  update, ℕ, ◌*◌, ◌/◌, ◌^◌, ◌≤◌, ◌<◌, Bool, Option, none, some, if◌then◌else◌, ◌==◌,
}

-- The contents of one disk block: the byte at each offset below `block_size`.
abbrev pub Block : Type 0
Block = ℕ → ℕ

-- BSIZE
abbrev pub block_size : ℕ
block_size = 1024

-- DISKS and DSK_SIZE are set when the kernel is built; `capacity d` is how many blocks the drive
-- attached as disk `d` has. Disk 0 holds the file system, disks 1 to DISKS are the array's.
pub record Config : Type 0 where
  pub disks : ℕ
  pub dsk_size : ℕ
  pub capacity : ℕ → ℕ

-- (DISK_SIZE * 1024 * 1024) / BSIZE
abbrev pub blocks_per_disk : Config → ℕ
blocks_per_disk c = c.dsk_size * 1024 * 1024 / block_size

pub data RaidType : Type 0 where
  raid0 raid1 raid0_1 raid4 raid5 : RaidType

-- The values of `enum RAID_TYPE`.
abbrev pub code : RaidType → ℕ
code raid0 = 0
code raid1 = 1
code raid0_1 = 2
code raid4 = 3
code raid5 = 4

-- The case that a `switch` over an `enum RAID_TYPE` takes, if any.
unfoldable pub raid_type : ℕ → Option RaidType
raid_type n =
    if n == 0
    then some raid0
    else if n == 1
    then some raid1
    else if n == 2
    then some raid0_1
    else if n == 3
    then some raid4
    else if n == 4
    then some raid5
    else none

-- `enum DISK_HEALTH`
abbrev pub healthy : ℕ
healthy = 1

abbrev pub unhealthy : ℕ
unhealthy = 2

abbrev pub recovery : ℕ
recovery = 3

abbrev pub uninitialized : ℕ
uninitialized = 4

-- `struct RAIDSuperblock`
pub record Superblock : Type 0 where
  pub raid_level : ℕ
  pub disk_status : ℕ
  pub parrity_disk : ℕ
  pub swap_disk : ℕ
  pub max_blknum : ℕ
  pub blk_size : ℕ
  pub num_of_disks : ℕ

-- `struct RAIDDevice`. `superblock` is `none` for the null pointer, and else the page pointed at.
pub record RaidDevice : Type 0 where
  pub is_init : ℕ
  pub disk_status : ℕ → ℕ
  pub superblock : Option Superblock
  pub disk_locked : ℕ → Bool
  pub metadata_locked : Bool

-- What the RAID layer works on: its device, the disks, physical memory, the number of pages that
-- `kalloc` can still give out, and the current process's page table, `walk pagetable va 0`: the
-- entry for an address (`none` for a null pointer).
pub record Machine : Type 0 where
  pub device : RaidDevice
  pub disk : ℕ → ℕ → Block
  pub mem : ℕ → ℕ
  pub free_pages : ℕ
  pub walk : ℕ → Option ℕ

-- A block of a disk.
pub record Place : Type 0 where
  pub disk : ℕ
  pub block : ℕ

-- What the layer relies on: an array of three disks at least, a size in megabytes whose product with
-- 1024 * 1024 fits an `int`, few enough disks that a block number fits a `uint`, and drives that
-- have the blocks that the size tells of.
pub record IsConfig (c : Config) : Type 0 where
  pub enough : 3 ≤ c.disks
  pub few : c.disks < 2 ^ 11
  pub some_blocks : 0 < c.dsk_size
  pub small : c.dsk_size < 2048
  pub drives : (d : ℕ) → 1 ≤ d → d ≤ c.disks → blocks_per_disk c ≤ c.capacity d

-- The disks with one block written.
abbrev pub put : (ℕ → ℕ → Block) → ℕ → ℕ → Block → ℕ → ℕ → Block
put disk d b x = update disk d (update (disk d) b x)
