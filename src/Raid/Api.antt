-- ===== src/Raid/Api.antt =====
-- kernel/raid.c: the calls of the RAID layer, and kernel/sysraid.c, the system calls over them.
pub mod Stamp
pub mod Format
pub mod Init
pub mod Refine
pub mod Repair
pub mod Failure
pub mod Boot
pub mod Keeps
pub mod Info
use os2_project.Base.{
  ℕ, zero, suc, ◌+◌, ◌-◌, ◌*◌, ◌/◌, ◌%◌, ◌^◌, Bool, true, false, ◌||◌, ◌&&◌, not, Option, none,
  some, if◌then◌else◌, ltb, leb, ◌==◌, u32, u64, update, minus_one, minus_two, sign_extend,
}
use os2_project.Raid.Types.{
  Block, block_size, Config, blocks_per_disk, RaidType, code, raid0, raid1, raid0_1, raid4, raid5,
  raid_type, healthy, unhealthy, recovery, uninitialized, Superblock, RaidDevice, Machine,
}
use os2_project.Raid.Superblock.{decode, encode}
use os2_project.Raid.Machine.{
  M, pure, ◌>>=◌, ◌>>◌, fault, set_device, kalloc, kfree, read_block, write_block, user_address,
  null_page, store_word,
}
use os2_project.Raid.Rw.{get_device, set_disk_status, get_disk_health, load_metadata, rw_block}
use os2_project.Raid.Recovery.{for_range, handle_recovery}

abbrev unlock_disk : ℕ → M (Unit {0})
unlock_disk d = do
  dev ← get_device
  set_device (record dev { disk_locked = update dev.disk_locked d false })

-- `initsleeplock` on the locks of disks 1 to DISKS - 1, `initlock` on that of the metadata; then,
-- with two disks at least, nothing is in memory.
module _ (c : Config) where
  unfoldable pub init_raid_device : M (Unit {0})
  init_raid_device = do
    for_range (c.disks - 1) 1 unlock_disk
    dev ← get_device
    set_device (record dev { metadata_locked = false })
    dev' ← get_device
    if ltb c.disks 2
        then pure tt
        else set_device (record dev' {
          is_init = minus_one;
          superblock = none;
          disk_status = λ d. if leb d c.disks then uninitialized else dev'.disk_status d;
        })

  -- `formatOneDisk`
  unfoldable pub format_one_disk : ℕ → Block → M ℕ
  format_one_disk disk_num x =
      if ltb disk_num 1 || ltb c.disks disk_num
      then pure minus_one
      else (do for_range (blocks_per_disk c) 0 (λ j. write_block c disk_num j x); pure 0)

  unfoldable pub format_from : ℕ → ℕ → M ℕ
  format_from zero i = pure 0
  format_from (suc n) i = do
    r ← format_one_disk i (λ _. 0)
    if r == minus_one then pure minus_one else format_from n (i + 1)

  -- `formatDisks`
  unfoldable pub format_disks : M ℕ
  format_disks = format_from c.disks 1

  -- The superblock that `raid_system_init` fills in, by the level, or what it returns instead.
  abbrev pub new_superblock : RaidType → ℕ → ℕ → ℕ → ℕ → Superblock
  new_superblock t parity swap max n = record {
    raid_level = code t;
    disk_status = healthy;
    parrity_disk = parity;
    swap_disk = swap;
    max_blknum = max;
    blk_size = block_size;
    num_of_disks = n;
  }

  abbrev pub mirrored : RaidType → Option Superblock
  mirrored t =
      let n = c.disks / 2 in
      let swap = if c.disks % 2 == 1 then c.disks else minus_one in
      if c.disks == 1
      then none
      else some (new_superblock t minus_one swap (u32 (blocks_per_disk c * n - n)) n)

  -- The subtractions are those of `uint64`.
  abbrev pub with_parity : RaidType → ℕ → Option Superblock
  with_parity t parity =
      if c.disks == 2
      then none
      else some (
          new_superblock t parity minus_one
            (u32 (blocks_per_disk c * (c.disks - 1) + 2 ^ 64 - c.disks)) (c.disks - 1))

  -- The `switch` of `raid_system_init`; `none` for its `return -2`.
  unfoldable pub metadata_for : RaidType → Option Superblock
  metadata_for raid0 = some (
      new_superblock raid0 minus_one minus_one (u32 (blocks_per_disk c * c.disks - c.disks))
        c.disks)
  metadata_for raid1 = mirrored raid1
  metadata_for raid0_1 = mirrored raid0_1
  metadata_for raid4 = with_parity raid4 c.disks
  metadata_for raid5 = with_parity raid5 minus_one

  unfoldable pub commit_metadata : Superblock → M ℕ
  commit_metadata sb = do
    for_range c.disks 1 (λ d. write_block c d 0 (encode sb))
    dev ← get_device
    set_device (record dev { superblock = some sb; is_init = 1 })
    pure 0

  unfoldable pub raid_system_init : ℕ → M ℕ
  raid_system_init level = do
    kalloc
    elim (raid_type level) [
      | none ↦ (do kfree; pure minus_one)
      | some t ↦ elim (metadata_for t) [
        | none ↦ (do kfree; pure minus_two)
        | some sb ↦ commit_metadata sb
      ]
    ]

  -- `raid_read_block` and `raid_write_block`, which differ in the last argument of `rw_block`.
  unfoldable pub raid_rw_block : ℕ → ℕ → Bool → M ℕ
  raid_rw_block block_num addr is_read = do
    metadata ← load_metadata c
    elim metadata [
      | none ↦ pure minus_two
      | some sb ↦
          if ltb sb.max_blknum block_num
          then pure minus_one
          else (λ m. rw_block c sb block_num (user_address m addr) is_read m)
    ]

  unfoldable pub raid_read_block : ℕ → ℕ → M ℕ
  raid_read_block block_num addr = raid_rw_block block_num addr true

  unfoldable pub raid_write_block : ℕ → ℕ → M ℕ
  raid_write_block block_num addr = raid_rw_block block_num addr false

  -- The superblock that is changed is a copy on the stack.
  unfoldable pub raid_fail_disk : ℕ → M ℕ
  raid_fail_disk disk_num =
      if ltb disk_num 1 || ltb c.disks disk_num
      then pure minus_one
      else (do x ← read_block c disk_num 0; set_disk_status disk_num unhealthy; pure 0)

  -- The disks from `i` on that are found unhealthy, `n` disks in all.
  unfoldable pub count_failed : ℕ → ℕ → ℕ → M ℕ
  count_failed zero i failed = pure failed
  count_failed (suc n) i failed = do
    h ← get_disk_health c i
    count_failed n (i + 1) (if h == unhealthy then failed + 1 else failed)

  unfoldable pub repair : ℕ → M ℕ
  repair disk_num = do
    failed ← count_failed c.disks 1 0
    x ← read_block c disk_num 0
    set_disk_status disk_num recovery
    err ← handle_recovery c (record (decode x) { disk_status = recovery }) failed disk_num
    if err == minus_one then pure minus_one else (do set_disk_status disk_num healthy; pure 0)

  unfoldable pub raid_repair_disk : ℕ → M ℕ
  raid_repair_disk disk_num =
      if ltb disk_num 1 || ltb c.disks disk_num
      then pure minus_two
      else (do h ← get_disk_health c disk_num; if h == healthy then pure 0 else repair disk_num)

  abbrev pub report : Superblock → ℕ → ℕ → ℕ → M ℕ
  report sb blkn blks diskn m =
      if null_page (user_address m blkn)
        || null_page (user_address m blks)
        || null_page (user_address m diskn)
      then none
      else let mem = store_word m.mem (user_address m blkn) sb.max_blknum in
        let mem' = store_word mem (user_address m blks) sb.blk_size in
        some (0, record m { mem = store_word mem' (user_address m diskn) sb.num_of_disks })

  -- The loop of `raid_system_info` from disk `i` on: the first healthy disk answers.
  unfoldable pub info_from : ℕ → ℕ → ℕ → ℕ → ℕ → M ℕ
  info_from zero i blkn blks diskn = pure minus_one
  info_from (suc n) i blkn blks diskn = do
    metadata ← load_metadata c
    elim metadata [
      | none ↦ pure minus_one
      | some sb ↦ (do
        h ← get_disk_health c i
        if h == healthy then report sb blkn blks diskn else info_from n (i + 1) blkn blks diskn)
    ]

  unfoldable pub raid_system_info : ℕ → ℕ → ℕ → M ℕ
  raid_system_info = info_from c.disks 1

  -- `kfree` panics on a null pointer.
  unfoldable pub raid_system_destroy : M ℕ
  raid_system_destroy = do
    for_range c.disks 1 (λ d. write_block c d 0 (λ i. 0))
    dev ← get_device
    (if dev.is_init == minus_one
        then pure tt
        else elim dev.superblock [ none ↦ fault | some sb ↦ kfree ])
    dev' ← get_device
    set_device (record dev' { is_init = minus_one; superblock = none })
    pure 0

  -- The arguments of a system call are the registers a0, a1, a2: `argint` takes the low 32 bits.
  abbrev pub result : M ℕ → M ℕ
  result f = do r ← f; pure (sign_extend r)

  unfoldable pub sys_init_raid : ℕ → M ℕ
  sys_init_raid a0 = result (raid_system_init (u32 a0))

  unfoldable pub sys_read_raid : ℕ → ℕ → M ℕ
  sys_read_raid a0 a1 = result (raid_read_block (sign_extend (u32 a0)) a1)

  unfoldable pub sys_write_raid : ℕ → ℕ → M ℕ
  sys_write_raid a0 a1 = result (raid_write_block (sign_extend (u32 a0)) a1)

  unfoldable pub sys_disk_fail_raid : ℕ → M ℕ
  sys_disk_fail_raid a0 = result (raid_fail_disk (sign_extend (u32 a0)))

  unfoldable pub sys_disk_repaired_raid : ℕ → M ℕ
  sys_disk_repaired_raid a0 = result (raid_repair_disk (sign_extend (u32 a0)))

  unfoldable pub sys_info_raid : ℕ → ℕ → ℕ → M ℕ
  sys_info_raid a0 a1 a2 = result (raid_system_info a0 a1 a2)

  unfoldable pub sys_destroy_raid : M ℕ
  sys_destroy_raid = result raid_system_destroy
