-- ===== src/Raid/Rw.antt =====
-- kernel/raid.c: the health of the disks, the superblock in memory, and reading and writing a block
-- at every RAID level.
pub mod Laws
pub mod Locks
pub mod Mirror
pub mod Parity
use os2_project.Base.{
  ℕ, zero, suc, ◌+◌, ◌-◌, ◌*◌, ◌/◌, ◌%◌, ◌^◌, Bool, true, false, ◌||◌, ◌&&◌, not, Option, none,
  some, bit_xor, if◌then◌else◌, ltb, ◌==◌, u32, u64, update, minus_one, sign_extend,
}
use os2_project.Base.Int.{is_zero}
use os2_project.KernelString.{memcmp}
use os2_project.Raid.Types.{
  Block, block_size, Config, blocks_per_disk, RaidType, raid0, raid1, raid0_1, raid4, raid5,
  raid_type, healthy, uninitialized, Superblock, RaidDevice, Machine, Place,
}
use os2_project.Raid.Superblock.{decode, is_raid_uninitialized}
use os2_project.Raid.Geometry.{place, raid5_parity}
use os2_project.Raid.Machine.{
  M, pure, ◌>>=◌, ◌>>◌, fault, set_device, kalloc, kfree, read_block, write_block, acquire_disk,
  release_disk, acquire_metadata, release_metadata, load_block, store_block, null_page,
}

abbrev pub get_device : M RaidDevice
get_device m = some (m.device, m)

abbrev pub disk_status : ℕ → M ℕ
disk_status d m = some (m.device.disk_status d, m)

unfoldable pub set_disk_status : ℕ → ℕ → M (Unit {0})
set_disk_status d s = do
  dev ← get_device
  set_device (record dev { disk_status = update dev.disk_status d s })

abbrev pub is_none : Option Superblock → Bool
is_none none = true
is_none (some _) = false

-- `superblock && !is_raid_uninitialized(superblock)`
abbrev pub ready : Option Superblock → Bool
ready none = false
ready (some sb) = not (is_raid_uninitialized sb)

module _ (c : Config) where
  -- The branch of `get_disk_health` for a disk whose status is not known yet.
  unfoldable pub load_status : ℕ → M (Unit {0})
  load_status d = do kalloc; x ← read_block c d 0; set_disk_status d (decode x).disk_status; kfree

  unfoldable pub get_disk_health : ℕ → M ℕ
  get_disk_health disk_num =
      let d = u32 disk_num in
      if ltb d 1 || ltb c.disks d then pure minus_one else (do
        s ← disk_status d
        (if s == uninitialized then load_status d else pure tt)
        disk_status d)

  -- The part of `load_metadata` that reads disk 1: false for its `return -1`.
  unfoldable pub load_from_disk : M Bool
  load_from_disk = do
    kalloc
    x ← read_block c 1 0
    let sb = decode x
    if is_raid_uninitialized sb then (do kfree; pure false) else (do
      acquire_metadata
      dev ← get_device
      if is_none dev.superblock || dev.is_init == minus_one
          then (do
            set_device (record dev {
              superblock = some sb;
              is_init = 1;
              disk_status = update dev.disk_status 0 sb.disk_status;
            })
            release_metadata
            pure true)
          else (do release_metadata; kfree; pure true))

  -- The slow path of `load_metadata`.
  unfoldable pub load_slowly : M (Option Superblock)
  load_slowly = do
    acquire_metadata
    dev ← get_device
    let need_load = dev.is_init == minus_one || is_none dev.superblock
    release_metadata
    loaded ← (if need_load then load_from_disk else pure true)
    dev' ← get_device
    pure (if loaded && ready dev'.superblock then dev'.superblock else none)

  -- `none` for its `return -1`, else what it stores through `metadata`.
  unfoldable pub load_metadata : M (Option Superblock)
  load_metadata = do
    dev ← get_device
    if dev.is_init == 1 && ready dev.superblock then pure dev.superblock else load_slowly

  -- Both arms of `if (isRead)`: a block of a disk to or from physical memory.
  unfoldable pub transfer : ℕ → ℕ → ℕ → Bool → M (Unit {0})
  transfer d b p is_read = elim is_read [
    | true ↦ (do
      x ← read_block c d b
      λ m. if null_page p then none else some (tt, record m { mem = store_block m.mem p x }))
    | false ↦ (λ m. if null_page p then none else write_block c d b (load_block m.mem p) m)
  ]

  -- Locks two disks, the lower one first.
  unfoldable pub acquire_pair : ℕ → ℕ → M (Unit {0})
  acquire_pair d e = do
    acquire_disk c (if ltb d e then d else e)
    acquire_disk c (if ltb d e then e else d)

  unfoldable pub release_pair : ℕ → ℕ → M (Unit {0})
  release_pair d e = do
    release_disk c (if ltb d e then e else d)
    release_disk c (if ltb d e then d else e)

  unfoldable pub read_raid01 : ℕ → ℕ → ℕ → ℕ → M ℕ
  read_raid01 d mirror b p = do
    h ← get_disk_health d
    if h == healthy then (do transfer d b p true; pure 0) else (do
      h' ← get_disk_health mirror
      if h' == healthy then (do transfer mirror b p true; pure 0) else pure minus_one)

  -- Between the two locks: the first disk if it is healthy, then the mirror.
  unfoldable pub write_mirrored : ℕ → ℕ → ℕ → ℕ → M ℕ
  write_mirrored d mirror b p = do
    h ← get_disk_health d
    if h == healthy then (do transfer d b p false; transfer mirror b p false; pure 0) else (do
      h' ← get_disk_health mirror
      if h' == healthy then (do transfer mirror b p false; pure 0) else pure minus_one)

  unfoldable pub write_raid01 : ℕ → ℕ → ℕ → ℕ → M ℕ
  write_raid01 d mirror b p = do
    acquire_pair d mirror
    r ← write_mirrored d mirror b p
    release_pair d mirror
    pure r

  unfoldable pub handle_rw_raid01 : Superblock → ℕ → ℕ → ℕ → Bool → M ℕ
  handle_rw_raid01 sb d b p is_read =
      let mirror = u64 (d + sb.num_of_disks) in
      elim is_read [ true ↦ read_raid01 d mirror b p | false ↦ write_raid01 d mirror b p ]

  unfoldable pub write_parrity_block : ℕ → ℕ → Block → Block → M (Unit {0})
  write_parrity_block parity_disk b old new = do
    parity ← read_block c parity_disk b
    kalloc
    write_block c parity_disk b (λ i. bit_xor (bit_xor (new i) (old i)) (parity i))
    kfree

  -- Between the two locks of RAID4 and RAID5: nothing where the data stays as it is.
  unfoldable pub write_with_parity : ℕ → ℕ → ℕ → Block → M (Unit {0})
  write_with_parity parity_disk d b new = do
    old ← read_block c d b
    if is_zero (memcmp old new block_size)
        then pure tt
        else (do write_parrity_block parity_disk b old new; write_block c d b new)

  unfoldable pub write_raid45 : ℕ → ℕ → ℕ → ℕ → M (Unit {0})
  write_raid45 parity_disk d b p = do
    acquire_pair parity_disk d
    (λ m. if null_page p then none else write_with_parity parity_disk d b (load_block m.mem p) m)
    release_pair parity_disk d

  -- RAID0 has no parity disk; the others write under the locks of the two disks.
  unfoldable pub rw_unmirrored : Option ℕ → ℕ → ℕ → ℕ → Bool → M ℕ
  rw_unmirrored parity d b p is_read = do
    h ← get_disk_health d
    if h == healthy
        then (do
          (elim parity [
            | none ↦ transfer d b p is_read
            | some q ↦ elim is_read [ true ↦ transfer d b p true | false ↦ write_raid45 q d b p ]
          ])
          pure 0)
        else pure minus_one

  unfoldable pub rw_level : RaidType → Superblock → Place → ℕ → Bool → M ℕ
  rw_level raid0 sb l = rw_unmirrored none l.disk l.block
  rw_level raid1 sb l = handle_rw_raid01 sb l.disk l.block
  rw_level raid0_1 sb l = handle_rw_raid01 sb l.disk l.block
  rw_level raid4 sb l = rw_unmirrored (some (sign_extend sb.parrity_disk)) l.disk l.block
  rw_level raid5 sb l = rw_unmirrored (some (raid5_parity sb.num_of_disks l.block)) l.disk l.block

  -- RAID1 divides by the blocks of a disk, the others by the number of disks.
  abbrev pub divisor : RaidType → Superblock → ℕ
  divisor raid1 sb = u64 (blocks_per_disk c + 2 ^ 64 - 1)
  divisor _ sb = sb.num_of_disks

  -- A level that no `case` names is passed over.
  unfoldable pub rw_block : Superblock → ℕ → ℕ → Bool → M ℕ
  rw_block sb b p is_read = elim (raid_type sb.raid_level) [
    | none ↦ pure 0
    | some t ↦
        if divisor t sb == 0 then fault else rw_level t sb (place c t sb.num_of_disks b) p is_read
  ]
