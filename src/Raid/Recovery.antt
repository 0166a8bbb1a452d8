-- ===== src/Raid/Recovery.antt =====
-- kernel/raid.c: rebuilding a disk, by copying its mirror or from the other disks of a stripe.
pub mod Sweep
pub mod Rebuild
use os2_project.Base.{
  ℕ, zero, suc, ◌+◌, ◌-◌, ◌%◌, ◌^◌, Bool, true, false, ◌||◌, none, some, bit_xor, if◌then◌else◌,
  ltb, leb, ◌==◌, u64, minus_one, sign_extend,
}
use os2_project.Raid.Types.{
  Block, Config, blocks_per_disk, raid0, raid1, raid0_1, raid4, raid5, raid_type, healthy,
  Superblock,
}
use os2_project.Raid.Machine.{M, pure, ◌>>=◌, ◌>>◌, kalloc, kfree, read_block, write_block}
use os2_project.Raid.Rw.{get_disk_health}

-- for (k = i; k < i + n; k++) body
unfoldable pub for_range : ℕ → ℕ → (ℕ → M (Unit {0})) → M (Unit {0})
for_range zero i body = pure tt
for_range (suc n) i body = do body i; for_range n (i + 1) body

module _ (c : Config) where
  unfoldable pub copy_block : ℕ → ℕ → ℕ → M (Unit {0})
  copy_block from to b = do x ← read_block c from b; write_block c to b x

  -- `mirrorRecovery`, without the progress that it prints
  unfoldable pub mirror_recovery : ℕ → ℕ → M (Unit {0})
  mirror_recovery from to = for_range (blocks_per_disk c) 0 (copy_block from to)

  -- The disks from `data_disk + j` on, `count` of them: `next_block` is put into `acc` by `^`.
  unfoldable pub gather : ℕ → ℕ → ℕ → ℕ → Block → M Block
  gather data_disk b zero j acc = pure acc
  gather data_disk b (suc count) j acc = do
    kalloc
    next_block ← read_block c (u64 (data_disk + j) % (c.disks + 1)) b
    kfree
    gather data_disk b count (j + 1) (λ k. bit_xor (acc k) (next_block k))

  -- One round of the outer loop of `raid4_and_5_recovery`.
  unfoldable pub rebuild_block : ℕ → ℕ → M (Unit {0})
  rebuild_block recover_disk b = do
    let data_disk = u64 (recover_disk + 1) % (c.disks + 1)
    first ← read_block c data_disk b
    x ← gather data_disk b (c.disks - 1 - 1) 1 first
    write_block c recover_disk b x

  unfoldable pub raid4_and_5_recovery : ℕ → M (Unit {0})
  raid4_and_5_recovery recover_disk =
      for_range (blocks_per_disk c - 1) 1 (rebuild_block recover_disk)

  unfoldable pub recover_mirror : Superblock → ℕ → M ℕ
  recover_mirror sb disk_num = do
    let n = sb.num_of_disks
    let recover_disk = if leb n disk_num then u64 (disk_num + 2 ^ 64 - n) else u64 (disk_num + n)
    h ← get_disk_health c recover_disk
    if h == healthy then (do mirror_recovery recover_disk disk_num; pure 0) else pure minus_one

  unfoldable pub recover_parity : ℕ → M ℕ
  recover_parity disk_num = do raid4_and_5_recovery disk_num; pure 0

  unfoldable pub handle_recovery : Superblock → ℕ → ℕ → M ℕ
  handle_recovery sb failed_count disk_num = elim (raid_type sb.raid_level) [
    | none ↦ pure 0
    | some t ↦ elim t [
      | raid0 ↦ pure minus_one
      | raid1 ↦ recover_mirror sb disk_num
      | raid0_1 ↦ recover_mirror sb disk_num
      | raid4 ↦
          if ltb 1 failed_count || sign_extend sb.parrity_disk == disk_num
          then pure minus_one
          else recover_parity disk_num
      | raid5 ↦ if ltb 1 failed_count then pure minus_one else recover_parity disk_num
    ]
  ]
