-- ===== src/Raid/Api/Info.antt =====
-- `raid_system_info`: what it tells of an array, with some of its disks failed.
use os2_project.Base.{
  ℕ, zero, suc, ◌+◌, ◌≤◌, ◌<◌, ◌≡◌, ◌≢◌, refl, ap, ◌∙◌, some, false, arith, minus_one, ne→==,
  ℕ_discrete,
}
use os2_project.Raid.Types.{Config, IsConfig, RaidType, healthy, uninitialized, Superblock, Machine}
use os2_project.Raid.Superblock.{is_raid_uninitialized}
use os2_project.Raid.Rw.Laws.{get_disk_health_known}
use os2_project.Raid.Api.{info_from, raid_system_info, report}
use os2_project.Raid.Api.Refine.Calls.{load_metadata_up}

-- A superblock is in memory, and the status of every disk has been looked up.
pub record Loaded (c : Config) (sb : Superblock) (m : Machine) : Type 0 where
  pub filled : is_raid_uninitialized sb ≡ false
  pub on : m.device.is_init ≡ 1
  pub loaded : m.device.superblock ≡ some sb
  pub known : (d : ℕ) → 1 ≤ d → d ≤ c.disks → m.device.disk_status d ≢ uninitialized

module _ (c : Config) (ok : IsConfig c) (t : RaidType) (sb : Superblock) (m : Machine)
    (u : Loaded c sb m) (blkn blks diskn : ℕ) where
  info_from-healthy :
      (n i d : ℕ)
      → 1 ≤ i
      → i + n ≤ c.disks + 1
      → i ≤ d
      → d < i + n
      → m.device.disk_status d ≡ healthy
      → info_from c n i blkn blks diskn m ≡ report c sb blkn blks diskn m
  unfolding info_from
  info_from-healthy zero i d low high first last good = absurd (omega arith)
  info_from-healthy (suc n) i d low high first last good =
      let load = load_metadata_up c ok t sb m u.filled u.on u.loaded in
      let health = get_disk_health_known c ok i m low (omega arith) (u.known i low (omega arith)) in
      elim (ℕ_discrete (m.device.disk_status i) healthy) [
        | yes e ↦ cc (load, health)
        | no ne ↦
            let differ : i ≢ d = λ same. ne (ap m.device.disk_status same ∙ good) in
            cc (
              load,
              health,
              ne→== (m.device.disk_status i) healthy ne,
              info_from-healthy n (i + 1) d (omega arith) (omega arith) (omega arith) (omega arith)
                  good,
            )
      ]

  info_from-failed :
      (n i : ℕ)
      → 1 ≤ i
      → i + n ≤ c.disks + 1
      → ((d : ℕ) → 1 ≤ d → d ≤ c.disks → m.device.disk_status d ≢ healthy)
      → info_from c n i blkn blks diskn m ≡ some (minus_one, m)
  unfolding info_from
  info_from-failed zero i low high dead = refl
  info_from-failed (suc n) i low high dead = cc (
    load_metadata_up c ok t sb m u.filled u.on u.loaded,
    get_disk_health_known c ok i m low (omega arith) (u.known i low (omega arith)),
    ne→== (m.device.disk_status i) healthy (dead i low (omega arith)),
    info_from-failed n (i + 1) (omega arith) (omega arith) dead,
  )

  -- With a superblock in memory and every status known, if some disk is healthy, whichever others
  -- have failed, `raid_system_info` returns 0 and stores the largest block number, the block size
  -- and the number of disks at the three addresses.
  raid_system_info-healthy :
      (d : ℕ)
      → 1 ≤ d
      → d ≤ c.disks
      → m.device.disk_status d ≡ healthy
      → raid_system_info c blkn blks diskn m ≡ report c sb blkn blks diskn m
  unfolding raid_system_info
  raid_system_info-healthy d low high good =
      info_from-healthy c.disks 1 d (omega arith) (omega arith) low (omega arith) good

  -- With a superblock in memory and every status known, if no disk is healthy, `raid_system_info`
  -- returns -1, and nothing changes.
  pub raid_system_info-failed :
      ((d : ℕ) → 1 ≤ d → d ≤ c.disks → m.device.disk_status d ≢ healthy)
      → raid_system_info c blkn blks diskn m ≡ some (minus_one, m)
  unfolding raid_system_info
  raid_system_info-failed dead = info_from-failed c.disks 1 (omega arith) (omega arith) dead
