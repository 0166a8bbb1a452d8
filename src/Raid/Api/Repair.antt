-- ===== src/Raid/Api/Repair.antt =====
-- `raid_repair_disk`: counting the failed disks, recovering, and marking the disk.
pub mod Levels
use os2_project.Base.{
  ℕ, zero, suc, ◌+◌, ◌-◌, ◌%◌, ◌^◌, ◌≤◌, ◌<◌, ◌≡◌, ◌≢◌, ◌⊎◌, inl, inr, refl, ap, Bool, true, false,
  none, some, arith, ◌∙◌, sym, if◌then◌else◌, ltb, leb, ◌==◌, update, update_self, u64, minus_one,
  sign_extend, ne→==, eq→==, le→ltb, ℕ_discrete, bit_xor,
}
use os2_project.Raid.Types.{
  Block, Config, IsConfig, blocks_per_disk, RaidType, raid0, raid1, raid0_1, raid4, raid5,
  raid_type, healthy, unhealthy, recovery, uninitialized, Superblock, Machine,
}
use os2_project.Raid.Geometry.{data_disks, is_mirrored, has_parity}
use os2_project.Raid.Superblock.{decode}
use os2_project.Raid.Geometry.Places.{blocks_bounds}
use os2_project.Raid.Machine.Laws.{Reaches, read_block_lem}
use os2_project.Raid.Rw.{set_disk_status}
use os2_project.Raid.Rw.Laws.{get_disk_health_known, get_disk_health_outside}
use os2_project.Raid.Rw.Locks.{on_disk}
use os2_project.Raid.Recovery.{handle_recovery, recover_mirror, recover_parity}
use os2_project.Raid.Recovery.Sweep.{Swept, mirror_recovery_lem}
use os2_project.Raid.Recovery.Rebuild.{rebuilt, raid4_and_5_recovery_lem}
use os2_project.Raid.Volume.{Describes}
use os2_project.Raid.Api.{raid_repair_disk, repair, count_failed}

-- The machine with the status of one disk changed in memory.
abbrev pub marked : Machine → ℕ → ℕ → Machine
marked m r s =
    let dev = m.device in
    record m { device = record dev { disk_status = update dev.disk_status r s } }

-- The unhealthy disks from `i` on, of `n`.
unfoldable pub tally : (ℕ → ℕ) → ℕ → ℕ → ℕ
tally status zero i = 0
tally status (suc n) i = (if status i == unhealthy then 1 else 0) + tally status n (i + 1)

-- Disk `r` is the only one that may be unhealthy, and every status is known.
pub record Single (c : Config) (m : Machine) (r : ℕ) : Type 0 where
  pub low : 1 ≤ r
  pub high : r ≤ c.disks
  pub failed : m.device.disk_status r ≡ unhealthy
  pub others : (d : ℕ) → 1 ≤ d → d ≤ c.disks → d ≢ r → m.device.disk_status d ≡ healthy

module _ (c : Config) (ok : IsConfig c) (m : Machine) (r : ℕ) (s : Single c m r) where
  open s use {low, high, failed, others}

  pub tally_bound :
      (n i : ℕ)
      → 1 ≤ i
      → i + n ≤ c.disks + 1
      → (tally m.device.disk_status n i ≤ 1) × (r < i → tally m.device.disk_status n i ≡ 0)
  unfolding tally
  tally_bound zero i l h = (omega arith, λ _. refl)
  tally_bound (suc n) i l h =
      let (le, none_left) = tally_bound n (i + 1) (omega arith) (omega arith) in
      elim (ℕ_discrete i r) [
        | yes e ↦ let z = none_left (omega arith) in (ground (arith, z), λ lt. absurd (omega arith))
        | no ne ↦
            let good = others i l (omega arith) ne in
            (ground (arith, good, le), λ lt. ground (arith, good, none_left (omega arith)))
      ]

  known : (d : ℕ) → 1 ≤ d → d ≤ c.disks → m.device.disk_status d ≢ uninitialized
  known d l h = elim (ℕ_discrete d r) [
    | yes e ↦ rw e (ground (arith, failed))
    | no ne ↦ ground (arith, others d l h ne)
  ]

  count_failed_lem :
      (n i count : ℕ)
      → 1 ≤ i
      → i + n ≤ c.disks + 1
      → count_failed c n i count m ≡ some (count + tally m.device.disk_status n i, m)
  unfolding count_failed tally
  count_failed_lem zero i count l h = ap (λ x. some (x, m)) (omega arith)
  count_failed_lem (suc n) i count l h =
      let test = m.device.disk_status i == unhealthy in
      let count' = if test then count + 1 else count in
      let rest = tally m.device.disk_status n (i + 1) in
      let sum : count' + rest ≡ count + ((if test then 1 else 0) + rest) = ground arith in
      cc (
        get_disk_health_known c ok i m l (omega arith) (known i l (omega arith)),
        count_failed_lem n (i + 1) count' (omega arith) (omega arith),
        sum,
      )

  abbrev pub count : ℕ
  count = tally m.device.disk_status c.disks 1

  count_all : count_failed c c.disks 1 0 m ≡ some (count, m)
  count_all =
      count_failed_lem c.disks 1 0 (omega arith) (omega arith) ∙ ap (λ x. some (x, m)) (omega arith)

  -- The superblock that the recovery goes by: the copy on the disk that is repaired.
  abbrev pub found : Superblock
  found = let sb = decode (m.disk r 0) in record sb { disk_status = recovery }

  -- Where the recovery ends with 0 the disk is healthy again.
  pub repair_done :
      (m' : Machine)
      → handle_recovery c found count r (marked m r recovery) ≡ some (0, m')
      → raid_repair_disk c r m ≡ some (0, marked m' r healthy)
  unfolding raid_repair_disk repair set_disk_status
  repair_done m' run =
      let reach : Reaches c ok r 0 = record {
        first = low;
        last = high;
        before = omega (arith, blocks_bounds c ok);
      } in
      cc (
        le→ltb r 1 low,
        le→ltb c.disks r high,
        get_disk_health_known c ok r m low high (known r low high),
        count_all,
        read_block_lem c ok r 0 reach m,
        run,
      )

  -- Where it ends with -1 the disk stays marked as in recovery.
  pub repair_failed :
      (m' : Machine)
      → handle_recovery c found count r (marked m r recovery) ≡ some (minus_one, m')
      → raid_repair_disk c r m ≡ some (minus_one, m')
  unfolding raid_repair_disk repair set_disk_status
  repair_failed m' run =
      let reach : Reaches c ok r 0 = record {
        first = low;
        last = high;
        before = omega (arith, blocks_bounds c ok);
      } in
      cc (
        le→ltb r 1 low,
        le→ltb c.disks r high,
        get_disk_health_known c ok r m low high (known r low high),
        count_all,
        read_block_lem c ok r 0 reach m,
        run,
      )

  -- Where the recovery faults the call does not return.
  pub repair_faults :
      handle_recovery c found count r (marked m r recovery) ≡ none → raid_repair_disk c r m ≡ none
  unfolding raid_repair_disk repair set_disk_status
  repair_faults run =
      let reach : Reaches c ok r 0 = record {
        first = low;
        last = high;
        before = omega (arith, blocks_bounds c ok);
      } in
      cc (
        le→ltb r 1 low,
        le→ltb c.disks r high,
        get_disk_health_known c ok r m low high (known r low high),
        count_all,
        read_block_lem c ok r 0 reach m,
        run,
      )
