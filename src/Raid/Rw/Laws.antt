-- ===== src/Raid/Rw/Laws.antt =====
-- Reading and writing a place of the array while its disks are known, step by step.
use os2_project.Base.{
  ℕ, ◌^◌, ◌≤◌, ◌<◌, ◌≡◌, ◌≢◌, ◌⊎◌, true, false, some, arith, u32, le→ltb, ne→==, minus_one,
}
use os2_project.Raid.Types.{Config, IsConfig, uninitialized, Machine, put}
use os2_project.Raid.Machine.{load_block, store_block}
use os2_project.Raid.Machine.Laws.{Reaches, read_block_lem, write_block_lem}
use os2_project.Raid.Rw.{get_disk_health, transfer}

module _ (c : Config) (ok : IsConfig c) where
  -- The status of a disk is at hand once it has been looked up.
  pub get_disk_health_known :
      (d : ℕ) (m : Machine)
      → 1 ≤ d
      → d ≤ c.disks
      → m.device.disk_status d ≢ uninitialized
      → get_disk_health c d m ≡ some (m.device.disk_status d, m)
  unfolding get_disk_health
  get_disk_health_known d m low high known =
      let e : u32 d ≡ d = omega (arith, ok.few) in
      rw (
        e,
        le→ltb d 1 low,
        le→ltb c.disks d high,
        ne→== (m.device.disk_status d) uninitialized known,
      )

  -- There is no such disk.
  pub get_disk_health_outside :
      (d : ℕ) (m : Machine)
      → d < 2 ^ 32
      → (d < 1) ⊎ (c.disks < d)
      → get_disk_health c d m ≡ some (minus_one, m)
  unfolding get_disk_health
  get_disk_health_outside d m fits out = let e : u32 d ≡ d = omega arith in rw e (ground arith)

  pub transfer_read :
      (d b p : ℕ) (m : Machine)
      → Reaches c ok d b
      → 4096 ≤ p
      → transfer c d b p true m ≡ some (tt, record m { mem = store_block m.mem p (m.disk d b) })
  unfolding transfer
  transfer_read d b p m r at = cc (read_block_lem c ok d b r m, le→ltb p 4096 at)

  pub transfer_write :
      (d b p : ℕ) (m : Machine)
      → Reaches c ok d b
      → 4096 ≤ p
      → transfer c d b p false m
        ≡ some (tt, record m { disk = put m.disk d b (load_block m.mem p) })
  unfolding transfer
  transfer_write d b p m r at =
      rw (le→ltb p 4096 at) (write_block_lem c ok d b r (load_block m.mem p) m)
