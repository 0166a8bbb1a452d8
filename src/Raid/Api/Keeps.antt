-- ===== src/Raid/Api/Keeps.antt =====
-- `raid_write_block` and what the levels have beside the data: mirrors and parity.
use os2_project.Base.{ℕ, ◌<◌, ◌≡◌, true, some}
use os2_project.Raid.Types.{Config, IsConfig, RaidType, Superblock, Machine}
use os2_project.Raid.Geometry.{volume, has_parity, is_mirrored}
use os2_project.Raid.Machine.{load_block}
use os2_project.Raid.Machine.Buffer.{Buffer}
use os2_project.Raid.Rw.Locks.{on_disk}
use os2_project.Raid.Volume.{written}
use os2_project.Raid.Volume.Redundancy.{Balanced, Mirrored, written-Balanced, written-Mirrored}
use os2_project.Raid.Api.{raid_write_block}
use os2_project.Raid.Api.Refine.{Serves}
use os2_project.Raid.Api.Refine.Calls.{raid_write_block_lem}

module _ (c : Config) (ok : IsConfig c) (t : RaidType) (sb : Superblock) (m : Machine) (b a p : ℕ)
    (u : Buffer m.walk a p) (v : Serves c t sb m) (lt : b < volume c t) where
  -- The machine after the write.
  abbrev after : Machine
  after = on_disk c (written c t m.disk b (load_block m.mem p)) m

  -- While an array with parity serves its volume and every stripe adds up to nothing, a write of a
  -- block within the volume, from a buffer within a page that the process has, returns 0, and every
  -- stripe still adds up to nothing.
  pub raid_write_block-Balanced :
      has_parity t ≡ true
      → Balanced c m.disk
      → (m' : Machine) × (raid_write_block c b a m ≡ some (0, m')) × Balanced c m'.disk
  raid_write_block-Balanced e all = (
    after,
    raid_write_block_lem c ok t sb m b a p u v lt,
    written-Balanced c ok m.disk b (load_block m.mem p) t e lt all,
  )

  -- While a mirrored array serves its volume and every data disk equals its mirror, superblocks
  -- aside, a write of a block within the volume, from a buffer within a page that the process has,
  -- returns 0, and they are still equal.
  pub raid_write_block-Mirrored :
      is_mirrored t ≡ true
      → Mirrored c t m.disk
      → (m' : Machine) × (raid_write_block c b a m ≡ some (0, m')) × Mirrored c t m'.disk
  raid_write_block-Mirrored e all = (
    after,
    raid_write_block_lem c ok t sb m b a p u v lt,
    written-Mirrored c ok m.disk b (load_block m.mem p) t e lt all,
  )
