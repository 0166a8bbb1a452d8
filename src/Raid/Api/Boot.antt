-- ===== src/Raid/Api/Boot.antt =====
-- The calls while nothing is in memory, as after a boot.
use os2_project.Base.{
  ℕ, ◌+◌, ◌-◌, ◌<◌, ◌≡◌, Bool, true, false, none, some, arith, minus_one, minus_two,
}
use os2_project.Raid.Types.{Config, IsConfig, Machine}
use os2_project.Raid.Geometry.Places.{blocks_bounds}
use os2_project.Raid.Superblock.{decode, is_raid_uninitialized}
use os2_project.Raid.Machine.{acquire_metadata, release_metadata, kfree}
use os2_project.Raid.Machine.Laws.{Reaches, read_block_lem, kalloc_lem}
use os2_project.Raid.Rw.{load_metadata, load_slowly, load_from_disk}
use os2_project.Raid.Api.{raid_rw_block}

-- Nothing is in memory, as `init_raid_device` leaves it.
pub record Unloaded (m : Machine) : Type 0 where
  pub off : m.device.is_init ≡ minus_one
  pub nothing : m.device.superblock ≡ none
  pub idle : m.device.metadata_locked ≡ false
  pub spare : 0 < m.free_pages

module _ (c : Config) (ok : IsConfig c) (m : Machine) (u : Unloaded m) where
  open u use {off, nothing, idle, spare}

  reach : Reaches c ok 1 0
  reach = record {
    first = omega arith;
    last = omega (arith, ok.enough);
    before = omega (arith, blocks_bounds c ok);
  }

  from_disk_wiped :
      is_raid_uninitialized (decode (m.disk 1 0)) ≡ true → load_from_disk c m ≡ some (false, m)
  unfolding load_from_disk kfree
  from_disk_wiped wiped =
      let back : m.free_pages - 1 + 1 ≡ m.free_pages = omega arith in
      cc (
        kalloc_lem m spare,
        read_block_lem c ok 1 0 reach (record m { free_pages = m.free_pages - 1 }),
        wiped,
        back,
      )

  -- With nothing in memory, a page to be had and an empty superblock on disk 1, every read and
  -- write returns -2, and nothing changes.
  raid_rw_block_unformatted :
      (b a : ℕ) (is_read : Bool)
      → is_raid_uninitialized (decode (m.disk 1 0)) ≡ true
      → raid_rw_block c b a is_read m ≡ some (minus_two, m)
  unfolding raid_rw_block load_metadata load_slowly acquire_metadata release_metadata
  raid_rw_block_unformatted b a is_read wiped = cc (off, nothing, idle, from_disk_wiped wiped)
