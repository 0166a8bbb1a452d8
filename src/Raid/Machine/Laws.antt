-- ===== src/Raid/Machine/Laws.antt =====
-- What each operation does where its arguments are in range.
use os2_project.Base.{ℕ, ◌-◌, ◌≤◌, ◌<◌, ◌≡◌, Bool, true, false, some, arith, u32, update}
use os2_project.Raid.Types.{Block, Config, IsConfig, blocks_per_disk, Machine, put}
use os2_project.Raid.Machine.{read_block, write_block, acquire_disk, release_disk, kalloc}

module _ (c : Config) (ok : IsConfig c) (d b : ℕ) where
  -- A block of a disk of the array.
  pub record Reaches : Type 0 where
    pub first : 1 ≤ d
    pub last : d ≤ c.disks
    pub before : b < blocks_per_disk c

  cast : Reaches → (u32 d ≡ d) × (u32 b ≡ b) × (b < c.capacity d)
  cast r = (omega arith, omega arith, omega (arith, ok.drives d r.first r.last))

  pub read_block_lem : Reaches → (m : Machine) → read_block c d b m ≡ some (m.disk d b, m)
  unfolding read_block
  read_block_lem r m = let (e, f, g) = cast r in rw (e, f) (ground arith)

  pub write_block_lem :
      Reaches
      → (x : Block) (m : Machine)
      → write_block c d b x m ≡ some (tt, record m { disk = put m.disk d b x })
  unfolding write_block
  write_block_lem r x m = let (e, f, g) = cast r in rw (e, f) (ground arith)

pub kalloc_lem :
    (m : Machine)
    → 0 < m.free_pages
    → kalloc m ≡ some (tt, record m { free_pages = m.free_pages - 1 })
unfolding kalloc
kalloc_lem m h = ground arith

-- The machine with the lock of one disk taken (`true`) or free.
abbrev pub set_lock : Machine → ℕ → Bool → Machine
set_lock m d held =
    let dev = m.device in
    record m { device = record dev { disk_locked = update dev.disk_locked d held } }

module _ (c : Config) (d : ℕ) (m : Machine) where
  pub acquire_disk_lem :
      d ≤ c.disks
      → m.device.disk_locked d ≡ false
      → acquire_disk c d m ≡ some (tt, set_lock m d true)
  unfolding acquire_disk
  acquire_disk_lem high free = ground (arith, free)

  pub release_disk_lem : d ≤ c.disks → release_disk c d m ≡ some (tt, set_lock m d false)
  unfolding release_disk
  release_disk_lem high = ground arith
