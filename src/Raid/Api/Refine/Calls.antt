-- ===== src/Raid/Api/Refine/Calls.antt =====
-- What one call of `raid_read_block` or `raid_write_block` does while the array serves its volume.
use os2_project.Base.{false, ℕ, ◌<◌, ◌≡◌, Bool, some, arith, minus_one, lt→ltb, le→ltb, eq→==}
use os2_project.Raid.Types.{Config, IsConfig, RaidType, Superblock, Machine}
use os2_project.Raid.Geometry.{volume}
use os2_project.Raid.Machine.{load_block, store_block}
use os2_project.Raid.Machine.Buffer.{Buffer, Buffer-mapped, user_address-Buffer}
use os2_project.Raid.Rw.{load_metadata}
use os2_project.Raid.Rw.Locks.{on_disk}
use os2_project.Raid.Volume.{view, written}
use os2_project.Raid.Volume.Access.{rw_block-read, rw_block-write}
use os2_project.Raid.Superblock.{is_raid_uninitialized}
use os2_project.Raid.Api.{raid_rw_block, raid_read_block, raid_write_block}
use os2_project.Raid.Api.Refine.{Serves}

module _ (c : Config) (ok : IsConfig c) (t : RaidType) (sb : Superblock) where
  -- A superblock in memory is used as it is.
  pub load_metadata_up :
      (m : Machine)
      → is_raid_uninitialized sb ≡ false
      → m.device.is_init ≡ 1
      → m.device.superblock ≡ some sb
      → load_metadata c m ≡ some (some sb, m)
  unfolding load_metadata
  load_metadata_up m filled on loaded = cc (eq→== m.device.is_init 1 on, loaded, filled)

  load_metadata_lem : (m : Machine) → Serves c t sb m → load_metadata c m ≡ some (some sb, m)
  load_metadata_lem m v = load_metadata_up m v.filled v.on v.loaded

  -- While the array serves its volume, a block number above `max_blknum` is refused with -1, and
  -- nothing changes.
  pub raid_rw_block_refused :
      (m : Machine) (b a : ℕ) (is_read : Bool)
      → Serves c t sb m
      → sb.max_blknum < b
      → raid_rw_block c b a is_read m ≡ some (minus_one, m)
  unfolding raid_rw_block
  raid_rw_block_refused m b a is_read v h = cc (load_metadata_lem m v, lt→ltb sb.max_blknum b h)

  -- A read copies the block to the caller's buffer.
  pub raid_read_block_lem :
      (m : Machine) (b a p : ℕ)
      → Buffer m.walk a p
      → Serves c t sb m
      → b < volume c t
      → raid_read_block c b a m
        ≡ some (0, record m { mem = store_block m.mem p (view c t m.disk b) })
  unfolding raid_read_block raid_rw_block
  raid_read_block_lem m b a p u v h = cc (
    user_address-Buffer m a p u,
    load_metadata_lem m v,
    le→ltb sb.max_blknum b (omega (arith, v.describes.max)),
    rw_block-read c ok sb b p m v.online (Buffer-mapped m.walk a p u) t v.describes h,
  )

  -- A write changes the disks as `written` says.
  pub raid_write_block_lem :
      (m : Machine) (b a p : ℕ)
      → Buffer m.walk a p
      → Serves c t sb m
      → b < volume c t
      → raid_write_block c b a m ≡ some (0, on_disk c (written c t m.disk b (load_block m.mem p)) m)
  unfolding raid_write_block raid_rw_block
  raid_write_block_lem m b a p u v h = cc (
    user_address-Buffer m a p u,
    load_metadata_lem m v,
    le→ltb sb.max_blknum b (omega (arith, v.describes.max)),
    rw_block-write c ok sb b p m v.online (Buffer-mapped m.walk a p u) t v.describes h,
  )
