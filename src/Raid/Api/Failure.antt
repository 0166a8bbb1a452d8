-- ===== src/Raid/Api/Failure.antt =====
-- `raid_fail_disk`, and what becomes of the blocks of a disk that is marked as failed.
use os2_project.Base.{
  ℕ, ◌+◌, ◌≤◌, ◌<◌, ◌≡◌, refl, ap, Bool, true, false, ◌||◌, some, arith, ◌∙◌, if◌then◌else◌, ltb,
  ne→==, le→ltb, minus_one, update_self, update-ne, Bool-cases, inl, inr,
}
use os2_project.Raid.Types.{
  Config, IsConfig, RaidType, raid0, raid1, raid0_1, raid4, raid5, healthy, unhealthy, Superblock,
  Machine, Place,
}
use os2_project.Raid.Geometry.{data_disks, volume, place_of, is_mirrored}
use os2_project.Raid.Geometry.Places.{blocks_bounds, place_bounds, mirror_bounds, data_disks_bounds}
use os2_project.Raid.Machine.{store_block, user_address}
use os2_project.Raid.Machine.Buffer.{Buffer, Buffer-mapped, user_address-Buffer}
use os2_project.Raid.Machine.Laws.{Reaches, read_block_lem}
use os2_project.Raid.Rw.{rw_block, rw_level, handle_rw_raid01, set_disk_status, divisor}
use os2_project.Raid.Rw.Mirror.{read_raid01_lem}
use os2_project.Raid.Rw.Parity.{rw_unmirrored_dead}
use os2_project.Raid.Volume.{view}
use os2_project.Raid.Volume.Access.{divisor-ne-zero, reach, mirror_reach, mirror_disk}
use os2_project.Raid.Volume.Redundancy.{Mirrored}
use os2_project.Raid.Api.{raid_rw_block, raid_read_block, raid_fail_disk}
use os2_project.Raid.Api.Refine.{Serves}
use os2_project.Raid.Api.Refine.Calls.{load_metadata_up}
use os2_project.Raid.Api.Repair.{marked}

-- `raid_fail_disk` refuses a number that is no disk of the array with -1, and else returns 0 and
-- marks the disk in memory alone: no block of any disk changes.
pub raid_fail_disk_lem :
    (c : Config) (ok : IsConfig c) (d : ℕ) (m : Machine)
    → raid_fail_disk c d m
      ≡ some (if ltb d 1 || ltb c.disks d then (minus_one, m) else (0, marked m d unhealthy))
unfolding raid_fail_disk set_disk_status
raid_fail_disk_lem c ok d m = elim (Bool-cases (ltb d 1 || ltb c.disks d)) [
  | inl out ↦ cc out
  | inr inside ↦
      let low : 1 ≤ d = ground arith in
      let high : d ≤ c.disks = ground arith in
      let r : Reaches c ok d 0 = record {
        first = low;
        last = high;
        before = omega (arith, blocks_bounds c ok);
      } in
      cc (inside, read_block_lem c ok d 0 r m)
]

-- RAID0, RAID4 and RAID5 have no second copy of a block.
lost_level :
    (c : Config) (ok : IsConfig c) (t : RaidType) (sb : Superblock) (l : Place) (p : ℕ)
    (is_read : Bool) (m : Machine)
    → is_mirrored t ≡ false
    → Reaches c ok l.disk l.block
    → m.device.disk_status l.disk ≡ unhealthy
    → rw_level c t sb l p is_read m ≡ some (minus_one, m)
unfolding rw_level
lost_level c ok raid0 sb l p is_read m e r dead =
    rw_unmirrored_dead c ok l.disk l.block p r m _ is_read (omega (arith, dead))
      (omega (arith, dead))
lost_level c ok raid1 sb l p is_read m e r dead = absurd (ground arith)
lost_level c ok raid0_1 sb l p is_read m e r dead = absurd (ground arith)
lost_level c ok raid4 sb l p is_read m e r dead =
    rw_unmirrored_dead c ok l.disk l.block p r m _ is_read (omega (arith, dead))
      (omega (arith, dead))
lost_level c ok raid5 sb l p is_read m e r dead =
    rw_unmirrored_dead c ok l.disk l.block p r m _ is_read (omega (arith, dead))
      (omega (arith, dead))

mirrored_level :
    (c : Config) (t : RaidType) (sb : Superblock) (l : Place) (p : ℕ) (is_read : Bool)
    → is_mirrored t ≡ true
    → rw_level c t sb l p is_read ≡ handle_rw_raid01 c sb l.disk l.block p is_read
unfolding rw_level
mirrored_level c raid0 sb l p is_read e = absurd (ground arith)
mirrored_level c raid1 sb l p is_read e = refl
mirrored_level c raid0_1 sb l p is_read e = refl
mirrored_level c raid4 sb l p is_read e = absurd (ground arith)
mirrored_level c raid5 sb l p is_read e = absurd (ground arith)

module _ (c : Config) (ok : IsConfig c) (t : RaidType) (sb : Superblock) (m : Machine) (b a : ℕ)
    (v : Serves c t sb m) (lt : b < volume c t) where
  -- The machine after the disk of block `b` has failed.
  abbrev failed : Machine
  failed = marked m (place_of c t b).disk unhealthy

  enter :
      (is_read : Bool)
      → raid_rw_block c b a is_read failed
        ≡ rw_level c t sb (place_of c t b) (user_address failed a) is_read failed
  unfolding raid_rw_block rw_block
  enter is_read = cc (
    load_metadata_up c ok t sb failed v.filled v.on v.loaded,
    le→ltb sb.max_blknum b (omega (arith, v.describes.max)),
    v.describes.level,
    v.describes.disks,
    ne→== (divisor c t sb) 0 (divisor-ne-zero c ok sb t v.describes),
  )

  at_disk : failed.device.disk_status (place_of c t b).disk ≡ unhealthy
  at_disk = update_self m.device.disk_status (place_of c t b).disk unhealthy

  -- After the disk of a block has failed, a level without mirrors returns -1 for each read and
  -- write of it, and changes nothing.
  pub raid_rw_block_lost :
      (is_read : Bool)
      → is_mirrored t ≡ false
      → raid_rw_block c b a is_read failed ≡ some (minus_one, failed)
  raid_rw_block_lost is_read e =
      enter is_read
      ∙ lost_level c ok t sb (place_of c t b) (user_address failed a) is_read failed e
          (reach c ok sb b a m t v.describes v.online lt) at_disk

  -- After the disk of a block has failed, a mirrored level whose mirrors are equal still reads the
  -- block as it was, to any buffer within a page that the process has.
  pub raid_read_block_survives :
      (p : ℕ)
      → Buffer m.walk a p
      → is_mirrored t ≡ true
      → Mirrored c t m.disk
      → raid_read_block c b a failed
        ≡ some (0, record failed { mem = store_block m.mem p (view c t m.disk b) })
  unfolding raid_read_block handle_rw_raid01
  raid_read_block_survives p u e all =
      let l = place_of c t b in
      let n = data_disks c t in
      let r = reach c ok sb b a m t v.describes v.online lt in
      let r' = mirror_reach c ok sb b a m t v.describes v.online lt e in
      let pos = (data_disks_bounds c ok t).0 in
      let good : failed.device.disk_status (l.disk + n) ≡ healthy =
        update-ne m.device.disk_status l.disk (l.disk + n) unhealthy (omega arith)
        ∙ v.online.good (l.disk + n) r'.first r'.last in
      let same : m.disk (l.disk + n) l.block ≡ m.disk l.disk l.block =
        all l.disk l.block r.first (mirror_bounds c ok t b e lt).0
          (place_bounds c ok t b lt).behind in
      enter true
      ∙ ap (λ q. rw_level c t sb l q true failed) (user_address-Buffer failed a p u)
      ∙ ap (λ f. f failed) (mirrored_level c t sb l p true e)
      ∙ rw (mirror_disk c ok sb b a m t v.describes v.online lt) (
          ground (
            arith,
            good,
            at_disk,
            same,
            read_raid01_lem c ok l.disk (l.disk + n) l.block p r r' (Buffer-mapped m.walk a p u)
                failed (ground (arith, at_disk)) (ground (arith, good)),
          ))
