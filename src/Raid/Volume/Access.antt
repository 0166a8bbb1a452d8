-- ===== src/Raid/Volume/Access.antt =====
-- What `rw_block` does to a block of the volume, at every level.
use os2_project.Base.{
  ℕ, ◌+◌, ◌≤◌, ◌<◌, ◌≡◌, ◌≢◌, refl, ap, Bool, true, false, none, some, arith, ◌∙◌, u64, ne→==,
}
use os2_project.Raid.Types.{
  Config, IsConfig, blocks_per_disk, RaidType, raid0, raid1, raid0_1, raid4, raid5, healthy,
  uninitialized, Superblock, Machine, Place, put,
}
use os2_project.Raid.Machine.{load_block, store_block}
use os2_project.Raid.Machine.Laws.{Reaches}
use os2_project.Raid.Geometry.{
  data_disks, volume, place, place_of, parity_disk, is_mirrored, has_parity, raid5_parity,
}
use os2_project.Raid.Geometry.Places.{
  Within, data_disks_bounds, blocks_bounds, place_bounds, mirror_bounds, parity_bounds,
}
use os2_project.Raid.Rw.{rw_level, rw_block, handle_rw_raid01, rw_unmirrored, divisor}
use os2_project.Raid.Rw.Locks.{Free, on_disk}
use os2_project.Raid.Rw.Mirror.{read_raid01_lem, write_raid01_lem}
use os2_project.Raid.Rw.Parity.{
  parity_write, rw_unmirrored_read, rw_unmirrored_plain, rw_unmirrored_parity,
}
use os2_project.Raid.Volume.{Describes, Online, view, written}

-- No level divides by zero.
pub divisor-ne-zero :
    (c : Config) (ok : IsConfig c) (sb : Superblock) (t : RaidType)
    → Describes c t sb
    → divisor c t sb ≢ 0
divisor-ne-zero c ok sb raid0 i = omega (arith, i.disks, ok.enough)
divisor-ne-zero c ok sb raid1 i = omega (arith, blocks_bounds c ok)
divisor-ne-zero c ok sb raid0_1 i = omega (arith, i.disks, ok.enough)
divisor-ne-zero c ok sb raid4 i = omega (arith, i.disks, ok.enough)
divisor-ne-zero c ok sb raid5 i = omega (arith, i.disks, ok.enough)

module _ (c : Config) (ok : IsConfig c) (sb : Superblock) (b p : ℕ) (m : Machine) where
  module _ (t : RaidType) (i : Describes c t sb) (on : Online c m) (lt : b < volume c t) where
    abbrev pub l : Place
    l = place_of c t b

    within : Within c.disks (blocks_per_disk c) l
    within = place_bounds c ok t b lt

    pub reach : Reaches c ok l.disk l.block
    reach = record { first = within.first; last = within.last; before = within.before }

    good : m.device.disk_status l.disk ≡ healthy
    good = on.good l.disk within.first within.last

    pub mirror_reach : is_mirrored t ≡ true → Reaches c ok (l.disk + data_disks c t) l.block
    mirror_reach e = record {
      first = omega (arith, within.first);
      last = (mirror_bounds c ok t b e lt).1;
      before = within.before;
    }

    parity_reach : has_parity t ≡ true → Reaches c ok (parity_disk c t l.block) l.block
    parity_reach e =
        let (low, high, other) = parity_bounds c ok t b e lt in
        record { first = low; last = high; before = within.before }

    rw_block_step :
        (is_read : Bool)
        → rw_block c sb b p is_read m ≡ rw_level c t sb (place c t (data_disks c t) b) p is_read m
    unfolding rw_block
    rw_block_step is_read =
        cc (i.level, i.disks, ne→== (divisor c t sb) 0 (divisor-ne-zero c ok sb t i))

    mirror_word : u64 (l.disk + data_disks c t) ≡ l.disk + data_disks c t
    mirror_word = omega (arith, within.last, data_disks_bounds c ok t, ok.few)

    -- The mirror that `handle_rw_raid01` computes.
    pub mirror_disk : u64 (l.disk + sb.num_of_disks) ≡ l.disk + data_disks c t
    mirror_disk = ap (λ n. u64 (l.disk + n)) i.disks ∙ mirror_word

    pub known : (d : ℕ) → 1 ≤ d → d ≤ c.disks → m.device.disk_status d ≢ uninitialized
    known d low high = ground (arith, on.good d low high)

    parity_written :
        (q : ℕ)
        → 4096 ≤ p
        → has_parity t ≡ true
        → q ≡ parity_disk c t l.block
        → rw_unmirrored c (some q) l.disk l.block p false m
          ≡ some (
            0,
            on_disk c
                (parity_write (parity_disk c t l.block) l.disk l.block m.disk (load_block m.mem p))
                m,
          )
    parity_written q at e same =
        let (low, high, other) = parity_bounds c ok t b e lt in
        rw same (
          rw_unmirrored_parity c ok l.disk l.block p reach m good at (parity_disk c t l.block)
            (parity_reach e)
            (record { d_in = high; e_in = within.last; apart = other; free = on.free }) on.spare)

    module _ (e : is_mirrored t ≡ true) (at : 4096 ≤ p) where
      pair : Free c l.disk (l.disk + data_disks c t) m
      pair = record {
        d_in = within.last;
        e_in = (mirror_bounds c ok t b e lt).1;
        apart = omega (arith, (data_disks_bounds c ok t).0);
        free = on.free;
      }

      mirrored_read :
          handle_rw_raid01 c sb l.disk l.block p true m
          ≡ some (0, record m { mem = store_block m.mem p (view c t m.disk b) })
      unfolding handle_rw_raid01
      mirrored_read = rw mirror_disk (
          ground (
            arith,
            good,
            read_raid01_lem c ok l.disk (l.disk + data_disks c t) l.block p reach (mirror_reach e)
                at m (known l.disk within.first within.last)
                (known _ (mirror_reach e).first (mirror_reach e).last),
          ))

      mirrored_written :
          handle_rw_raid01 c sb l.disk l.block p false m
          ≡ some (
            0,
            on_disk c
                (put
                  (put m.disk l.disk l.block (load_block m.mem p))
                  (l.disk + data_disks c t)
                  l.block
                  (load_block m.mem p))
                m,
          )
      unfolding handle_rw_raid01
      mirrored_written = rw mirror_disk (
          ground (
            arith,
            good,
            write_raid01_lem c ok l.disk (l.disk + data_disks c t) l.block p reach (mirror_reach e)
                at m pair (known l.disk within.first within.last)
                (known _ (mirror_reach e).first (mirror_reach e).last),
          ))

  module _ (on : Online c m) (at : 4096 ≤ p) where
    level_read :
        (t : RaidType) (i : Describes c t sb)
        → b < volume c t
        → rw_level c t sb (place_of c t b) p true m
          ≡ some (0, record m { mem = store_block m.mem p (view c t m.disk b) })
    unfolding rw_level
    level_read raid0 i lt =
        rw_unmirrored_read c ok _ _ p (reach raid0 i on lt) m (good raid0 i on lt) at none
    level_read raid1 i lt = mirrored_read raid1 i on lt refl at
    level_read raid0_1 i lt = mirrored_read raid0_1 i on lt refl at
    level_read raid4 i lt =
        rw_unmirrored_read c ok _ _ p (reach raid4 i on lt) m (good raid4 i on lt) at _
    level_read raid5 i lt =
        rw_unmirrored_read c ok _ _ p (reach raid5 i on lt) m (good raid5 i on lt) at _

    level_write :
        (t : RaidType) (i : Describes c t sb)
        → b < volume c t
        → rw_level c t sb (place_of c t b) p false m
          ≡ some (0, on_disk c (written c t m.disk b (load_block m.mem p)) m)
    unfolding rw_level
    level_write raid0 i lt =
        rw_unmirrored_plain c ok _ _ p (reach raid0 i on lt) m (good raid0 i on lt) at
    level_write raid1 i lt = mirrored_written raid1 i on lt refl at
    level_write raid0_1 i lt = mirrored_written raid0_1 i on lt refl at
    level_write raid4 i lt = parity_written raid4 i on lt _ at refl (i.parity refl)
    level_write raid5 i lt =
        parity_written raid5 i on lt _ at refl
          (ap (λ n. raid5_parity n (place_of c raid5 b).block) i.disks)

    -- While all disks are healthy and unlocked, and a page can be had, reading a block of the
    -- volume returns 0, copies its contents to memory, and changes nothing else.
    pub rw_block-read :
        (t : RaidType) (i : Describes c t sb)
        → b < volume c t
        → rw_block c sb b p true m
          ≡ some (0, record m { mem = store_block m.mem p (view c t m.disk b) })
    rw_block-read t i lt = rw_block_step t i on lt true ∙ level_read t i lt

    -- While all disks are healthy and unlocked, and a page can be had, writing a block of the
    -- volume returns 0, changes the disks as `written` says, and nothing else.
    pub rw_block-write :
        (t : RaidType) (i : Describes c t sb)
        → b < volume c t
        → rw_block c sb b p false m
          ≡ some (0, on_disk c (written c t m.disk b (load_block m.mem p)) m)
    rw_block-write t i lt = rw_block_step t i on lt false ∙ level_write t i lt
