-- ===== src/Raid/Rw/Locks.antt =====
-- The two disk locks that a write holds: taken in order, and given back.
use os2_project.Base.{
  ℕ, ◌≤◌, ◌≡◌, ◌≢◌, ap, ◌∙◌, true, false, some, arith, update, fun_ext, if◌then◌else◌, ltb,
}
use os2_project.Raid.Types.{Block, Config, Machine, RaidDevice}
use os2_project.Raid.Machine.Laws.{set_lock, acquire_disk_lem, release_disk_lem}
use os2_project.Raid.Rw.{acquire_pair, release_pair}

module _ (c : Config) where
  module _ (d e : ℕ) (m : Machine) where
    abbrev pub low : ℕ
    low = if ltb d e then d else e

    abbrev pub high : ℕ
    high = if ltb d e then e else d

    -- The machine while the locks of the two disks are held.
    abbrev pub holding : Machine
    holding = set_lock (set_lock m low true) high true

    -- The locks are those of two disks, and nobody holds one.
    pub record Free : Type 0 where
      pub d_in : d ≤ c.disks
      pub e_in : e ≤ c.disks
      pub apart : d ≢ e
      pub free : (i : ℕ) → m.device.disk_locked i ≡ false

    pub acquire_pair_lem : Free → acquire_pair c d e m ≡ some (tt, holding)
    unfolding acquire_pair
    acquire_pair_lem f =
        let second : (set_lock m low true).device.disk_locked high ≡ false =
          ground (arith, f.free high) in
        cc (
          acquire_disk_lem c low m (ground arith) (f.free low),
          acquire_disk_lem c high (set_lock m low true) (ground arith) second,
        )

    unlock_two :
        Free
        → update
            (update (update (update m.device.disk_locked low true) high true) high false)
            low
            false
          ≡ m.device.disk_locked
    unlock_two f = fun_ext λ i. ground (arith, f.free i)

    -- Releasing the two locks over any other state brings the device back.
    pub release_pair_lem :
        Free
        → (m' : Machine) → m'.device ≡ holding.device
        → release_pair c d e m' ≡ some (tt, record m' { device = m.device })
    unfolding release_pair
    release_pair_lem f m' same =
        release_both ∙ ap (λ dev. some (tt, record m' { device = dev })) back
      where
        freed : Machine
        freed = set_lock (set_lock m' high false) low false

        release_both : release_pair c d e m' ≡ some (tt, freed)
        release_both = cc (
          release_disk_lem c high m' (ground arith),
          release_disk_lem c low (set_lock m' high false) (ground arith),
        )

        back : freed.device ≡ m.device
        back =
            ap
              (λ (dev : RaidDevice). record dev {
                disk_locked = update (update dev.disk_locked high false) low false;
              })
              same
            ∙ ap (λ l. record (m.device) { disk_locked = l }) (unlock_two f)

  -- The machine when only blocks of the disks have changed.
  abbrev pub on_disk : (ℕ → ℕ → Block) → Machine → Machine
  on_disk disk m = record m { disk = disk }
