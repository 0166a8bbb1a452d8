-- ===== src/Raid/Api/Init.antt =====
-- What `raid_system_init` leaves behind, and what `raid_system_destroy` does.
use os2_project.Base.{
  ℕ, ◌+◌, ◌-◌, ◌≤◌, ◌<◌, ◌≡◌, ◌≢◌, refl, ap, none, some, arith, ◌∙◌, ne→==, minus_one,
}
use os2_project.Raid.Types.{Config, IsConfig, RaidType, code, Superblock, Machine}
use os2_project.Raid.Superblock.{encode, decode, decode-encode}
use os2_project.Raid.Machine.Laws.{kalloc_lem}
use os2_project.Raid.Machine.{kfree}
use os2_project.Raid.Api.{raid_system_init, raid_system_destroy, commit_metadata}
use os2_project.Raid.Api.Stamp.{stamp}
use os2_project.Raid.Api.Format.{IsFormat, metadata-IsFormat, IsFormat-Fits, raid_type-code}

module _ (c : Config) (ok : IsConfig c) (m : Machine) where
  -- The state after an array of level `t` has been set up.
  pub record SetUp (t : RaidType) (sb : Superblock) (m' : Machine) : Type 0 where
    pub format : IsFormat c ok t sb
    pub loaded : m'.device.superblock ≡ some sb
    pub on : m'.device.is_init ≡ 1
    pub status : m'.device.disk_status ≡ m.device.disk_status
    pub locks : m'.device.disk_locked ≡ m.device.disk_locked
    pub stored : (d : ℕ) → 1 ≤ d → d ≤ c.disks → decode (m'.disk d 0) ≡ sb
    pub kept : (d b : ℕ) → b ≢ 0 → m'.disk d b ≡ m.disk d b
    pub boot : m'.disk 0 0 ≡ m.disk 0 0
    pub mem : m'.mem ≡ m.mem
    pub page : m'.free_pages ≡ m.free_pages - 1

  -- Where a page can be had, setting up an array of any level returns 0 with three disks or more:
  -- every disk gets the superblock of the level, nothing else on the disks changes, and the page of
  -- the superblock stays allocated.
  pub raid_system_init_lem :
      (t : RaidType)
      → 0 < m.free_pages
      → (sb : Superblock) × (m' : Machine) × (raid_system_init c (code t) m ≡ some (0, m'))
        × SetUp t sb m'
  unfolding raid_system_init commit_metadata
  raid_system_init_lem t spare =
      let (sb, made, f) = metadata-IsFormat c ok t in
      let taken : Machine = record m { free_pages = m.free_pages - 1 } in
      let (disk', run, s) =
        stamp c ok (encode sb) taken c.disks 1 m.disk (omega arith) (omega arith) in
      let dev = m.device in
      let m' : Machine = record taken {
        device = record dev { superblock = some sb; is_init = 1 };
        disk = disk';
      } in
      (
        sb,
        m',
        cc (kalloc_lem m spare, raid_type-code c ok t, made, run),
        record {
          format = f;
          loaded = refl;
          on = refl;
          status = refl;
          locks = refl;
          stored = λ d low high.
              ap decode (s.done d low (omega arith)) ∙ decode-encode sb (IsFormat-Fits c ok t sb f);
          kept = s.other;
          boot = s.below 0 (omega arith);
          mem = refl;
          page = refl;
        },
      )

  -- Taking an array down wipes the superblocks, gives the page back and forgets the array; the data
  -- blocks stay.
  pub record TornDown (m' : Machine) : Type 0 where
    pub wiped : (d i : ℕ) → 1 ≤ d → d ≤ c.disks → m'.disk d 0 i ≡ 0
    pub kept : (d b : ℕ) → b ≢ 0 → m'.disk d b ≡ m.disk d b
    pub unloaded : m'.device.superblock ≡ none
    pub idle : m'.device.metadata_locked ≡ m.device.metadata_locked
    pub off : m'.device.is_init ≡ minus_one
    pub page : m'.free_pages ≡ m.free_pages + 1

  -- Taking down an array whose superblock is in memory returns 0, wipes the superblocks, gives the
  -- page back and forgets the array; the data blocks stay.
  raid_system_destroy_lem :
      (sb : Superblock)
      → m.device.superblock ≡ some sb
      → m.device.is_init ≢ minus_one
      → (m' : Machine) × (raid_system_destroy c m ≡ some (0, m')) × TornDown m'
  unfolding raid_system_destroy kfree
  raid_system_destroy_lem sb loaded on =
      let (disk', run, s) = stamp c ok (λ i. 0) m c.disks 1 m.disk (omega arith) (omega arith) in
      let dev = m.device in
      let m' : Machine = record m {
        device = record dev { superblock = none; is_init = minus_one };
        disk = disk';
        free_pages = m.free_pages + 1;
      } in
      (
        m',
        cc (run, loaded, ne→== m.device.is_init minus_one on),
        record {
          wiped = λ d i low high. ap (λ x. x i) (s.done d low (omega arith));
          kept = s.other;
          unloaded = refl;
          idle = refl;
          off = refl;
          page = refl;
        },
      )
