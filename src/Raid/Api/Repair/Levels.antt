-- ===== src/Raid/Api/Repair/Levels.antt =====
-- `raid_repair_disk` at each level: what comes back on the disk, and where it gives up.
use os2_project.Base.{
  suc, none, ap₂, update, update_self, update-ne, ℕ, ◌+◌, ◌-◌, ◌^◌, ◌≤◌, ◌<◌, ◌≡◌, ◌≢◌, inl, refl,
  ap, true, some, arith, ◌∙◌, sym, if◌then◌else◌, leb, u64, minus_one, sign_extend, ne→==, le→ltb,
  bit_xor,
}
use os2_project.Base.Bits.{xor_cancel, xor-zero, xor_self}
use os2_project.Base.Fold.{xor_below, xor_below-ext, xor_below-shift}
use os2_project.Raid.Types.{
  Block, Config, IsConfig, blocks_per_disk, RaidType, raid0, raid1, raid0_1, raid4, raid5, healthy,
  recovery, Machine,
}
use os2_project.Raid.Geometry.{data_disks, is_mirrored, has_parity}
use os2_project.Raid.Geometry.Places.{data_disks_bounds}
use os2_project.Raid.Superblock.{decode}
use os2_project.Raid.Rw.Laws.{get_disk_health_known, get_disk_health_outside}
use os2_project.Raid.Rw.Locks.{on_disk}
use os2_project.Raid.Recovery.{handle_recovery, recover_mirror, recover_parity}
use os2_project.Raid.Recovery.Sweep.{Swept, mirror_recovery_lem}
use os2_project.Raid.Recovery.Rebuild.{
  rebuilt, raid4_and_5_recovery_lem, raid4_and_5_recovery_faults,
}
use os2_project.Raid.Volume.{Describes}
use os2_project.Raid.Volume.Redundancy.{stripe, Balanced}
use os2_project.Raid.Api.{raid_repair_disk}
use os2_project.Raid.Api.Repair.{
  marked, Single, tally_bound, count, found, repair_done, repair_failed, repair_faults,
}

-- The disk on the other side of the mirror.
abbrev pub partner : ℕ → ℕ → ℕ
partner n r = if leb n r then r - n else r + n

two_sides :
    (c : Config) (t : RaidType) → is_mirrored t ≡ true → data_disks c t + data_disks c t ≤ c.disks
two_sides c raid0 e = absurd (ground arith)
two_sides c raid1 e = omega arith
two_sides c raid0_1 e = omega arith
two_sides c raid4 e = absurd (ground arith)
two_sides c raid5 e = absurd (ground arith)

module _ (c : Config) (ok : IsConfig c) (m : Machine) (r : ℕ) (s : Single c m r) where
  open s use {low, high, failed, others}

  one_failed : count c ok m r s ≤ 1
  one_failed = (tally_bound c ok m r s c.disks 1 (omega arith) (omega arith)).0

  after :
      (m' : Machine)
      → m'.device ≡ (marked m r recovery).device
      → (d : ℕ) → 1 ≤ d
      → d ≤ c.disks
      → (marked m' r healthy).device.disk_status d ≡ healthy
  after m' same d l h = ground (arith, ap (λ dev. dev.disk_status d) same, others d l h)

  parity_case :
      (t : RaidType)
      → has_parity t ≡ true
      → Describes c t (decode (m.disk r 0))
      → (t ≡ raid4 → r ≢ c.disks)
      → handle_recovery c (found c ok m r s) (count c ok m r s) r (marked m r recovery)
        ≡ recover_parity c r (marked m r recovery)
  unfolding handle_recovery
  parity_case raid0 e i other = absurd (ground arith)
  parity_case raid1 e i other = absurd (ground arith)
  parity_case raid0_1 e i other = absurd (ground arith)
  parity_case raid4 e i other = cc (
    i.level,
    le→ltb 1 (count c ok m r s) one_failed,
    ne→== (sign_extend (found c ok m r s).parrity_disk) r
        (λ same. other refl (sym same ∙ i.parity refl)),
  )
  parity_case raid5 e i other = cc (i.level, le→ltb 1 (count c ok m r s) one_failed)

  -- The rebuild of any disk but the first reads disk 0, which has no transfer buffer: at a level
  -- with parity, where no other disk has failed and a page can be had, the repair of a disk from 2
  -- on, in RAID4 of one that is not the parity disk, does not return: the kernel faults.
  pub repair_parity_faults :
      (t : RaidType)
      → has_parity t ≡ true
      → Describes c t (decode (m.disk r 0))
      → (t ≡ raid4 → r ≢ c.disks)
      → 0 < m.free_pages
      → 2 ≤ r
      → raid_repair_disk c r m ≡ none
  unfolding recover_parity
  repair_parity_faults t e i other spare from_two = repair_faults c ok m r s (
      parity_case t e i other
      ∙ cc (raid4_and_5_recovery_faults c ok r (marked m r recovery) spare from_two high))

  mirror_case :
      (t : RaidType)
      → is_mirrored t ≡ true
      → Describes c t (decode (m.disk r 0))
      → handle_recovery c (found c ok m r s) (count c ok m r s) r (marked m r recovery)
        ≡ recover_mirror c (found c ok m r s) r (marked m r recovery)
  unfolding handle_recovery
  mirror_case raid0 e i = absurd (ground arith)
  mirror_case raid1 e i = cc i.level
  mirror_case raid0_1 e i = cc i.level
  mirror_case raid4 e i = absurd (ground arith)
  mirror_case raid5 e i = absurd (ground arith)

  module _ (t : RaidType) (e : is_mirrored t ≡ true) (i : Describes c t (decode (m.disk r 0))) where
    abbrev n : ℕ
    n = data_disks c t

    -- The disks after the repair of disk `r` at a mirrored level.
    pub record Copied (m' : Machine) : Type 0 where
      pub run : raid_repair_disk c r m ≡ some (0, m')
      pub good : (d : ℕ) → 1 ≤ d → d ≤ c.disks → m'.device.disk_status d ≡ healthy
      pub disks : Swept c r (λ row. row (partner n r)) 0 (0 + blocks_per_disk c) m.disk m'.disk

    partner_lem : (if leb n r then u64 (r + 2 ^ 64 - n) else u64 (r + n)) ≡ partner n r
    partner_lem = let small = (data_disks_bounds c ok t).1 in ground (arith, small, high, ok.few)

    -- What `handle_recovery` computes for the disk to copy from.
    source_lem :
        (let k = (found c ok m r s).num_of_disks in
          if leb k r then u64 (r + 2 ^ 64 - k) else u64 (r + k))
        ≡ partner n r
    source_lem =
        ap (λ k. if leb k r then u64 (r + 2 ^ 64 - k) else u64 (r + k)) i.disks ∙ partner_lem

    -- While no other disk has failed, RAID1 and RAID0_1 copy a disk of the two sides, other than
    -- disk `num_of_disks`, from its mirror: the call returns 0, all disks are healthy in memory,
    -- and no other disk changes.
    pub repair_mirror : r ≢ n → r ≤ n + n → (m' : Machine) × Copied m'
    unfolding recover_mirror
    repair_mirror other inside =
        let (pos, le) = data_disks_bounds c ok t in
        let two : n + n ≤ c.disks = two_sides c t e in
        let p1 : 1 ≤ partner n r = ground (arith, pos) in
        let pn : partner n r ≤ c.disks = ground (arith, high) in
        let ne : partner n r ≢ r = ground (arith, pos, low) in
        let good = others (partner n r) p1 pn ne in
        let start = marked m r recovery in
        let status : start.device.disk_status (partner n r) ≡ healthy = ground (arith, good) in
        let (disk', run, swept) = mirror_recovery_lem c ok (partner n r) r start p1 pn low high in
        let m' = on_disk c disk' start in
        (
          marked m' r healthy,
          record {
            run = repair_done c ok m r s m' (
                mirror_case t e i
                ∙ cc (
                  source_lem,
                  get_disk_health_known c ok (partner n r) start p1 pn (ground (arith, status)),
                  status,
                  run,
                ));
            good = after m' refl;
            disks = swept;
          },
        )

    -- At a mirrored level the mirror of disk `num_of_disks` is looked up as disk 0: its repair
    -- returns -1, and the disk stays in recovery.
    pub repair_mirror_refused :
        r ≡ n → raid_repair_disk c r m ≡ some (minus_one, marked m r recovery)
    unfolding recover_mirror
    repair_mirror_refused last =
        let start = marked m r recovery in
        let zero_disk : partner n r ≡ 0 = ground (arith, last) in
        repair_failed c ok m r s start (
          mirror_case t e i
          ∙ cc (
            source_lem,
            zero_disk,
            get_disk_health_outside c ok 0 start (omega arith) (inl (omega arith)),
          ))

-- The disks after the repair of disk 1 at a level with parity.
pub record Rebuilt (c : Config) (ok : IsConfig c) (m m' : Machine) : Type 0 where
  pub run : raid_repair_disk c 1 m ≡ some (0, m')
  pub good : (d : ℕ) → 1 ≤ d → d ≤ c.disks → m'.device.disk_status d ≡ healthy
  pub disks : Swept c 1 (rebuilt c ok) 1 (1 + (blocks_per_disk c - 1)) m.disk m'.disk
  pub balanced : Balanced c m'.disk
  pub restored :
      (disk : ℕ → Block)
      → Balanced c (update m.disk 1 disk)
      → (b k : ℕ) → 1 ≤ b
      → b < blocks_per_disk c
      → m'.disk 1 b k ≡ disk b k

module _ (c : Config) (ok : IsConfig c) where
  stripe-first :
      (disk : ℕ → ℕ → Block) (b k : ℕ)
      → stripe c disk b k ≡ bit_xor (disk 1 b k) (rebuilt c ok (λ e. disk e b) k)
  stripe-first disk b k =
      ap (λ n. xor_below n (λ e. disk (suc e) b k)) (omega (arith, ok.enough))
      ∙ xor_below-shift (c.disks - 1) (λ e. disk (suc e) b k)

  rebuilt-ext :
      (x y : ℕ → Block) (k : ℕ)
      → ((d : ℕ) → d ≢ 1 → x d ≡ y d)
      → rebuilt c ok x k ≡ rebuilt c ok y k
  rebuilt-ext x y k h =
      xor_below-ext (c.disks - 1) (λ e. x (suc (suc e)) k) (λ e. y (suc (suc e)) k)
        (λ e _. ap (λ f. f k) (h (suc (suc e)) (omega arith)))

  xor-balanced : (a b : ℕ) → bit_xor a b ≡ 0 → b ≡ a
  xor-balanced a b h = sym (xor_cancel a b) ∙ ap (bit_xor a) h ∙ xor-zero a

  module _ (m : Machine) (disk' : ℕ → ℕ → Block)
      (w : Swept c 1 (rebuilt c ok) 1 (1 + (blocks_per_disk c - 1)) m.disk disk') where
    Swept-Balanced : Balanced c disk'
    Swept-Balanced b k low high =
        stripe-first disk' b k
        ∙ ap₂ bit_xor (ap (λ x. x k) (w.done b low (omega arith)))
            (rebuilt-ext (λ e. disk' e b) (λ e. m.disk e b) k (λ d ne. w.other d b ne))
        ∙ xor_self (rebuilt c ok (λ e. m.disk e b) k)

    Swept-restored :
        (disk : ℕ → Block)
        → Balanced c (update m.disk 1 disk)
        → (b k : ℕ) → 1 ≤ b
        → b < blocks_per_disk c
        → disk' 1 b k ≡ disk b k
    Swept-restored disk all b k low high =
        let whole = update m.disk 1 disk in
        ap (λ x. x k) (w.done b low (omega arith))
        ∙ rebuilt-ext (λ e. m.disk e b) (λ e. whole e b) k
            (λ d ne. ap (λ f. f b) (sym (update-ne m.disk 1 d disk (λ e. ne (sym e)))))
        ∙ xor-balanced (whole 1 b k) (rebuilt c ok (λ e. whole e b) k)
            (sym (stripe-first whole b k) ∙ all b k low high)
        ∙ ap (λ f. f b k) (update_self m.disk 1 disk)

  -- Where disk 1 is the only one that has failed and a page can be had, its repair at a level with
  -- parity returns 0: all disks are healthy in memory, the blocks of disk 1 behind its superblock,
  -- and nothing else on the disks, become the sum of the other disks of the array, so that every
  -- stripe adds up to nothing, and any contents of disk 1 with which the stripes added up to
  -- nothing are back.
  pub repair_parity :
      (m : Machine) (s : Single c m 1) (t : RaidType)
      → has_parity t ≡ true
      → Describes c t (decode (m.disk 1 0))
      → 0 < m.free_pages
      → (m' : Machine) × Rebuilt c ok m m'
  unfolding recover_parity
  repair_parity m s t e i spare =
      let start = marked m 1 recovery in
      let (disk', run, w) = raid4_and_5_recovery_lem c ok start spare in
      let m' = on_disk c disk' start in
      (
        marked m' 1 healthy,
        record {
          run =
              repair_done c ok m 1 s m'
                (parity_case c ok m 1 s t e i (λ _ last. omega (arith, last, ok.enough)) ∙ cc run);
          good = after c ok m 1 s m' refl;
          disks = w;
          balanced = Swept-Balanced m disk' w;
          restored = Swept-restored m disk' w;
        },
      )
