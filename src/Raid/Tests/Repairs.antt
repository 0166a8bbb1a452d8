-- ===== src/Raid/Tests/Repairs.antt =====
-- The theorems about `raid_repair_disk`, on the arrays of four disks.
use os2_project.Base.{ℕ, ◌%◌, ◌≤◌, ◌≡◌, refl, some, arith, minus_one, none}
use os2_project.Raid.Types.{raid1, raid5, unhealthy, recovery, Machine}
use os2_project.Raid.Api.{raid_repair_disk}
use os2_project.Raid.Api.Format.{IsFormat-initialized}
use os2_project.Raid.Api.Info.{Loaded}
use os2_project.Raid.Api.Repair.{marked, Single}
use os2_project.Raid.Api.Repair.Levels.{
  Rebuilt, repair_parity, repair_parity_faults, Copied, repair_mirror, repair_mirror_refused,
}
use os2_project.Raid.Tests.{
  four, four-IsConfig, sb1, sb1-IsFormat, sb5, sb5-IsFormat, array1, array5, array-Single, bytes5,
  stored-Describes,
}

-- The parity array with a failed disk, and the mirrored one.
abbrev hurt5 : ℕ → Machine
hurt5 r = marked array5 r unhealthy

abbrev hurt1 : ℕ → Machine
hurt1 r = marked array1 r unhealthy

hurt5-Single : (r : ℕ) → 1 ≤ r → r ≤ 4 → Single four (hurt5 r) r
hurt5-Single = array-Single sb5 bytes5

hurt1-Single : (r : ℕ) → 1 ≤ r → r ≤ 4 → Single four (hurt1 r) r
hurt1-Single = array-Single sb1 (λ d. d % 2)

repair_parity_example : (m' : Machine) × Rebuilt four four-IsConfig (hurt5 1) m'
repair_parity_example =
    repair_parity four four-IsConfig (hurt5 1) (hurt5-Single 1 (omega arith) (omega arith)) raid5
      refl (stored-Describes raid5 sb5 sb5-IsFormat) (omega arith)

repair_parity_faults_example : raid_repair_disk four 2 (hurt5 2) ≡ none
repair_parity_faults_example =
    repair_parity_faults four four-IsConfig (hurt5 2) 2 (hurt5-Single 2 (omega arith) (omega arith))
      raid5 refl (stored-Describes raid5 sb5 sb5-IsFormat) (λ e _. absurd (ground (arith, e)))
      (omega arith) (omega arith)

repair_mirror_example :
    (m' : Machine) × Copied four four-IsConfig
      (hurt1 1)
      1
      (hurt1-Single 1 (omega arith) (omega arith))
      raid1
      refl
      (stored-Describes raid1 sb1 sb1-IsFormat)
      m'
repair_mirror_example =
    repair_mirror four four-IsConfig (hurt1 1) 1 (hurt1-Single 1 (omega arith) (omega arith)) raid1
      refl (stored-Describes raid1 sb1 sb1-IsFormat) (omega arith) (omega arith)

repair_mirror_refused_example :
    raid_repair_disk four 2 (hurt1 2) ≡ some (minus_one, marked (hurt1 2) 2 recovery)
repair_mirror_refused_example =
    repair_mirror_refused four four-IsConfig (hurt1 2) 2
      (hurt1-Single 2 (omega arith) (omega arith)) raid1 refl
      (stored-Describes raid1 sb1 sb1-IsFormat) refl

hurt1-Loaded : Loaded four sb1 (hurt1 1)
hurt1-Loaded = record {
  filled = IsFormat-initialized four four-IsConfig raid1 sb1 sb1-IsFormat;
  on = refl;
  loaded = refl;
  known = λ d low high. ground arith;
}
