-- ===== src/Raid/Tests/Disks.antt =====
-- The theorems about places, mirrored writes and superblocks, on the arrays of four disks.
use os2_project.Base.{ℕ, ◌≤◌, ◌≢◌, refl, arith}
use os2_project.Raid.Types.{raid5, unhealthy}
use os2_project.Raid.Geometry.{place_of}
use os2_project.Raid.Geometry.Places.{Within, place_bounds, place-ne}
use os2_project.Raid.Machine.Laws.{Reaches}
use os2_project.Raid.Rw.Locks.{Free}
use os2_project.Raid.Types.{Machine}
use os2_project.Raid.Api.Repair.{marked}
use os2_project.Raid.Tests.{four, four-IsConfig, array1}

place_bounds_example : Within 4 1024 (place_of four raid5 3068)
place_bounds_example = place_bounds four four-IsConfig raid5 3068 (omega arith)

place-ne_example : place_of four raid5 7 ≢ place_of four raid5 10
place-ne_example = place-ne four four-IsConfig raid5 7 10 (omega arith) (omega arith) (omega arith)

-- A mirrored array whose disk 1 has failed.
abbrev hurt1 : Machine
hurt1 = marked array1 1 unhealthy

reaches : (d : ℕ) → 1 ≤ d → d ≤ 4 → Reaches four four-IsConfig d 5
reaches d low high = record { first = low; last = high; before = omega arith }

hurt1-Free : Free four 1 3 hurt1
hurt1-Free = record {
  d_in = omega arith;
  e_in = omega arith;
  apart = omega arith;
  free = λ i. refl;
}
