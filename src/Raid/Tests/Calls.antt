-- ===== src/Raid/Tests/Calls.antt =====
-- The theorems about whole calls, on the arrays of four disks.
use os2_project.Base.{
  ℕ, ◌+◌, ◌%◌, ◌^◌, ◌<◌, ◌≤◌, ◌≡◌, refl, true, some, arith, minus_one, List, [], ◌∷◌, if◌then◌else◌,
  ltb, ◌||◌,
}
use os2_project.Raid.Types.{raid0, raid1, raid4, raid5, unhealthy, Superblock, Machine}
use os2_project.Raid.Geometry.{place, place_of}
use os2_project.Raid.Machine.{store_block}
use os2_project.Raid.Machine.Buffer.{Buffer}
use os2_project.Raid.Volume.{view}
use os2_project.Raid.Volume.Redundancy.{Balanced, Mirrored}
use os2_project.Raid.Api.Keeps.{raid_write_block-Balanced, raid_write_block-Mirrored}
use os2_project.Raid.Api.{
  raid_write_block, raid_system_init, raid_rw_block, raid_read_block, raid_fail_disk, metadata_for,
}
use os2_project.Raid.Api.Format.{IsFormat, metadata-IsFormat}
use os2_project.Raid.Api.Init.{SetUp, raid_system_init_lem}
use os2_project.Raid.Api.Refine.{
  Serves, Request, read, write, perform_all, Store, serve_all, Agrees,
}
use os2_project.Raid.Api.Refine.Sequences.{perform_all_refines}
use os2_project.Raid.Api.Repair.{marked}
use os2_project.Raid.Api.Failure.{raid_rw_block_lost, raid_read_block_survives, raid_fail_disk_lem}
use os2_project.Raid.Tests.{
  four, four-IsConfig, blank, sb1, sb5, array1, array5, array1-Serves, array5-Serves,
  array1-Mirrored, array5-Balanced,
}

-- The page of every buffer is at 20480.
abbrev where_is : ℕ → ℕ
where_is a = 20480 + a % 4096

buffer : (a : ℕ) → a < 2 ^ 38 → a % 4096 ≤ 3072 → Buffer (λ va. some 5137) a (where_is a)
buffer a low within = record {
  pte = 5137;
  entry = refl;
  low = low;
  valid = refl;
  user = refl;
  frame = omega arith;
  within = omega arith;
  place = omega arith;
}

abbrev script : List Request
script = write 7 100 ∷ read 7 5000 ∷ write 3068 5000 ∷ []

abbrev store5 : Store
store5 = record { blocks = view four raid5 array5.disk; mem = array5.mem }

perform_all_refines_example :
    (m' : Machine) × (perform_all four script array5 ≡ some m')
    × Serves four raid5 sb5 m'
    × Agrees four raid5 m' (serve_all where_is script store5)
perform_all_refines_example =
    perform_all_refines four four-IsConfig raid5 sb5 where_is script array5 store5 array5-Serves
      (record { blocks = λ b i _ _. refl; mem = refl })
      (omega arith, (omega arith, (omega arith, tt)))
      (
        buffer 100 (omega arith) (omega arith),
        (buffer 5000 (omega arith) (omega arith), (buffer 5000 (omega arith) (omega arith), tt)),
      )

raid_system_init_lem_example :
    (sb : Superblock) × (m' : Machine) × (raid_system_init four 3 blank ≡ some (0, m'))
    × SetUp four four-IsConfig blank raid4 sb m'
raid_system_init_lem_example = raid_system_init_lem four four-IsConfig blank raid4 (omega arith)

raid_read_block_survives_example :
    raid_read_block four 5 100 (marked array1 1 unhealthy)
    ≡ some (
      0,
      record (marked array1 1 unhealthy) {
        mem = store_block array1.mem 20580 (view four raid1 array1.disk 5);
      },
    )
unfolding place
raid_read_block_survives_example =
    raid_read_block_survives four four-IsConfig raid1 sb1 array1 5 100 array1-Serves (omega arith)
      20580 (buffer 100 (omega arith) (omega arith)) refl array1-Mirrored

raid_rw_block_lost_example :
    raid_rw_block four 5 100 true (marked array5 (place_of four raid5 5).disk unhealthy)
    ≡ some (minus_one, marked array5 (place_of four raid5 5).disk unhealthy)
raid_rw_block_lost_example =
    raid_rw_block_lost four four-IsConfig raid5 sb5 array5 5 100 array5-Serves (omega arith) true
      refl

raid_fail_disk_lem_example :
    raid_fail_disk four 3 array5
    ≡ some (if ltb 3 1 || ltb 4 3 then (minus_one, array5) else (0, marked array5 3 unhealthy))
raid_fail_disk_lem_example = raid_fail_disk_lem four four-IsConfig 3 array5

metadata-IsFormat_example :
    (sb : Superblock) × (metadata_for four raid0 ≡ some sb) × IsFormat four four-IsConfig raid0 sb
metadata-IsFormat_example = metadata-IsFormat four four-IsConfig raid0

raid_write_block-Balanced_example :
    (m' : Machine) × (raid_write_block four 4 100 array5 ≡ some (0, m')) × Balanced four m'.disk
raid_write_block-Balanced_example =
    raid_write_block-Balanced four four-IsConfig raid5 sb5 array5 4 100 20580
      (buffer 100 (omega arith) (omega arith)) array5-Serves (omega arith) refl array5-Balanced

raid_write_block-Mirrored_example :
    (m' : Machine) × (raid_write_block four 4 100 array1 ≡ some (0, m'))
    × Mirrored four raid1 m'.disk
raid_write_block-Mirrored_example =
    raid_write_block-Mirrored four four-IsConfig raid1 sb1 array1 4 100 20580
      (buffer 100 (omega arith) (omega arith)) array1-Serves (omega arith) refl array1-Mirrored
