-- ===== src/Raid/Tests.antt =====
-- Examples for the RAID layer: four disks of one megabyte, at two of the levels.
mod Calls
mod Disks
mod Repairs
use os2_project.Base.{
  ℕ, ◌+◌, ◌%◌, ◌≤◌, ◌<◌, ◌≡◌, ◌≢◌, refl, sym, ap, subst, Bool, true, false, none, some, arith,
  if◌then◌else◌, ◌==◌, minus_one, update, update_self, update-ne, ne→==, bit_xor,
}
use os2_project.Base.Fold.{xor_below}
use os2_project.Raid.Types.{
  Block, Config, IsConfig, RaidType, raid1, raid5, unhealthy, Superblock, Machine,
}
use os2_project.Raid.Superblock.{encode, decode, decode-encode}
use os2_project.Raid.Volume.{Describes, Online}
use os2_project.Raid.Volume.Redundancy.{Balanced, Mirrored}
use os2_project.Raid.Api.Format.{IsFormat, IsFormat-Describes, IsFormat-Fits, IsFormat-initialized}
use os2_project.Raid.Api.Refine.{Serves}
use os2_project.Raid.Api.Repair.{Single, marked}

abbrev pub four : Config
four = record { disks = 4; dsk_size = 1; capacity = λ _. 1024 }

pub four-IsConfig : IsConfig four
four-IsConfig = record {
  enough = omega arith;
  few = omega arith;
  some_blocks = omega arith;
  small = omega arith;
  drives = λ d low high. omega arith;
}

-- Just booted, and nothing on the disks. User addresses lie in the page at 20480.
abbrev pub blank : Machine
blank = record {
  device = record {
    is_init = minus_one;
    disk_status = λ d. 1;
    superblock = none;
    disk_locked = λ d. false;
    metadata_locked = false;
  };
  disk = λ d b i. 0;
  mem = λ p. p % 256;
  free_pages = 10;
  walk = λ va. some 5137;
}

-- An array with a superblock, whose other blocks have the same byte all over a disk.
abbrev pub array : Superblock → (ℕ → ℕ) → Machine
array sb byte = record blank {
  device = record {
    is_init = 1;
    disk_status = λ d. 1;
    superblock = some sb;
    disk_locked = λ d. false;
    metadata_locked = false;
  };
  disk = λ d b. if b == 0 then encode sb else λ i. byte d;
}

abbrev pub sb1 : Superblock
sb1 = record {
  raid_level = 1;
  disk_status = 1;
  parrity_disk = minus_one;
  swap_disk = minus_one;
  max_blknum = 2046;
  blk_size = 1024;
  num_of_disks = 2;
}

abbrev pub sb5 : Superblock
sb5 = record {
  raid_level = 4;
  disk_status = 1;
  parrity_disk = minus_one;
  swap_disk = minus_one;
  max_blknum = 3068;
  blk_size = 1024;
  num_of_disks = 3;
}

pub sb1-IsFormat : IsFormat four four-IsConfig raid1 sb1
sb1-IsFormat = record {
  max = refl;
  level = refl;
  disks = refl;
  status = refl;
  size = refl;
  parity = refl;
  swap = omega arith;
}

pub sb5-IsFormat : IsFormat four four-IsConfig raid5 sb5
sb5-IsFormat = record {
  max = refl;
  level = refl;
  disks = refl;
  status = refl;
  size = refl;
  parity = refl;
  swap = omega arith;
}

-- Disks 3 and 4 mirror disks 1 and 2.
abbrev pub array1 : Machine
array1 = array sb1 (λ d. d % 2)

-- 1, 3, 2 and 0, which add up to nothing.
abbrev pub bytes5 : ℕ → ℕ
bytes5 d = if d == 1 then 1 else if d == 2 then 3 else if d == 3 then 2 else 0

abbrev pub array5 : Machine
array5 = array sb5 bytes5

pub array-Online : (sb : Superblock) (byte : ℕ → ℕ) → Online four (array sb byte)
array-Online sb byte = record { good = λ d low high. refl; free = λ d. refl; spare = omega arith }

array-Serves :
    (t : RaidType) (sb : Superblock) (byte : ℕ → ℕ)
    → IsFormat four four-IsConfig t sb
    → Serves four t sb (array sb byte)
array-Serves t sb byte f = record {
  describes = IsFormat-Describes four four-IsConfig t sb f;
  filled = IsFormat-initialized four four-IsConfig t sb f;
  on = refl;
  loaded = refl;
  online = array-Online sb byte;
}

pub array1-Serves : Serves four raid1 sb1 array1
array1-Serves = array-Serves raid1 sb1 (λ d. d % 2) sb1-IsFormat

pub array5-Serves : Serves four raid5 sb5 array5
array5-Serves = array-Serves raid5 sb5 bytes5 sb5-IsFormat

pub array1-Mirrored : Mirrored four raid1 array1.disk
array1-Mirrored d b low high behind =
    ap (λ k. if b == 0 then encode sb1 else λ (i : ℕ). k) (omega arith)

pub array5-Balanced : Balanced four array5.disk
unfolding xor_below
array5-Balanced b i low high = rw (ne→== b 0 (omega arith)) refl

-- One disk of an array has failed.
pub array-Single :
    (sb : Superblock) (byte : ℕ → ℕ) (r : ℕ)
    → 1 ≤ r
    → r ≤ 4
    → Single four (marked (array sb byte) r unhealthy) r
array-Single sb byte r low high = record {
  low = low;
  high = high;
  failed = update_self (λ (d : ℕ). 1) r unhealthy;
  others = λ d l h ne. update-ne (λ (d : ℕ). 1) r d unhealthy (λ e. ne (sym e));
}

-- Each disk of an array holds its superblock.
pub stored-Describes :
    (t : RaidType) (sb : Superblock)
    → IsFormat four four-IsConfig t sb
    → Describes four t (decode (encode sb))
stored-Describes t sb f =
    subst (Describes four t) (sym (decode-encode sb (IsFormat-Fits four four-IsConfig t sb f)))
      (IsFormat-Describes four four-IsConfig t sb f)
