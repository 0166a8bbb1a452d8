-- ===== src/Raid/Geometry/Laws.antt =====
-- The places of the logical blocks, with the word arithmetic computed away.
use os2_project.Base.{
  ℕ, ◌+◌, ◌-◌, ◌*◌, ◌/◌, ◌%◌, ◌^◌, ◌≤◌, ◌<◌, ◌≡◌, ◌≢◌, ap, arith, u32, u64, if◌then◌else◌, ltb,
  dec_lt,
}
use native.Mathlib.Nat.{
  div-add-mod, div-lt_iff_lt-mul, mod-lt, mul_comm, mod-eq-sub-mod, mod-eq_of_lt,
}
use os2_project.Raid.Geometry.{raid5_parity, raid5_disk}

pub div-lt : (b n k : ℕ) → 0 < n → b < n * k → b / n < k
div-lt b n k h lt = (div-lt_iff_lt-mul h).1 (omega (arith, mul_comm n k))

pub div_mod_ext : (a b n : ℕ) → a / n ≡ b / n → a % n ≡ b % n → a ≡ b
div_mod_ext a b n d m = omega (arith, div-add-mod a n, div-add-mod b n, ap (λ (t : ℕ). n * t) d)

-- The disks of RAID5 with `n` data disks: `n + 1` in all, the parity going down from the last one.
pub raid5_parity_lem :
    (n stripe : ℕ)
    → 0 < n
    → n < 2 ^ 16
    → 0 < stripe
    → stripe < 2 ^ 32
    → raid5_parity n stripe ≡ n + 1 - (stripe - 1) % (n + 1)
unfolding raid5_parity
raid5_parity_lem n stripe pos few first last =
    let e : u32 (n + 1) ≡ n + 1 = omega arith in
    let f : u64 (stripe + 2 ^ 64 - 1) ≡ stripe - 1 = omega arith in
    rw (e, f) (omega (arith, mod-lt (stripe - 1) {m = n + 1} (omega arith)))

pub raid5_parity_bounds :
    (n stripe : ℕ)
    → 0 < n
    → n < 2 ^ 16
    → 0 < stripe
    → stripe < 2 ^ 32
    → (1 ≤ raid5_parity n stripe) × (raid5_parity n stripe ≤ n + 1)
raid5_parity_bounds n stripe pos few first last =
    let e = raid5_parity_lem n stripe pos few first last in
    let lt = mod-lt (stripe - 1) {m = n + 1} (omega arith) in (omega arith, omega arith)

-- The data disk of place `o` in a stripe follows the parity disk, round the `n + 1` disks.
pub raid5_disk_lem :
    (n q o : ℕ)
    → 0 < n
    → n < 2 ^ 16
    → 1 ≤ q
    → q ≤ n + 1
    → 1 ≤ o
    → o ≤ n
    → raid5_disk n q o ≡ (if ltb (n + 1) (q + o) then q + o - (n + 1) else q + o)
unfolding raid5_disk
raid5_disk_lem n q o pos few a b d e =
    let f : u32 (n + 1) ≡ n + 1 = omega arith in
    let g : u64 (q + o) ≡ q + o = omega arith in
    rw (f, g)
      (elim (dec_lt (n + 1) (q + o)) [
        | yes p ↦ ground (
          arith,
          mod-eq-sub-mod {n = q + o} {m = n + 1} (omega arith),
          mod-eq_of_lt {n = q + o - (n + 1)} {m = n + 1} (omega arith),
        )
        | no p ↦ ground arith
      ])

-- It is a disk of the array, and not the parity disk.
pub raid5_disk_bounds :
    (n q o : ℕ)
    → 0 < n
    → n < 2 ^ 16
    → 1 ≤ q
    → q ≤ n + 1
    → 1 ≤ o
    → o ≤ n
    → (1 ≤ raid5_disk n q o) × (raid5_disk n q o ≤ n + 1) × (raid5_disk n q o ≢ q)
raid5_disk_bounds n q o pos few a b d e = ground (arith, raid5_disk_lem n q o pos few a b d e)

-- Different places of a stripe are on different disks.
pub raid5_disk-injective :
    (n q o p : ℕ)
    → 0 < n
    → n < 2 ^ 16
    → 1 ≤ q
    → q ≤ n + 1
    → 1 ≤ o
    → o ≤ n
    → 1 ≤ p
    → p ≤ n
    → raid5_disk n q o ≡ raid5_disk n q p
    → o ≡ p
raid5_disk-injective n q o p pos few a b d e d' e' h =
    ground (arith, raid5_disk_lem n q o pos few a b d e, raid5_disk_lem n q p pos few a b d' e')
