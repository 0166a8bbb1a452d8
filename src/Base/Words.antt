-- ===== src/Base/Words.antt =====
-- Machine words as numbers with their wrap-around, and tables as functions with one entry replaced.
use Prim.Native.Nat.{ℕ, ◌+◌, ◌-◌, ◌%◌, ◌^◌}
use mathlib.Core.Path.{◌≡◌}
use mathlib.Core.Logic.{◌≢◌}
use native.Mathlib.Omega.{arith}
use os2_project.Base.Tests.{◌==◌, if◌then◌else◌, ltb}

-- The bit pattern of a value in an `int`, `uint` or `enum`.
abbrev pub u32 : ℕ → ℕ
u32 n = n % 2 ^ 32

-- The bit pattern of a value in a `uint64`.
abbrev pub u64 : ℕ → ℕ
u64 n = n % 2 ^ 64

-- The patterns of -1 and -2 in an `int`.
abbrev pub minus_one : ℕ
minus_one = 0xffffffff

abbrev pub minus_two : ℕ
minus_two = 0xfffffffe

-- An `int` pattern converted to `uint64`: sign extension.
abbrev pub sign_extend : ℕ → ℕ
sign_extend n = if ltb n (2 ^ 31) then n else n + (2 ^ 64 - 2 ^ 32)

module _ {ℓ} {A : Type ℓ} where
  abbrev pub update : (ℕ → A) → ℕ → A → ℕ → A
  update f i a j = if i == j then a else f j

  pub update_self : (f : ℕ → A) (i : ℕ) (a : A) → update f i a i ≡ a
  update_self f i a = ground arith

  pub update-ne : (f : ℕ → A) (i j : ℕ) (a : A) → i ≢ j → update f i a j ≡ f j
  update-ne f i j a h = ground arith
