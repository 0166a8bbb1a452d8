-- ===== src/Base/Fold.antt =====
-- The exclusive or of a family of numbers, over a range and over consecutive residues.
use os2_project.Base.Words.{update, update_self, update-ne}
use os2_project.Base.Bits.{xor_comm, xor_assoc, xor_cancel}
use Prim.Native.Nat.{ℕ, zero, suc, ◌+◌, ◌%◌, ◌≤◌, ◌<◌, bit_xor}
use mathlib.Core.Path.{◌≡◌, refl, ap, sym, ◌∙◌, ap₂}
use native.Mathlib.Omega.{arith}
use native.Mathlib.Decide.{ℕ_discrete}
use native.Mathlib.Nat.{mod-eq_of_lt}

-- `f 0 ^ f 1 ^ ... ^ f (n - 1)`
unfoldable pub xor_below : ℕ → (ℕ → ℕ) → ℕ
xor_below zero f = 0
xor_below (suc n) f = bit_xor (xor_below n f) (f n)

pub xor_below-ext :
    (n : ℕ) (f g : ℕ → ℕ) → ((i : ℕ) → i < n → f i ≡ g i) → xor_below n f ≡ xor_below n g
unfolding xor_below
xor_below-ext zero f g h = refl
xor_below-ext (suc n) f g h =
    ap₂ bit_xor (xor_below-ext n f g (λ i lt. h i (omega arith))) (h n (omega arith))

pub xor_below-shift :
    (n : ℕ) (f : ℕ → ℕ) → xor_below (suc n) f ≡ bit_xor (f 0) (xor_below n (λ e. f (suc e)))
unfolding xor_below
xor_below-shift zero f = xor_comm 0 (f 0)
xor_below-shift (suc n) f = ap (λ t. bit_xor t (f (suc n))) (xor_below-shift n f) ∙ xor_assoc _ _ _

xor_swap : (a b c : ℕ) → bit_xor (bit_xor a b) c ≡ bit_xor (bit_xor a c) b
xor_swap a b c = xor_assoc a b c ∙ ap (bit_xor a) (xor_comm b c) ∙ sym (xor_assoc a c b)

-- Replacing one entry exchanges its share of the sum.
pub xor_below-update :
    (n : ℕ) (f : ℕ → ℕ) (i v : ℕ)
    → i < n
    → xor_below n (update f i v) ≡ bit_xor (xor_below n f) (bit_xor (f i) v)
unfolding xor_below
xor_below-update zero f i v h = absurd (omega arith)
xor_below-update (suc n) f i v h = elim (ℕ_discrete i n) [
  | yes e ↦
      let same : xor_below n (update f i v) ≡ xor_below n f =
        xor_below-ext n (update f i v) f (λ j lt. update-ne f i j v (omega arith)) in
      rw (same, e, update_self f n v, xor_assoc, xor_cancel)
  | no ne ↦ rw (xor_below-update n f i v (omega arith), update-ne f i n v ne) (xor_swap _ _ _)
]

-- `f (s % n) ^ f ((s + 1) % n) ^ ...`, `k` of them
unfoldable pub xor_cycle : (n s k : ℕ) → (ℕ → ℕ) → ℕ
xor_cycle n s zero f = 0
xor_cycle n s (suc k) f = bit_xor (f (s % n)) (xor_cycle n (suc s) k f)

-- Where no residue wraps, the numbers are consecutive.
pub xor_cycle_below :
    (n s k : ℕ) (f : ℕ → ℕ) → s + k ≤ n → xor_cycle n s k f ≡ xor_below k (λ e. f (s + e))
unfolding xor_cycle xor_below
xor_cycle_below n s zero f h = refl
xor_cycle_below n s (suc k) f h =
    ap₂ bit_xor (ap f (mod-eq_of_lt {n = s} {m = n} (omega arith) ∙ omega arith)) (
      xor_cycle_below n (suc s) k f (omega arith)
      ∙ xor_below-ext k (λ e. f (suc s + e)) (λ e. f (s + suc e)) (λ e _. ap f (omega arith)))
    ∙ sym (xor_below-shift k (λ e. f (s + e)))
