-- ===== src/KernelString.antt =====
-- kernel/string.c: the memory and string routines.
pub mod Move
pub mod Text
pub mod Copy
use os2_project.Base.{
  ℕ, zero, suc, ◌+◌, ◌<◌, ◌≤◌, ◌≡◌, ◌≢◌, ap, sym, ◌∙◌, eq→==, ℕ_discrete, ◌↔◌, refl, true, false,
  if◌then◌else◌, ◌==◌, arith,
}
use os2_project.Base.Int.{ℤ, pos, sub_ℕ, is_zero}

-- `memcmp` on two buffers, each given by its byte at an offset, from offset `i` on.
unfoldable pub memcmp_from : ℕ → ℕ → (ℕ → ℕ) → (ℕ → ℕ) → ℤ
memcmp_from zero i s t = pos 0
memcmp_from (suc n) i s t =
    let rest = memcmp_from n (i + 1) s t in if s i == t i then rest else sub_ℕ (s i) (t i)

unfoldable pub memcmp : (ℕ → ℕ) → (ℕ → ℕ) → ℕ → ℤ
memcmp s t n = memcmp_from n 0 s t

sub_ℕ_ne_zero : (a b : ℕ) → a ≢ b → is_zero (sub_ℕ a b) ≡ false
sub_ℕ_ne_zero a b h = ground arith

memcmp_from-zero :
    (n i : ℕ) (s t : ℕ → ℕ)
    → is_zero (memcmp_from n i s t) ≡ true
    → (k : ℕ) → i ≤ k
    → k < i + n
    → s k ≡ t k
unfolding memcmp_from
memcmp_from-zero zero i s t h k low high = absurd (omega arith)
memcmp_from-zero (suc n) i s t h k low high = elim (ℕ_discrete (s i) (t i)) [
  | yes e ↦ elim (ℕ_discrete i k) [
    | yes at ↦ ap s (sym at) ∙ e ∙ ap t at
    | no ne ↦
        memcmp_from-zero n (i + 1) s t (rw (eq→== (s i) (t i) e) at h) k (omega arith) (omega arith)
  ]
  | no ne ↦ absurd (ground (arith, sub_ℕ_ne_zero (s i) (t i)))
]

memcmp_from-same :
    (n i : ℕ) (s t : ℕ → ℕ)
    → ((k : ℕ) → i ≤ k → k < i + n → s k ≡ t k)
    → memcmp_from n i s t ≡ pos 0
unfolding memcmp_from
memcmp_from-same zero i s t h = refl
memcmp_from-same (suc n) i s t h =
    rw (eq→== (s i) (t i) (h i (omega arith) (omega arith)))
      (memcmp_from-same n (i + 1) s t (λ k low high. h k (omega arith) (omega arith)))

-- `memcmp` returns 0 exactly when the first `n` bytes agree.
pub memcmp_iff :
    (s t : ℕ → ℕ) (n : ℕ) → (is_zero (memcmp s t n) ≡ true) ↔ ((k : ℕ) → k < n → s k ≡ t k)
unfolding memcmp
memcmp_iff s t n = (
  λ h k lt. memcmp_from-zero n 0 s t h k (omega arith) (omega arith),
  λ h. rw (memcmp_from-same n 0 s t (λ k low high. h k (omega arith))),
)
