-- ===== src/KernelString/Text.antt =====
-- kernel/string.c: comparing texts that end with a 0.
use os2_project.Base.{
  ℕ, zero, suc, ◌+◌, ◌≤◌, ◌<◌, ◌≡◌, ◌≢◌, ◌↔◌, refl, true, not, ◌&&◌, if◌then◌else◌, ◌==◌, ap, sym,
  ◌∙◌, arith, ℕ_discrete, eq→==, ne→==,
}
use os2_project.Base.Int.{ℤ, pos, sub_ℕ, is_zero}

-- `strncmp` on two texts, each given by its byte at an offset, from offset `i` on.
unfoldable pub strncmp_from : ℕ → ℕ → (ℕ → ℕ) → (ℕ → ℕ) → ℤ
strncmp_from zero i p q = pos 0
strncmp_from (suc n) i p q =
    let rest = strncmp_from n (i + 1) p q in
    if not (p i == 0) && (p i == q i) then rest else sub_ℕ (p i) (q i)

unfoldable pub strncmp : (ℕ → ℕ) → (ℕ → ℕ) → ℕ → ℤ
strncmp p q n = strncmp_from n 0 p q

sub_ℕ-zero : (a b : ℕ) → is_zero (sub_ℕ a b) ≡ true → a ≡ b
sub_ℕ-zero a b h = elim (ℕ_discrete a b) [ yes e ↦ e | no ne ↦ absurd (ground arith) ]

sub_ℕ_same : (a b : ℕ) → a ≡ b → is_zero (sub_ℕ a b) ≡ true
sub_ℕ_same a b h = ground arith

-- The bytes agree up to the first 0, from offset `i` on.
abbrev SameText : ℕ → ℕ → (ℕ → ℕ) → (ℕ → ℕ) → Type 0
SameText n i p q = (k : ℕ) → i ≤ k → k < i + n → ((j : ℕ) → i ≤ j → j < k → p j ≢ 0) → p k ≡ q k

strncmp_from-zero :
    (n i : ℕ) (p q : ℕ → ℕ) → is_zero (strncmp_from n i p q) ≡ true → SameText n i p q
unfolding strncmp_from
strncmp_from-zero zero i p q h k low high before = absurd (omega arith)
strncmp_from-zero (suc n) i p q h k low high before = elim (ℕ_discrete (p i) (q i)) [
  | yes e ↦ elim (ℕ_discrete i k) [
    | yes at ↦ ap p (sym at) ∙ e ∙ ap q at
    | no ne ↦
        let full = before i (omega arith) (omega arith) in
        strncmp_from-zero n (i + 1) p q (rw (ne→== (p i) 0 full, eq→== (p i) (q i) e) at h) k
          (omega arith) (omega arith) (λ j l g. before j (omega arith) g)
  ]
  | no ne ↦ absurd (ground (arith, sub_ℕ-zero (p i) (q i)))
]

strncmp_from-same :
    (n i : ℕ) (p q : ℕ → ℕ) → SameText n i p q → is_zero (strncmp_from n i p q) ≡ true
unfolding strncmp_from
strncmp_from-same zero i p q h = refl
strncmp_from-same (suc n) i p q h =
    let e : p i ≡ q i = h i (omega arith) (omega arith) (λ j l g. absurd (omega arith)) in
    elim (ℕ_discrete (p i) 0) [
      | yes ended ↦ rw (eq→== (p i) 0 ended) (sub_ℕ_same (p i) (q i) e)
      | no full ↦
          rw (ne→== (p i) 0 full, eq→== (p i) (q i) e)
            (strncmp_from-same n (i + 1) p q (λ k low high before.
              h k (omega arith) (omega arith) (λ j l g. elim (ℕ_discrete i j) [
                | yes at ↦ λ z. full (ap p at ∙ z)
                | no ne ↦ before j (omega arith) g
              ])))
    ]

-- `strncmp` returns 0 exactly when the first `n` bytes agree up to the first 0.
pub strncmp_iff :
    (p q : ℕ → ℕ) (n : ℕ)
    → (is_zero (strncmp p q n) ≡ true) ↔ ((k : ℕ) → k < n → ((j : ℕ) → j < k → p j ≢ 0) → p k ≡ q k)
unfolding strncmp
strncmp_iff p q n = (
  λ h k lt before. strncmp_from-zero n 0 p q h k (omega arith) (omega arith) (λ j l g. before j g),
  λ h.
      strncmp_from-same n 0 p q
        (λ k low high before. h k (omega arith) (λ j g. before j (omega arith) g)),
)
