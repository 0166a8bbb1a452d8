-- ===== src/UserString.antt =====
-- user/ulib.c: the text routines of the user programs. A C string is the list of its bytes before the 0.
mod Tests
use os2_project.Base.{
  In, ℕ, zero, suc, ◌+◌, ◌-◌, ◌*◌, ◌%◌, ◌^◌, ◌≤◌, ◌<◌, ◌≡◌, ◌≢◌, ◌⊎◌, ◌↔◌, inl, inr, refl, sym, ap,
  ap₂, subst, ◌∙◌, arith, Bool, true, false, ◌&&◌, Option, none, some, List, [], ◌∷◌, ◌++◌,
  if◌then◌else◌, leb, ◌==◌, u32, ℕ_discrete, eq→==, ne→==, Bool-cases,
}
use os2_project.Base.Int.{ℤ, pos, sub_ℕ, is_zero}

unfoldable pub strcmp : List ℕ → List ℕ → ℤ
strcmp [] [] = sub_ℕ 0 0
strcmp [] (q ∷ qs) = sub_ℕ 0 q
strcmp (p ∷ ps) [] = sub_ℕ p 0
strcmp (p ∷ ps) (q ∷ qs) = let rest = strcmp ps qs in if p == q then rest else sub_ℕ p q

-- `strlen`, without the wrap-around of its int.
unfoldable pub strlen : List ℕ → ℕ
strlen [] = 0
strlen (c ∷ cs) = suc (strlen cs)

-- `strchr`: the text from the byte on, or `none` for a null pointer.
unfoldable pub strchr : List ℕ → ℕ → Option (List ℕ)
strchr [] c = none
strchr (x ∷ xs) c = let rest = strchr xs c in if x == c then some (x ∷ xs) else rest

abbrev is_digit : ℕ → Bool
is_digit c = leb 48 c && leb c 57

-- The loop of `atoi`, on the pattern of its int.
unfoldable pub atoi_from : ℕ → List ℕ → ℕ
atoi_from n [] = n
atoi_from n (c ∷ cs) =
    let rest = atoi_from (u32 (n * 10 + c - 48)) cs in if is_digit c then rest else n

unfoldable pub atoi : List ℕ → ℕ
atoi s = atoi_from 0 s

abbrev pub NonZero : List ℕ → Type 0
NonZero [] = Unit
NonZero (c ∷ cs) = (c ≢ 0) × NonZero cs

sub_ℕ-ne : (a b : ℕ) → a ≢ b → is_zero (sub_ℕ a b) ≡ true → ⊥
sub_ℕ-ne a b ne h = ground arith

strcmp-zero : (p q : List ℕ) → NonZero p → NonZero q → is_zero (strcmp p q) ≡ true → p ≡ q
unfolding strcmp
strcmp-zero [] [] hp hq h = refl
strcmp-zero [] (q ∷ qs) hp hq h = absurd (sub_ℕ-ne 0 q (λ e. hq.0 (sym e)) h)
strcmp-zero (p ∷ ps) [] hp hq h = absurd (sub_ℕ-ne p 0 hp.0 h)
strcmp-zero (p ∷ ps) (q ∷ qs) hp hq h = elim (ℕ_discrete p q) [
  | yes e ↦ ap₂ ◌∷◌ e (strcmp-zero ps qs hp.1 hq.1 (rw (eq→== p q e) at h))
  | no ne ↦ absurd (sub_ℕ-ne p q ne (rw (ne→== p q ne) at h))
]

strcmp_self : (p : List ℕ) → is_zero (strcmp p p) ≡ true
unfolding strcmp
strcmp_self [] = refl
strcmp_self (p ∷ ps) = rw (eq→== p p refl) (strcmp_self ps)

-- `strcmp` returns 0 exactly for equal texts.
pub strcmp_iff : (p q : List ℕ) → NonZero p → NonZero q → (is_zero (strcmp p q) ≡ true) ↔ (p ≡ q)
strcmp_iff p q hp hq =
    (strcmp-zero p q hp hq, λ e. subst (λ r. is_zero (strcmp p r) ≡ true) e (strcmp_self p))

-- `strchr` finds the first place of the byte, and none where there is none.
pub strchr_lem :
    (s : List ℕ) (c : ℕ)
    → ((strchr s c ≡ none) × (In c s → ⊥))
      ⊎ ((before after : List ℕ) × (strchr s c ≡ some (c ∷ after))
          × (s ≡ before ++ (c ∷ after))
          × (In c before → ⊥))
unfolding strchr
strchr_lem [] c = inl (refl, λ i. i)
strchr_lem (x ∷ xs) c = elim (ℕ_discrete x c) [
  | yes e ↦ inr ([], xs, rw (eq→== x c e) (ap (λ y. some (y ∷ xs)) e), ap (λ y. y ∷ xs) e, λ i. i)
  | no ne ↦ elim (strchr_lem xs c) [
    | inl (missing, out) ↦
        inl (rw (ne→== x c ne) missing, λ i. elim i [ inl e ↦ ne (sym e) | inr j ↦ out j ])
    | inr (before, after, found, split, out) ↦ inr (
      x ∷ before,
      after,
      rw (ne→== x c ne) found,
      ap (λ t. x ∷ t) split,
      λ i. elim i [ inl e ↦ ne (sym e) | inr j ↦ out j ],
    )
  ]
]

abbrev pub Digits : List ℕ → Type 0
Digits [] = Unit
Digits (d ∷ ds) = (is_digit d ≡ true) × Digits ds

-- The text does not go on with a digit.
abbrev pub StartsOther : List ℕ → Type 0
StartsOther [] = Unit
StartsOther (c ∷ cs) = is_digit c ≡ false

-- The number that digits behind those of `n` make.
abbrev pub value : ℕ → List ℕ → ℕ
value n [] = n
value n (d ∷ ds) = value (n * 10 + (d - 48)) ds

digit_step : (n d : ℕ) → is_digit d ≡ true → u32 (u32 n * 10 + d - 48) ≡ u32 (n * 10 + (d - 48))
digit_step n d h = let low : 48 ≤ d = ground arith in omega arith

atoi_from_lem :
    (ds rest : List ℕ) (n : ℕ)
    → Digits ds
    → StartsOther rest
    → atoi_from (u32 n) (ds ++ rest) ≡ u32 (value n ds)
unfolding atoi_from
atoi_from_lem [] [] n hd hr = refl
atoi_from_lem [] (c ∷ cs) n hd hr = rw hr refl
atoi_from_lem (d ∷ ds) rest n hd hr = rw hd.0 (
    ap (λ m. atoi_from m (ds ++ rest)) (digit_step n d hd.0)
    ∙ atoi_from_lem ds rest (n * 10 + (d - 48)) hd.1 hr)

-- On a text of digits, with no digit behind them, `atoi` returns the number that they make, modulo
-- 2 ^ 32.
atoi_lem : (ds rest : List ℕ) → Digits ds → StartsOther rest → atoi (ds ++ rest) ≡ u32 (value 0 ds)
unfolding atoi
atoi_lem ds rest hd hr = atoi_from_lem ds rest 0 hd hr
