-- ===== src/Grep/Match.antt =====
-- The matcher finds what the expression describes, and nothing else.
use os2_project.Base.{
  ℕ, ◌≡◌, ◌≢◌, ◌⊎◌, ◌↔◌, inl, inr, refl, sym, ap, subst, ◌∙◌, Bool, true, false, ◌||◌, List, [],
  ◌∷◌, ◌++◌, ◌==◌, Bool-cases, ℕ_discrete, eq→==, ne→==,
}
use os2_project.Grep.{
  star, dollar, dot, caret, matchstar, matchone, is_end, matchhere, match_from, match_re,
}
use os2_project.Grep.Regex.{parse, Fits, AllFit, Starts, Contains}

-- A test of texts and what it tests.
abbrev Tells : (List ℕ → Bool) → (List ℕ → Type 0) → Type 0
Tells here P = (text : List ℕ) → (here text ≡ true) ↔ P text

false-ne-true : {A : Type 0} → false ≡ true → A
false-ne-true h = absurd cc

-- The test of a byte in `matchhere`, and that in `matchstar`.
Fits-cases :
    (c x : ℕ)
    → (((c == dot || c == x) ≡ true) × ((x == c || c == dot) ≡ true) × Fits c x)
      ⊎ (((c == dot || c == x) ≡ false) × ((x == c || c == dot) ≡ false) × (Fits c x → ⊥))
Fits-cases c x = elim (ℕ_discrete c dot) [
  | yes e ↦ elim (ℕ_discrete x c) [
    | yes f ↦ inl (rw (eq→== c dot e) refl, rw (eq→== x c f) refl, inl e)
    | no nx ↦ inl (rw (eq→== c dot e) refl, rw (ne→== x c nx, eq→== c dot e) refl, inl e)
  ]
  | no ne ↦ elim (ℕ_discrete c x) [
    | yes e ↦ inl (rw (ne→== c dot ne, eq→== c x e) refl, rw (eq→== x c (sym e)) refl, inr e)
    | no nx ↦ inr (
      rw (ne→== c dot ne, ne→== c x nx) refl,
      rw (ne→== x c (λ e. nx (sym e)), ne→== c dot ne) refl,
      λ h. elim h [ inl e ↦ ne e | inr e ↦ nx e ],
    )
  ]
]

no_cons : (x : ℕ) (xs : List ℕ) → [] ≡ x ∷ xs → ⊥
no_cons x xs e = cc

parts : (x y : ℕ) (xs ys : List ℕ) → x ∷ xs ≡ y ∷ ys → (x ≡ y) × (xs ≡ ys)
parts x y xs ys e = (cc, cc)

module _ (here : List ℕ → Bool) (P : List ℕ → Type 0) (t : Tells here P) where
  matchone_iff :
      (c : ℕ)
      → Tells
          (matchone here c)
          (λ text. (x : ℕ) × (rest : List ℕ) × (text ≡ x ∷ rest) × Fits c x × P rest)
  unfolding matchone
  matchone_iff c [] = (false-ne-true, λ (x, rest, e, _, _). absurd (no_cons x rest e))
  matchone_iff c (y ∷ text) = elim (Fits-cases c y) [
    | inl (yes_fits, _, fits) ↦ (
      λ h. (y, text, refl, fits, (t text).0 (rw yes_fits at h)),
      λ (x, rest, e, _, p). rw yes_fits ((t text).1 (subst P (sym (parts y x text rest e).1) p)),
    )
    | inr (no_fits, _, never) ↦ (
      λ h. false-ne-true (rw no_fits at h),
      λ (x, rest, e, fits, _). absurd (never (subst (Fits c) (sym (parts y x text rest e).0) fits)),
    )
  ]

  -- The text goes on with bytes for `c*`, and then with what `P` says.
  abbrev Repeats : ℕ → List ℕ → Type 0
  Repeats c text = (xs rest : List ℕ) × (text ≡ xs ++ rest) × AllFit c xs × P rest

  Repeats-nil : (c : ℕ) → Repeats c [] → P []
  Repeats-nil c ([], rest, e, _, p) = subst P (sym e) p
  Repeats-nil c (x ∷ xs, rest, e, _, p) = absurd (no_cons x (xs ++ rest) e)

  -- None of them, or one and the others.
  Repeats-cons :
      (c y : ℕ) (text : List ℕ) → Repeats c (y ∷ text) → P (y ∷ text) ⊎ (Fits c y × Repeats c text)
  Repeats-cons c y text ([], rest, e, _, p) = inl (subst P (sym e) p)
  Repeats-cons c y text (x ∷ xs, rest, e, fits, p) =
      let (same, others) = parts y x text (xs ++ rest) e in
      inr (subst (Fits c) (sym same) fits.0, (xs, rest, others, fits.1, p))

  matchstar_iff : (c : ℕ) → Tells (matchstar here c) (Repeats c)
  unfolding matchstar
  matchstar_iff c [] = (λ h. ([], [], refl, tt, (t []).0 h), λ r. (t []).1 (Repeats-nil c r))
  matchstar_iff c (y ∷ text) = elim (Bool-cases (here (y ∷ text))) [
    | inl now ↦ (λ h. ([], y ∷ text, refl, tt, (t (y ∷ text)).0 now), λ r. rw now refl)
    | inr later ↦
        let not_now : P (y ∷ text) → ⊥ = λ p. false-ne-true (sym later ∙ (t (y ∷ text)).1 p) in
        elim (Fits-cases c y) [
          | inl (_, yes_fits, fits) ↦ (
            λ h.
                let (xs, rest, e, all, p) = (matchstar_iff c text).0 (rw (later, yes_fits) at h) in
                (y ∷ xs, rest, ap (λ l. y ∷ l) e, (fits, all), p),
            λ r. elim (Repeats-cons c y text r) [
              | inl p ↦ absurd (not_now p)
              | inr (_, r') ↦ rw (later, yes_fits) ((matchstar_iff c text).1 r')
            ],
          )
          | inr (_, no_fits, never) ↦ (
            λ h. false-ne-true (rw (later, no_fits) at h),
            λ r. elim (Repeats-cons c y text r) [
              | inl p ↦ absurd (not_now p)
              | inr (fits, _) ↦ absurd (never fits)
            ],
          )
        ]
  ]

  -- Some end of the text is what `P` says.
  abbrev Ends : List ℕ → Type 0
  Ends text = (before rest : List ℕ) × (text ≡ before ++ rest) × P rest

  Ends-nil : Ends [] → P []
  Ends-nil ([], rest, e, p) = subst P (sym e) p
  Ends-nil (x ∷ xs, rest, e, p) = absurd (no_cons x (xs ++ rest) e)

  Ends-cons : (y : ℕ) (text : List ℕ) → Ends (y ∷ text) → P (y ∷ text) ⊎ Ends text
  Ends-cons y text ([], rest, e, p) = inl (subst P (sym e) p)
  Ends-cons y text (x ∷ xs, rest, e, p) = inr (xs, rest, (parts y x text (xs ++ rest) e).1, p)

  match_from_iff : Tells (match_from here) Ends
  unfolding match_from
  match_from_iff [] = (λ h. ([], [], refl, (t []).0 h), λ r. (t []).1 (Ends-nil r))
  match_from_iff (y ∷ text) = elim (Bool-cases (here (y ∷ text))) [
    | inl now ↦ (λ h. ([], y ∷ text, refl, (t (y ∷ text)).0 now), λ r. rw now refl)
    | inr later ↦ (
      λ h.
          let (xs, rest, e, p) = (match_from_iff text).0 (rw later at h) in
          (y ∷ xs, rest, ap (λ l. y ∷ l) e, p),
      λ r. elim (Ends-cons y text r) [
        | inl p ↦ false-ne-true (sym later ∙ (t (y ∷ text)).1 p)
        | inr r' ↦ rw later ((match_from_iff text).1 r')
      ],
    )
  ]

is_end_iff : Tells is_end (λ text. (text ≡ []) × Unit)
is_end_iff [] = (λ h. (refl, tt), λ r. refl)
is_end_iff (x ∷ text) = (false-ne-true, λ (e, _). absurd (no_cons x text (sym e)))

-- `matchhere` tells whether a text begins with what the expression describes.
matchhere_iff : (re : List ℕ) → Tells (matchhere re) (Starts (parse re))
unfolding matchhere parse
matchhere_iff [] text = (λ h. tt, λ r. refl)
matchhere_iff (r ∷ []) text = elim (ℕ_discrete r dollar) [
  | yes e ↦ rw (eq→== r dollar e) (is_end_iff text)
  | no ne ↦
      rw (ne→== r dollar ne) (matchone_iff (matchhere []) (Starts []) (matchhere_iff []) r text)
]
matchhere_iff (r ∷ s ∷ re) text = elim (ℕ_discrete s star) [
  | yes e ↦
      rw (eq→== s star e)
        (matchstar_iff (matchhere re) (Starts (parse re)) (matchhere_iff re) r text)
  | no ne ↦
      rw (ne→== s star ne) (
        matchone_iff (matchhere (s ∷ re)) (Starts (parse (s ∷ re))) (matchhere_iff (s ∷ re)) r text)
]

-- A text that the expression is for: after '^' the text itself begins with it, and else an end of it.
abbrev pub IsMatch : List ℕ → List ℕ → Type 0
IsMatch [] text = Contains [] text
IsMatch (r ∷ re) text =
    ((r ≡ caret) × Starts (parse re) text) ⊎ ((r ≢ caret) × Contains (r ∷ re) text)

-- `match` returns 1 exactly when some end of the text begins with what the expression describes, or
-- the text itself where the expression begins with '^'.
pub match_re_iff : (re text : List ℕ) → (match_re re text ≡ true) ↔ IsMatch re text
unfolding match_re
match_re_iff [] text = match_from_iff (matchhere []) (Starts (parse [])) (matchhere_iff []) text
match_re_iff (r ∷ re) text = elim (ℕ_discrete r caret) [
  | yes e ↦
      let (to, from) = matchhere_iff re text in
      rw (eq→== r caret e)
        (λ h. inl (e, to h), λ m. elim m [ inl (_, p) ↦ from p | inr (ne, _) ↦ absurd (ne e) ])
  | no ne ↦
      let (to, from) =
        match_from_iff (matchhere (r ∷ re)) (Starts (parse (r ∷ re))) (matchhere_iff (r ∷ re))
          text in
      rw (ne→== r caret ne)
        (λ h. inr (ne, to h), λ m. elim m [ inl (e, _) ↦ absurd (ne e) | inr (_, p) ↦ from p ])
]
