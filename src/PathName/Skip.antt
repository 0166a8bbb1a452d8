-- ===== src/PathName/Skip.antt =====
-- What `skipelem` takes off the front of a path.
use os2_project.Base.{
  zero, suc, ◌+◌, ◌≤◌, ◌<◌, arith, dec_le, true, leb, lt→leb, ℕ, ◌≡◌, ◌≢◌, ◌⊎◌, inl, inr, refl, sym,
  ap, subst, ◌∙◌, none, some, List, [], ◌∷◌, ◌++◌, ℕ_discrete, eq→==, ne→==,
}
use os2_project.PathName.{
  slash, skip_slashes, element, length, take, copy_name, skip_from, skipelem,
}

abbrev pub AllSlashes : List ℕ → Type 0
AllSlashes [] = Unit
AllSlashes (c ∷ cs) = (c ≡ slash) × AllSlashes cs

abbrev pub NoSlash : List ℕ → Type 0
NoSlash [] = Unit
NoSlash (c ∷ cs) = (c ≢ slash) × NoSlash cs

-- The text does not begin with a slash.
abbrev pub StartsPlain : List ℕ → Type 0
StartsPlain [] = Unit
StartsPlain (c ∷ cs) = c ≢ slash

-- The text is at its end, or begins with a slash.
abbrev pub StartsSlash : List ℕ → Type 0
StartsSlash [] = Unit
StartsSlash (c ∷ cs) = c ≡ slash

-- A path in parts: slashes, an element, the slashes behind it, and a rest.
pub record Parts (path before e after rest : List ℕ) : Type 0 where
  pub whole : path ≡ before ++ (e ++ (after ++ rest))
  pub slashes : AllSlashes before
  pub filled : e ≢ []
  pub plain : NoSlash e
  pub behind : AllSlashes after
  pub ended : StartsSlash (after ++ rest)
  pub next : StartsPlain rest

skip_slashes_lem :
    (path : List ℕ)
    → (before : List ℕ) × (path ≡ before ++ skip_slashes path)
      × AllSlashes before
      × StartsPlain (skip_slashes path)
unfolding skip_slashes
skip_slashes_lem [] = ([], refl, tt, tt)
skip_slashes_lem (c ∷ cs) = elim (ℕ_discrete c slash) [
  | yes e ↦
      let (before, whole, all, plain) = skip_slashes_lem cs in
      rw (eq→== c slash e) (c ∷ before, ap (λ t. c ∷ t) whole, (e, all), plain)
  | no ne ↦ rw (ne→== c slash ne) ([], refl, tt, ne)
]

element_lem :
    (path : List ℕ)
    → (path ≡ (element path).0 ++ (element path).1)
      × NoSlash (element path).0
      × StartsSlash (element path).1
unfolding element
element_lem [] = (refl, tt, tt)
element_lem (c ∷ cs) = elim (ℕ_discrete c slash) [
  | yes e ↦ rw (eq→== c slash e) (refl, tt, e)
  | no ne ↦
      let (whole, plain, ended) = element_lem cs in
      rw (ne→== c slash ne) (ap (λ t. c ∷ t) whole, (ne, plain), ended)
]

element-filled : (c : ℕ) (cs : List ℕ) → c ≢ slash → (element (c ∷ cs)).0 ≢ []
unfolding element
element-filled c cs ne = rw (ne→== c slash ne) (λ e. cc)

length-append : (xs ys : List ℕ) → length (xs ++ ys) ≡ length xs + length ys
length-append [] ys = omega arith
length-append (x ∷ xs) ys = omega (arith, length-append xs ys)

-- A list cut at `n`.
take_lem :
    (n : ℕ) (xs : List ℕ)
    → n ≤ length xs
    → (cut : List ℕ) × (length (take n xs) ≡ n) × (xs ≡ take n xs ++ cut)
take_lem zero xs h = (xs, refl, refl)
take_lem (suc n) [] h = absurd (omega arith)
take_lem (suc n) (x ∷ xs) h =
    let (cut, len, whole) = take_lem n xs (omega arith) in (cut, ap suc len, ap (λ t. x ∷ t) whole)

-- What is in `name` for an element: its first DIRSIZ bytes without a 0, if it has as many, else the
-- whole element and a 0.
pub record Named (e name : List ℕ) : Type 0 where
  pub fits : length name ≤ 14
  pub long : 14 ≤ length e → (cut : List ℕ) × (length name ≡ 14) × (e ≡ name ++ cut)
  pub short : length e < 14 → name ≡ e ++ (0 ∷ [])

copy_name-Named : (e : List ℕ) → Named e (copy_name e)
copy_name-Named e = elim (dec_le 14 (length e)) [
  | yes le ↦
      let (cut, len, whole) = take_lem 14 e le in
      let at_least : leb 14 (length e) ≡ true = ground arith in
      rw at_least (record {
        fits = omega (arith, len);
        long = λ _. (cut, len, whole);
        short = λ lt. absurd (omega arith);
      })
  | no lt ↦ rw (lt→leb (length e) 14 (omega arith)) (record {
    fits = omega (arith, length-append e (0 ∷ []));
    long = λ le. absurd (lt le);
    short = λ _. refl;
  })
]

AllSlashes-nil : (xs : List ℕ) → AllSlashes xs → AllSlashes (xs ++ [])
AllSlashes-nil [] h = tt
AllSlashes-nil (x ∷ xs) h = (h.0, AllSlashes-nil xs h.1)

skip_from_lem :
    (before path : List ℕ)
    → AllSlashes before
    → StartsPlain path
    → ((skip_from path ≡ none) × AllSlashes (before ++ path))
      ⊎ ((e after rest : List ℕ) × (skip_from path ≡ some (copy_name e, rest))
          × Parts (before ++ path) before e after rest)
skip_from_lem before [] all plain = inl (refl, AllSlashes-nil before all)
skip_from_lem before (c ∷ cs) all plain =
    let (whole, no_slash, ended) = element_lem (c ∷ cs) in
    let left = (element (c ∷ cs)).1 in
    let (after, split, behind, next) = skip_slashes_lem left in
    inr (
      (element (c ∷ cs)).0,
      after,
      skip_slashes left,
      refl,
      record {
        whole = ap (λ t. before ++ t) (whole ∙ ap (λ t. (element (c ∷ cs)).0 ++ t) split);
        slashes = all;
        filled = element-filled c cs plain;
        plain = no_slash;
        behind = behind;
        ended = subst StartsSlash split ended;
        next = next;
      },
    )

-- `skipelem` returns a null pointer for a path of slashes alone; else the path is slashes, an
-- element without a slash, the slashes behind it and a rest that does not begin with one: the rest
-- is returned, and what is put in `name`, never more than the 14 bytes of DIRSIZ, is the first 14
-- bytes of an element of as many, without a 0, or a shorter element whole with a 0 behind it.
pub skipelem_lem :
    (path : List ℕ)
    → ((skipelem path ≡ none) × AllSlashes path)
      ⊎ ((before e after rest name : List ℕ) × (skipelem path ≡ some (name, rest))
          × Parts path before e after rest
          × Named e name)
unfolding skipelem
skipelem_lem path =
    let (before, whole, all, plain) = skip_slashes_lem path in
    elim (skip_from_lem before (skip_slashes path) all plain) [
      | inl (ended, slashes) ↦ inl (ended, subst AllSlashes (sym whole) slashes)
      | inr (e, after, rest, found, parts) ↦ inr (
        before,
        e,
        after,
        rest,
        copy_name e,
        found,
        subst (λ p. Parts p before e after rest) (sym whole) parts,
        copy_name-Named e,
      )
    ]
