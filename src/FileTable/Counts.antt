-- ===== src/FileTable/Counts.antt =====
-- The references to the open files as a list, and how often a file is in it.
use os2_project.Base.{
  ℕ, suc, ◌+◌, ◌^◌, ◌<◌, ◌≡◌, ◌≢◌, refl, sym, ap, subst, ◌∙◌, arith, List, [], ◌∷◌, ◌++◌,
  if◌then◌else◌, ◌==◌, update, update_self, update-ne, ℕ_discrete, eq→==, ne→==,
}
use os2_project.FileTable.{File, n_file}

abbrev pub count : ℕ → List ℕ → ℕ
count f [] = 0
count f (g ∷ gs) = (if g == f then 1 else 0) + count f gs

-- Each file counts the references to it that there are.
pub record IsCounted (file : ℕ → File) (refs : List ℕ) : Type 0 where
  pub counts : (f : ℕ) → f < n_file → (file f).ref ≡ count f refs
  pub few : (f : ℕ) → f < n_file → count f refs < 2 ^ 31

pub count-append : (f : ℕ) (xs ys : List ℕ) → count f (xs ++ ys) ≡ count f xs + count f ys
count-append f [] ys = omega arith
count-append f (x ∷ xs) ys = omega (arith, count-append f xs ys)

pub count_here : (f : ℕ) (xs : List ℕ) → count f (f ∷ xs) ≡ suc (count f xs)
count_here f xs = rw (eq→== f f refl) (omega arith)

pub count_other : (f g : ℕ) (xs : List ℕ) → f ≢ g → count g (f ∷ xs) ≡ count g xs
count_other f g xs ne = rw (ne→== f g ne) (omega arith)

-- A change of one file, whose count it changes as the list does.
pub update-IsCounted :
    (file : ℕ → File) (refs refs' : List ℕ)
    → IsCounted file refs
    → (f : ℕ) (x : File) → x.ref ≡ count f refs'
    → count f refs' < 2 ^ 31
    → ((g : ℕ) → f ≢ g → count g refs' ≡ count g refs)
    → IsCounted (update file f x) refs'
update-IsCounted file refs refs' c f x here small others = record {
  counts = λ g lt. elim (ℕ_discrete f g) [
    | yes e ↦
        subst (λ k. (update file f x k).ref ≡ count k refs') e
          (ap (λ y. y.ref) (update_self file f x) ∙ here)
    | no ne ↦ ap (λ y. y.ref) (update-ne file f g x ne) ∙ c.counts g lt ∙ sym (others g ne)
  ];
  few = λ g lt. elim (ℕ_discrete f g) [
    | yes e ↦ subst (λ k. count k refs' < 2 ^ 31) e small
    | no ne ↦ subst (λ n. n < 2 ^ 31) (sym (others g ne)) (c.few g lt)
  ];
}
