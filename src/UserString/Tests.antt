-- ===== src/UserString/Tests.antt =====
-- Examples for the text routines: the text 42;
use os2_project.Base.{ℕ, ◌≡◌, refl, List, [], ◌∷◌, ◌++◌}
use os2_project.UserString.{atoi, atoi_from}

abbrev digits : List ℕ
digits = 52 ∷ 50 ∷ []

abbrev rest : List ℕ
rest = 59 ∷ []

atoi_test : atoi (digits ++ rest) ≡ 42
unfolding atoi atoi_from
atoi_test = refl
