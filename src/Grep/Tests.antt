-- ===== src/Grep/Tests.antt =====
-- Examples for the matcher.
use os2_project.Base.{ℕ, ◌≡◌, ◌↔◌, refl, true, false, List, [], ◌∷◌}
use os2_project.Grep.{match_re, matchhere, matchone, matchstar, match_from}
use os2_project.Grep.Match.{IsMatch, match_re_iff}

-- ^a.*b$
abbrev anchored : List ℕ
anchored = 94 ∷ 97 ∷ 46 ∷ 42 ∷ 98 ∷ 36 ∷ []

-- axxb and bab
abbrev axxb : List ℕ
axxb = 97 ∷ 120 ∷ 120 ∷ 98 ∷ []

abbrev bab : List ℕ
bab = 98 ∷ 97 ∷ 98 ∷ []

match_re_iff_example : (match_re anchored axxb ≡ true) ↔ IsMatch anchored axxb
match_re_iff_example = match_re_iff anchored axxb

match_test : match_re anchored axxb ≡ true
unfolding match_re matchhere matchone matchstar match_from
match_test = refl

no_match_test : match_re anchored bab ≡ false
unfolding match_re matchhere matchone matchstar match_from
no_match_test = refl
