-- ===== src/Grep.antt =====
-- user/grep.c: the matcher of regular expressions. A C string is the list of its bytes before the 0.
pub mod Regex
pub mod Match
mod Tests
use os2_project.Base.{ℕ, Bool, true, false, ◌||◌, List, [], ◌∷◌, if◌then◌else◌, ◌==◌}

-- The bytes '*', '$', '.' and '^'.
abbrev pub star : ℕ
star = 42

abbrev pub dollar : ℕ
dollar = 36

abbrev pub dot : ℕ
dot = 46

abbrev pub caret : ℕ
caret = 94

-- `matchstar`, with `matchhere` on the rest of the expression.
unfoldable pub matchstar : (List ℕ → Bool) → ℕ → List ℕ → Bool
matchstar here c [] = here []
matchstar here c (x ∷ text) =
    let rest = matchstar here c text in
    if here (x ∷ text) then true else if x == c || c == dot then rest else false

-- The last test of `matchhere`, with `matchhere` on the rest of the expression.
unfoldable pub matchone : (List ℕ → Bool) → ℕ → List ℕ → Bool
matchone here c [] = false
matchone here c (x ∷ text) = if c == dot || c == x then here text else false

abbrev pub is_end : List ℕ → Bool
is_end [] = true
is_end (x ∷ text) = false

unfoldable pub matchhere : List ℕ → List ℕ → Bool
matchhere [] text = true
matchhere (r ∷ []) text =
    let rest = matchhere [] in if r == dollar then is_end text else matchone rest r text
matchhere (r ∷ s ∷ re) text =
    let after_star = matchhere re in
    let rest = matchhere (s ∷ re) in
    if s == star then matchstar after_star r text else matchone rest r text

-- The loop of `match`.
unfoldable pub match_from : (List ℕ → Bool) → List ℕ → Bool
match_from here [] = here []
match_from here (x ∷ text) =
    let rest = match_from here text in if here (x ∷ text) then true else rest

-- `match`
unfoldable pub match_re : List ℕ → List ℕ → Bool
match_re [] text = match_from (matchhere []) text
match_re (r ∷ re) text =
    if r == caret then matchhere re text else match_from (matchhere (r ∷ re)) text
