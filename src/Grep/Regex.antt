-- ===== src/Grep/Regex.antt =====
-- Regular expressions as they are meant: a list of items, and the texts that they describe.
use os2_project.Base.{ℕ, ◌≡◌, ◌⊎◌, List, [], ◌∷◌, ◌++◌, if◌then◌else◌, ◌==◌}
use os2_project.Grep.{star, dollar, dot}

-- A byte, any number of a byte, or the end of the text; the byte '.' is any byte.
pub data Item : Type 0 where
  one : ℕ → Item
  many : ℕ → Item
  ending : Item

-- A byte followed by '*' is repeated, a last '$' is the end, and any other byte is itself.
unfoldable pub parse : List ℕ → List Item
parse [] = []
parse (r ∷ []) = if r == dollar then ending ∷ [] else one r ∷ []
parse (r ∷ s ∷ re) =
    let after_star = parse re in
    let rest = parse (s ∷ re) in if s == star then many r ∷ after_star else one r ∷ rest

abbrev pub Fits : ℕ → ℕ → Type 0
Fits c x = (c ≡ dot) ⊎ (c ≡ x)

abbrev pub AllFit : ℕ → List ℕ → Type 0
AllFit c [] = Unit
AllFit c (x ∷ xs) = Fits c x × AllFit c xs

-- The text begins with what the items describe.
abbrev pub Starts : List Item → List ℕ → Type 0
Starts [] text = Unit
Starts (one c ∷ is) text = (x : ℕ) × (rest : List ℕ) × (text ≡ x ∷ rest) × Fits c x × Starts is rest
Starts (many c ∷ is) text = (xs rest : List ℕ) × (text ≡ xs ++ rest) × AllFit c xs × Starts is rest
Starts (ending ∷ is) text = (text ≡ []) × Starts is text

-- Some end of the text begins with what the expression describes; after '^' the whole text does.
abbrev pub Contains : List ℕ → List ℕ → Type 0
Contains re text = (before rest : List ℕ) × (text ≡ before ++ rest) × Starts (parse re) rest
