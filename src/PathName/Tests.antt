-- ===== src/PathName/Tests.antt =====
-- Examples for taking a path name apart: /a//b
use os2_project.Base.{ℕ, ◌≡◌, ◌⊎◌, refl, none, some, List, [], ◌∷◌}
use os2_project.PathName.{skipelem, skip_slashes, element}
use os2_project.PathName.Skip.{AllSlashes, Parts, Named, skipelem_lem}

abbrev path : List ℕ
path = 47 ∷ 97 ∷ 47 ∷ 47 ∷ 98 ∷ []

skipelem_lem_example :
    ((skipelem path ≡ none) × AllSlashes path)
    ⊎ ((before e after rest name : List ℕ) × (skipelem path ≡ some (name, rest))
        × Parts path before e after rest
        × Named e name)
skipelem_lem_example = skipelem_lem path

skip_test : skipelem path ≡ some (97 ∷ 0 ∷ [], 98 ∷ [])
unfolding skipelem skip_slashes element
skip_test = refl
