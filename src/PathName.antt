-- ===== src/PathName.antt =====
-- kernel/fs.c: taking a path name apart. A C string is the list of its bytes before the 0.
pub mod Skip
mod Tests
use os2_project.Base.{
  ℕ, zero, suc, Option, none, some, List, [], ◌∷◌, ◌++◌, if◌then◌else◌, leb, ◌==◌,
}
use os2_project.Base.Int.{ℤ}
use os2_project.KernelString.Text.{strncmp}

-- The byte '/'.
abbrev pub slash : ℕ
slash = 47

-- DIRSIZ
abbrev pub dir_size : ℕ
dir_size = 14

-- `namecmp`, on two arrays of bytes.
unfoldable pub namecmp : (ℕ → ℕ) → (ℕ → ℕ) → ℤ
namecmp s t = strncmp s t dir_size

abbrev pub length : List ℕ → ℕ
length [] = 0
length (x ∷ xs) = suc (length xs)

abbrev pub take : ℕ → List ℕ → List ℕ
take zero xs = []
take (suc n) [] = []
take (suc n) (x ∷ xs) = x ∷ take n xs

-- The first and the last loop of `skipelem`.
unfoldable pub skip_slashes : List ℕ → List ℕ
skip_slashes [] = []
skip_slashes (c ∷ cs) = let rest = skip_slashes cs in if c == slash then rest else c ∷ cs

-- The loop between them: the element, and the path behind it.
unfoldable pub element : List ℕ → List ℕ × List ℕ
element [] = ([], [])
element (c ∷ cs) = let (e, rest) = element cs in if c == slash then ([], c ∷ cs) else (c ∷ e, rest)

-- The bytes that are put in `name`.
abbrev pub copy_name : List ℕ → List ℕ
copy_name e = if leb dir_size (length e) then take dir_size e else e ++ (0 ∷ [])

abbrev pub skip_from : List ℕ → Option (List ℕ × List ℕ)
skip_from [] = none
skip_from (c ∷ cs) = let (e, rest) = element (c ∷ cs) in some (copy_name e, skip_slashes rest)

-- `skipelem`: the bytes put in `name`, and the path returned; or `none` for a null pointer.
unfoldable pub skipelem : List ℕ → Option (List ℕ × List ℕ)
skipelem path = skip_from (skip_slashes path)
