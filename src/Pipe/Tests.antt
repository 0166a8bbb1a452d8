-- ===== src/Pipe/Tests.antt =====
-- Examples for the pipe: counters about to wrap around, with two bytes waiting.
use os2_project.Base.{
  ℕ, ◌+◌, ◌-◌, ◌^◌, ◌≡◌, ◌⊎◌, refl, arith, true, false, Option, some, List, [], ◌∷◌, if◌then◌else◌,
  minus_one,
}
use os2_project.Pipe.{Pipe, Ended, returns, sleeps, pipewrite, read_from, piperead}
use os2_project.Pipe.Queue.{contents, IsValid}
use os2_project.Pipe.Write.{Written, pipewrite_lem}
use os2_project.Pipe.Read.{Taken, piperead_lem}

abbrev wrapping : Pipe
wrapping = record {
  bytes = λ i. i;
  nread = 2 ^ 32 - 1;
  nwrite = 1;
  readopen = true;
  writeopen = true;
}

wrapping-IsValid : IsValid wrapping
wrapping-IsValid = record { read_word = omega arith; write_word = omega arith; fits = omega arith }

abbrev user : ℕ → Option ℕ
user i = some (i + 7)

pipewrite_lem_example :
    (pi' : Pipe) × (xs : List ℕ) × (end : Ended) × (pipewrite user false 3 wrapping ≡ (pi', end))
    × Written user false 3 0 wrapping pi' xs end
pipewrite_lem_example = pipewrite_lem user false 3 wrapping wrapping-IsValid

piperead_lem_example :
    ((contents wrapping ≡ [])
      × (wrapping.writeopen ≡ true)
      × (piperead (λ i. true) false 5 wrapping
          ≡ ([], wrapping, if false then returns minus_one else sleeps 0)))
    ⊎ ((pi' : Pipe) × (xs : List ℕ) × (end : Ended) × (piperead (λ i. true) false 5 wrapping
          ≡ (xs, pi', end))
        × Taken (λ i. true) 5 0 wrapping pi' xs end)
piperead_lem_example = piperead_lem (λ i. true) false 5 wrapping wrapping-IsValid

read_test : (piperead (λ i. true) false 5 wrapping).0 ≡ 511 ∷ 0 ∷ []
unfolding piperead read_from
read_test = refl
