-- ===== src/Bcache/Tests.antt =====
-- Examples for the buffer cache: just set up, and with two buffers of which one is in use.
use os2_project.Base.{
  ℕ, ◌-◌, ◌≡◌, ◌≢◌, inl, inr, refl, sym, ◌∙◌, true, false, some, [], ◌∷◌, arith, if◌then◌else◌,
  ◌==◌, update, ℕ_discrete, eq→==, ne→==,
}
use os2_project.Raid.Types.{Block}
use os2_project.Bcache.{Buf, Bcache, binit, brelse, without}
use os2_project.Bcache.Lookup.{contents, IsValid}
use os2_project.Bcache.Calls.Read.{Reads, bread_lem}
use os2_project.Bcache.Calls.Write.{brelse_lem}

abbrev disk : ℕ → Block
disk b i = b

start-IsValid : IsValid (binit disk)
unfolding binit
start-IsValid = record {
  unique = λ i j _ _ nz _. absurd (nz refl);
  clean = λ i _ _ h. cc;
  idle = λ i _ _. refl;
}

bread_lem_example : (i : ℕ) × (c' : Bcache) × Reads (binit disk) 1 50 i c'
unfolding binit
bread_lem_example =
    bread_lem (binit disk) start-IsValid 1 50 (omega arith) (λ i _ h. absurd (omega (arith, h.0)))
      29 (inl refl) refl

abbrev in_use : Buf
in_use = record { valid = true; dev = 1; blockno = 50; locked = true; refcnt = 1; bytes = λ i. 50 }

abbrev unused : Buf
unused = record { valid = false; dev = 0; blockno = 0; locked = false; refcnt = 0; bytes = λ i. 0 }

abbrev two : Bcache
two = record { buf = update (λ i. unused) 0 in_use; order = 1 ∷ 0 ∷ []; disk = disk }

only : (i : ℕ) → (two.buf i).dev ≢ 0 → 0 ≡ i
only i nz = elim (ℕ_discrete 0 i) [ yes e ↦ e | no ne ↦ absurd (nz (rw (ne→== 0 i ne) refl)) ]

two-IsValid : IsValid two
two-IsValid = record {
  unique = λ i j hi hj nz h. sym (only i nz) ∙ only j (λ z. nz (sym h.0 ∙ z));
  clean = λ i hi. elim (ℕ_discrete 0 i) [
    | yes e ↦ rw (eq→== 0 i e) (λ z. absurd (omega arith))
    | no ne ↦ rw (ne→== 0 i ne) (λ z h. cc)
  ];
  idle = λ i hi. elim (ℕ_discrete 0 i) [
    | yes e ↦ rw (eq→== 0 i e) (λ z. absurd (omega arith))
    | no ne ↦ rw (ne→== 0 i ne) (λ z. refl)
  ];
}

brelse_lem_example :
    (c' : Bcache) × (brelse 0 two ≡ some (tt, c'))
    × IsValid c'
    × ((d k : ℕ) → d ≢ 0 → contents c' d k ≡ contents two d k)
    × (c'.order ≡ (if (two.buf 0).refcnt - 1 == 0 then 0 ∷ without 0 two.order else two.order))
brelse_lem_example =
    brelse_lem two two-IsValid 0 (inr (inl refl)) refl (omega arith) (omega arith) (λ _ _. refl)
