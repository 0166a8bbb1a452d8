-- ===== src/Kalloc/Init.antt =====
-- `kinit`: all pages behind the kernel become free.
use os2_project.Base.{
  In, ℕ, zero, suc, ◌+◌, ◌-◌, ◌*◌, ◌/◌, ◌%◌, ◌≤◌, ◌<◌, ◌≡◌, ◌↔◌, inl, inr, refl, ◌∙◌, arith, some,
  List, [], ◌∷◌, ℕ_discrete,
}
use os2_project.Kalloc.{Kmem, page_size, phys_stop, round_up, kfree, free_from, freerange, kinit}
use os2_project.Kalloc.Free.{IsPage, IsFree}
use os2_project.Kalloc.Calls.{kfree_lem}

module _ (kernel_end mem : ℕ) (positive : 0 < kernel_end) where
  -- The free pages after the loop: those from before, and `k` pages from `p` on.
  record Freed (k p : ℕ) (s : Kmem) (xs : List ℕ) : Type 0 where
    state : Kmem
    list : List ℕ
    run : free_from kernel_end mem k p s ≡ some state
    free : IsFree kernel_end mem state list
    old : (q : ℕ) → In q xs → In q list
    new : (q : ℕ) → q % page_size ≡ 0 → p ≤ q → q < p + k * page_size → In q list

  free_step :
      (k p : ℕ) (s s' : Kmem)
      → kfree kernel_end mem p s ≡ some s'
      → free_from kernel_end mem (suc k) p s ≡ free_from kernel_end mem k (p + page_size) s'
  unfolding free_from
  free_step k p s s' e = rw (e, free_from) refl

  free_from_lem :
      (k p : ℕ) (s : Kmem) (xs : List ℕ)
      → IsFree kernel_end mem s xs
      → p % page_size ≡ 0
      → kernel_end ≤ p
      → p + k * page_size ≤ phys_stop mem
      → ((q : ℕ) → In q xs → q < p)
      → Freed k p s xs
  unfolding free_from
  free_from_lem zero p s xs f al low high below = record {
    state = s;
    list = xs;
    run = refl;
    free = f;
    old = λ q i. i;
    new = λ q e l h. absurd (omega arith);
  }
  free_from_lem (suc k) p s xs f al low high below =
      let g : IsPage kernel_end mem p = record {
        aligned = al;
        behind = low;
        before = omega arith;
      } in
      let fresh : In p xs → ⊥ = λ i. absurd (omega (arith, below p i)) in
      let (s', ran, f', _) = kfree_lem kernel_end mem positive p s xs f g fresh in
      let r : Freed k (p + page_size) s' (p ∷ xs) =
        free_from_lem k (p + page_size) s' (p ∷ xs) f' (omega arith) (omega arith) (omega arith)
          (λ q i. elim i [ inl e ↦ omega arith | inr j ↦ omega (arith, below q j) ]) in
      record {
        state = r.state;
        list = r.list;
        run = free_step k p s s' ran ∙ r.run;
        free = r.free;
        old = λ q i. r.old q (inr i);
        new = λ q e l h. elim (ℕ_discrete q p) [
          | yes at ↦ r.old q (inl at)
          | no ne ↦ r.new q e (omega arith) (omega arith)
        ];
      }

  -- With no page free yet, and `end` above 0 and not behind PHYSTOP, `kinit` returns, and the list
  -- of free pages has each aligned page from `end` to PHYSTOP, each of them once, and nothing else.
  pub kinit_lem :
      (word : ℕ → ℕ)
      → kernel_end ≤ phys_stop mem
      → (s : Kmem) × (xs : List ℕ) × (kinit kernel_end mem (record { freelist = 0; word = word })
          ≡ some s)
        × IsFree kernel_end mem s xs
        × ((p : ℕ) → In p xs ↔ IsPage kernel_end mem p)
  unfolding kinit freerange
  kinit_lem word fits =
      let s : Kmem = record { freelist = 0; word = word } in
      let p = round_up kernel_end in
      let k = (phys_stop mem - p) / page_size in
      let stop : phys_stop mem ≡ (524288 + mem * 256) * page_size = omega arith in
      let r : Freed k p s [] =
        free_from_lem k p s [] (record { chain = refl; pages = λ q i. absurd i; once = tt })
          (omega arith) (omega arith) (omega arith) (λ q i. absurd i) in
      (
        r.state,
        r.list,
        r.run,
        r.free,
        λ q. (
          λ i. r.free.pages q i,
          λ g.
              r.new q g.aligned (omega (arith, g.aligned, g.behind))
                (omega (arith, g.aligned, g.before)),
        ),
      )
