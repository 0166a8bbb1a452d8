-- ===== src/Kalloc/Tests.antt =====
-- Examples for the free pages: 128 megabytes, and a kernel of one megabyte.
use os2_project.Base.{In, ℕ, ◌+◌, ◌*◌, ◌≡◌, ◌↔◌, inl, inr, refl, arith, some, List, [], ◌∷◌}
use os2_project.Kalloc.{Kmem, kern_base, kalloc, kfree, kinit}
use os2_project.Kalloc.Free.{IsPage, IsFree}
use os2_project.Kalloc.Calls.{Outside, Gets, kfree_lem, kalloc_lem}
use os2_project.Kalloc.Init.{kinit_lem}

abbrev kernel_end : ℕ
kernel_end = kern_base + 1024 * 1024

abbrev first : ℕ
first = kern_base + 1024 * 1024

abbrev second : ℕ
second = kern_base + 1024 * 1024 + 4096

abbrev one_free : Kmem
one_free = record { freelist = first; word = λ a. 0 }

abbrev one_page : List ℕ
one_page = first ∷ []

one_free-IsFree : IsFree kernel_end 128 one_free one_page
one_free-IsFree = record {
  chain = (refl, refl);
  pages = λ p i. elim i [
    | inl e ↦ record { aligned = omega arith; behind = omega arith; before = omega arith }
    | inr j ↦ absurd j
  ];
  once = (λ i. i, tt);
}

kfree_lem_example :
    (s' : Kmem) × (kfree kernel_end 128 second one_free ≡ some s')
    × IsFree kernel_end 128 s' (second ∷ one_page)
    × Outside kernel_end 128 (omega arith) second one_free s'
kfree_lem_example =
    kfree_lem kernel_end 128 (omega arith) second one_free one_page one_free-IsFree
      (record { aligned = refl; behind = omega arith; before = omega arith })
      (λ i. elim i [ inl e ↦ absurd (omega arith) | inr j ↦ j ])

kalloc_lem_example :
    (p : ℕ) × (s' : Kmem) × (kalloc one_free ≡ (p, s'))
    × Gets kernel_end 128 (omega arith) one_free one_page p s'
kalloc_lem_example = kalloc_lem kernel_end 128 (omega arith) one_free one_page one_free-IsFree

kinit_lem_example :
    (s : Kmem) × (xs : List ℕ) × (kinit kernel_end 128 (record { freelist = 0; word = λ a. 0 })
      ≡ some s)
    × IsFree kernel_end 128 s xs
    × ((p : ℕ) → In p xs ↔ IsPage kernel_end 128 p)
kinit_lem_example = kinit_lem kernel_end 128 (omega arith) (λ a. 0) (omega arith)
