-- ===== src/Kalloc/Free.antt =====
-- The list of the free pages.
use os2_project.Base.{
  In, ℕ, ◌+◌, ◌%◌, ◌≤◌, ◌<◌, ◌≡◌, ◌≢◌, ◌⊎◌, inl, inr, refl, subst, arith, List, [], ◌∷◌, dec_lt,
}
use os2_project.Kalloc.{Kmem, page_size, phys_stop, fill_page}

-- The words link the pages of the list, the first at `h`.
abbrev pub Chain : (ℕ → ℕ) → ℕ → List ℕ → Type 0
Chain word h [] = h ≡ 0
Chain word h (x ∷ xs) = (h ≡ x) × Chain word (word x) xs

abbrev pub Distinct : List ℕ → Type 0
Distinct [] = Unit
Distinct (x ∷ xs) = (In x xs → ⊥) × Distinct xs

-- A page that the kernel hands out.
pub record IsPage (kernel_end mem p : ℕ) : Type 0 where
  pub aligned : p % page_size ≡ 0
  pub behind : kernel_end ≤ p
  pub before : p < phys_stop mem

-- The free pages are those of the list, each of them once.
pub record IsFree (kernel_end mem : ℕ) (s : Kmem) (xs : List ℕ) : Type 0 where
  pub chain : Chain s.word s.freelist xs
  pub pages : (p : ℕ) → In p xs → IsPage kernel_end mem p
  pub once : Distinct xs

pub Chain-ext :
    (word word' : ℕ → ℕ) (h : ℕ) (xs : List ℕ)
    → ((p : ℕ) → In p xs → word p ≡ word' p)
    → Chain word h xs
    → Chain word' h xs
Chain-ext word word' h [] same c = c
Chain-ext word word' h (x ∷ xs) same c = (
  c.0,
  subst (λ n. Chain word' n xs) (same x (inl refl))
      (Chain-ext word word' (word x) xs (λ p i. same p (inr i)) c.1),
)

-- A page filled leaves the words outside it.
pub fill_outside :
    (pa v a : ℕ) (word : ℕ → ℕ) → (a < pa) ⊎ (pa + page_size ≤ a) → fill_page pa v word a ≡ word a
fill_outside pa v a word (inl low) = ground arith
fill_outside pa v a word (inr high) = ground arith

-- Two pages do not meet.
pub pages_apart :
    (p q : ℕ) → p % page_size ≡ 0 → q % page_size ≡ 0 → p ≢ q → (q < p) ⊎ (p + page_size ≤ q)
pages_apart p q hp hq ne = elim (dec_lt q p) [ yes l ↦ inl l | no n ↦ inr (omega arith) ]
