-- ===== src/Kalloc/Calls.antt =====
-- `kfree`, `kalloc` and `kinit` on the list of the free pages.
use os2_project.Base.{
  In, ℕ, ◌+◌, ◌*◌, ◌%◌, ◌≤◌, ◌<◌, ◌≡◌, ◌≢◌, ◌⊎◌, inl, inr, refl, sym, subst, ◌∙◌, arith, some, List,
  [], ◌∷◌, update, update_self, update-ne, eq→==, ne→==, le→ltb, lt→leb,
}
use os2_project.Kalloc.{Kmem, page_size, phys_stop, fill_page, junk, kalloc, kfree}
use os2_project.Kalloc.Free.{Chain, IsPage, IsFree, Chain-ext, fill_outside, pages_apart}

module _ (kernel_end mem : ℕ) (positive : 0 < kernel_end) where
  -- The memory outside a page is as it was.
  abbrev pub Outside : ℕ → Kmem → Kmem → Type 0
  Outside p s s' = (a : ℕ) → (a < p) ⊎ (p + page_size ≤ a) → s'.word a ≡ s.word a

  abbrev freed : ℕ → Kmem → Kmem
  freed p s = record { freelist = p; word = update (fill_page p junk s.word) p s.freelist }

  kfree_run :
      (p : ℕ) (s : Kmem) → IsPage kernel_end mem p → kfree kernel_end mem p s ≡ some (freed p s)
  unfolding kfree
  kfree_run p s g =
      rw
        (
          eq→== (p % page_size) 0 g.aligned,
          le→ltb p kernel_end g.behind,
          lt→leb p (phys_stop mem) g.before,
        )
        refl

  freed-Outside : (p : ℕ) (s : Kmem) → Outside p s (freed p s)
  freed-Outside p s a out =
      update-ne (fill_page p junk s.word) p a s.freelist (ground arith)
      ∙ fill_outside p junk a s.word out

  freed-IsFree :
      (p : ℕ) (s : Kmem) (xs : List ℕ)
      → IsFree kernel_end mem s xs
      → IsPage kernel_end mem p
      → (In p xs → ⊥)
      → IsFree kernel_end mem (freed p s) (p ∷ xs)
  freed-IsFree p s xs f g fresh = record {
    chain = (
      refl,
      subst (λ h. Chain (freed p s).word h xs)
          (sym (update_self (fill_page p junk s.word) p s.freelist))
          (Chain-ext s.word (freed p s).word s.freelist xs
            (λ q i.
              let ne : p ≢ q = λ e. fresh (subst (λ t. In t xs) (sym e) i) in
              sym (freed-Outside p s q (pages_apart p q g.aligned (f.pages q i).aligned ne)))
            f.chain),
    );
    pages = λ q i. elim i [ inl e ↦ subst (IsPage kernel_end mem) (sym e) g | inr j ↦ f.pages q j ];
    once = (fresh, f.once);
  }

  pub kfree_lem :
      (p : ℕ) (s : Kmem) (xs : List ℕ)
      → IsFree kernel_end mem s xs
      → IsPage kernel_end mem p
      → (In p xs → ⊥)
      → (s' : Kmem) × (kfree kernel_end mem p s ≡ some s')
        × IsFree kernel_end mem s' (p ∷ xs)
        × Outside p s s'
  kfree_lem p s xs f g fresh =
      (freed p s, kfree_run p s g, freed-IsFree p s xs f g fresh, freed-Outside p s)

  -- What `kalloc` does with the list.
  pub data Gets (s : Kmem) : List ℕ → ℕ → Kmem → Type 0 where
    nothing : Gets s [] 0 s
    page :
        (p : ℕ) (ps : List ℕ) (s' : Kmem)
        → IsPage kernel_end mem p
        → (In p ps → ⊥)
        → IsFree kernel_end mem s' ps
        → Outside p s s'
        → Gets s (p ∷ ps) p s'

  -- Where the free pages are those of a list, each of them once, `kalloc` returns 0 and changes
  -- nothing if the list is empty; else it returns the first page, the others stay free, the page
  -- itself is no longer, and no memory outside the page changes.
  pub kalloc_lem :
      (s : Kmem) (xs : List ℕ)
      → IsFree kernel_end mem s xs
      → (p : ℕ) × (s' : Kmem) × (kalloc s ≡ (p, s')) × Gets s xs p s'
  unfolding kalloc
  kalloc_lem s [] f = (0, s, rw (eq→== s.freelist 0 f.chain) refl, nothing)
  kalloc_lem s (p ∷ ps) f =
      let at : s.freelist ≡ p = f.chain.0 in
      let g : IsPage kernel_end mem p = f.pages p (inl refl) in
      let s' : Kmem = record { freelist = s.word p; word = fill_page p (5 * junk) s.word } in
      let outside : Outside p s s' = λ a out. fill_outside p (5 * junk) a s.word out in
      (
        p,
        s',
        rw at (rw (ne→== p 0 (λ e. absurd (omega (arith, e, g.behind)))) refl),
        page p ps s' g f.once.0
            (record {
              chain =
                  Chain-ext s.word s'.word (s.word p) ps
                    (λ q i. sym (
                      outside q (
                        pages_apart p q g.aligned (f.pages q (inr i)).aligned
                          (λ e. f.once.0 (subst (λ t. In t ps) (sym e) i)))))
                    f.chain.1;
              pages = λ q i. f.pages q (inr i);
              once = f.once.1;
            })
            outside,
      )
