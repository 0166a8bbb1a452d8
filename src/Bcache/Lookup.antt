-- ===== src/Bcache/Lookup.antt =====
-- The searches of `bget`, and what the cache shows of a block.
use os2_project.Base.{
  In, ℕ, ◌≡◌, ◌≢◌, ◌⊎◌, inl, inr, refl, ap, sym, ◌∙◌, true, false, Option, none, some, List, [],
  ◌∷◌, if◌then◌else◌, eq→==, ne→==, ℕ_discrete,
}
use os2_project.Raid.Types.{Block}
use os2_project.Bcache.{Buf, Bcache, matches, find_cached, find_unused}

-- The buffer is one for the block.
abbrev pub For : Buf → ℕ → ℕ → Type 0
For b dev blockno = (b.dev ≡ dev) × (b.blockno ≡ blockno)

pub For-cases :
    (b : Buf) (dev blockno : ℕ)
    → ((matches b dev blockno ≡ true) × For b dev blockno)
      ⊎ ((matches b dev blockno ≡ false) × (For b dev blockno → ⊥))
For-cases b dev blockno = elim (ℕ_discrete b.dev dev) [
  | yes e ↦ elim (ℕ_discrete b.blockno blockno) [
    | yes f ↦ inl (rw (eq→== b.dev dev e, eq→== b.blockno blockno f) refl, (e, f))
    | no ne ↦ inr (rw (eq→== b.dev dev e, ne→== b.blockno blockno ne) refl, λ h. ne h.1)
  ]
  | no ne ↦ inr (rw (ne→== b.dev dev ne) refl, λ h. ne h.0)
]

module _ (buf : ℕ → Buf) where
  pub find_cached-cases :
      (dev blockno : ℕ) (order : List ℕ)
      → ((i : ℕ) × (find_cached buf dev blockno order ≡ some i)
          × In i order
          × For (buf i) dev blockno)
        ⊎ ((find_cached buf dev blockno order ≡ none)
            × ((i : ℕ) → In i order → For (buf i) dev blockno → ⊥))
  unfolding find_cached
  find_cached-cases dev blockno [] = inr (refl, λ i h _. h)
  find_cached-cases dev blockno (j ∷ js) = elim (For-cases (buf j) dev blockno) [
    | inl (hit, here) ↦ inl (j, rw hit refl, inl refl, here)
    | inr (miss, other) ↦ elim (find_cached-cases dev blockno js) [
      | inl (i, found, inside, here) ↦ inl (i, rw miss found, inr inside, here)
      | inr (none_left, others) ↦ inr (
        rw miss none_left,
        λ i inside here. elim inside [
          | inl e ↦
              other
                (ap (λ k. (buf k).dev) (sym e) ∙ here.0, ap (λ k. (buf k).blockno) (sym e) ∙ here.1)
          | inr there ↦ others i there here
        ],
      )
    ]
  ]

  -- The buffer found is unused, and so is none where none is found.
  pub find_unused-cases :
      (order : List ℕ)
      → ((i : ℕ) × (find_unused buf order ≡ some i) × In i order × ((buf i).refcnt ≡ 0))
        ⊎ ((find_unused buf order ≡ none) × ((i : ℕ) → In i order → (buf i).refcnt ≢ 0))
  unfolding find_unused
  find_unused-cases [] = inr (refl, λ i h. absurd h)
  find_unused-cases (j ∷ js) = elim (find_unused-cases js) [
    | inl (i, found, inside, unused) ↦ inl (i, rw found refl, inr inside, unused)
    | inr (none_left, others) ↦ elim (ℕ_discrete (buf j).refcnt 0) [
      | yes e ↦ inl (j, rw (none_left, eq→== (buf j).refcnt 0 e) refl, inl refl, e)
      | no ne ↦ inr (
        rw (none_left, ne→== (buf j).refcnt 0 ne) refl,
        λ i inside. elim inside [
          | inl e ↦ λ z. ne (ap (λ k. (buf k).refcnt) (sym e) ∙ z)
          | inr there ↦ others i there
        ],
      )
    ]
  ]

-- What a buffer has for its block: its bytes, or what the disk has where they are not valid.
abbrev pub shown : Buf → Block → Block
shown b x = if b.valid then b.bytes else x

abbrev pub shown_by : Bcache → Option ℕ → Block → Block
shown_by c (some i) x = shown (c.buf i) x
shown_by c none x = x

-- The contents of a block as the cache shows it.
abbrev pub contents : Bcache → ℕ → ℕ → Block
contents c dev blockno = shown_by c (find_cached c.buf dev blockno c.order) (c.disk blockno)

-- No two buffers are for one block, and a buffer that nobody uses is as the disk, and not locked. A
-- buffer for device 0 is one that has not been used yet.
pub record IsValid (c : Bcache) : Type 0 where
  pub unique :
      (i j : ℕ)
      → In i c.order
      → In j c.order
      → (c.buf i).dev ≢ 0
      → For (c.buf j) (c.buf i).dev (c.buf i).blockno
      → i ≡ j
  pub clean :
      (i : ℕ)
      → In i c.order
      → (c.buf i).refcnt ≡ 0
      → (c.buf i).valid ≡ true
      → (c.buf i).bytes ≡ c.disk (c.buf i).blockno
  pub idle : (i : ℕ) → In i c.order → (c.buf i).refcnt ≡ 0 → (c.buf i).locked ≡ false

module _ (c : Bcache) (dev blockno : ℕ) where
  pub contents_absent :
      ((i : ℕ) → In i c.order → For (c.buf i) dev blockno → ⊥)
      → contents c dev blockno ≡ c.disk blockno
  contents_absent missing = elim (find_cached-cases c.buf dev blockno c.order) [
    | inl (i, found, inside, here) ↦ absurd (missing i inside here)
    | inr (none_left, _) ↦ rw none_left refl
  ]

  pub contents_cached :
      ((i j : ℕ)
        → In i c.order
        → In j c.order
        → For (c.buf i) dev blockno
        → For (c.buf j) dev blockno
        → i ≡ j)
      → (i : ℕ) → In i c.order
      → For (c.buf i) dev blockno
      → contents c dev blockno ≡ shown (c.buf i) (c.disk blockno)
  contents_cached one i inside here = elim (find_cached-cases c.buf dev blockno c.order) [
    | inl (j, found, there, same) ↦
        rw found (ap (λ k. shown (c.buf k) (c.disk blockno)) (one j i there inside same here))
    | inr (none_left, missing) ↦ absurd (missing i inside here)
  ]

pub IsValid-one :
    (c : Bcache)
    → IsValid c
    → (dev blockno : ℕ) → dev ≢ 0
    → (i j : ℕ) → In i c.order
    → In j c.order
    → For (c.buf i) dev blockno
    → For (c.buf j) dev blockno
    → i ≡ j
IsValid-one c v dev blockno used i j inside there h k =
    v.unique i j inside there (λ z. used (sym h.0 ∙ z)) (k.0 ∙ sym h.0, k.1 ∙ sym h.1)
