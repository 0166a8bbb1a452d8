-- ===== src/Log/Redo.antt =====
-- What the log on a disk stands for, apart from the code: the home blocks after a redo.
use os2_project.Base.{
  ℕ, zero, suc, ◌+◌, ◌*◌, ◌≤◌, ◌<◌, ◌≡◌, ◌≢◌, ◌⊎◌, inl, inr, refl, ap, sym, ◌∙◌, arith, Bool, false,
  if◌then◌else◌, ◌==◌, ◌||◌, eq→==, ne→==, ℕ_discrete,
}
use os2_project.Raid.Types.{Block}
use os2_project.Raid.Superblock.{word_at}
use os2_project.Log.{Log, Outcome, done, crash, sleeps, panics, bind}

-- Some entry below `n` is for block `b`.
abbrev pub Homed : ℕ → (ℕ → ℕ) → ℕ → Type 0
Homed n block b = (k : ℕ) × (k < n) × (block k ≡ b)

-- Whatever the power does: `P` holds of the disk where it fails, `Q` of the state on return, and
-- the call neither sleeps nor panics.
abbrev pub Ends : {A : Type 0} → ((ℕ → Block) → Type 0) → (Log → Type 0) → Outcome A → Type 0
Ends P Q (done a s) = Q s
Ends P Q (crash d) = P d
Ends P Q sleeps = ⊥
Ends P Q panics = ⊥

pub Ends-bind :
    {A B : Type 0} (P : (ℕ → Block) → Type 0) (Q R : Log → Type 0) (o : Outcome A)
    (f : A → Log → Outcome B)
    → Ends P Q o
    → ((a : A) (s : Log) → Q s → Ends P R (f a s))
    → Ends P R (bind o f)
Ends-bind P Q R (done a s) f h next = next a s h
Ends-bind P Q R (crash d) f h next = h
Ends-bind P Q R sleeps f h next = h
Ends-bind P Q R panics f h next = h

pub Ends-weaken :
    {A : Type 0} (P P' : (ℕ → Block) → Type 0) (Q Q' : Log → Type 0) (o : Outcome A)
    → ((d : ℕ → Block) → P d → P' d)
    → ((s : Log) → Q s → Q' s)
    → Ends P Q o
    → Ends P' Q' o
Ends-weaken P P' Q Q' (done a s) f g h = g s h
Ends-weaken P P' Q Q' (crash d) f g h = f d h
Ends-weaken P P' Q Q' sleeps f g h = h
Ends-weaken P P' Q Q' panics f g h = h

module _ (start size : ℕ) where
  -- A block that is not one of the log's.
  abbrev pub Outside : ℕ → Type 0
  Outside b = (b < start) ⊎ (start + size ≤ b)

  -- Block `b` after the first `n` entries have been copied home, the last one for a block winning.
  abbrev pub redo : ℕ → (ℕ → ℕ) → (ℕ → Block) → ℕ → Block
  redo zero block d b = d b
  redo (suc n) block d b = if block n == b then d (start + n + 1) else redo n block d b

  abbrev pub head_n : (ℕ → Block) → ℕ
  head_n d = word_at (d start) 0

  abbrev pub head_block : (ℕ → Block) → ℕ → ℕ
  head_block d j = word_at (d start) (4 + 4 * j)

  -- The disk that a recovery makes of a disk.
  abbrev pub restored : (ℕ → Block) → ℕ → Block
  restored d = redo (head_n d) (head_block d) d

  -- The header of a disk is one that a log of this size can have.
  pub record IsLogged (d : ℕ → Block) : Type 0 where
    pub fits : head_n d + 1 ≤ size
    pub homes : (k : ℕ) → k < head_n d → Outside (head_block d k)

  pub redo-outside :
      (n : ℕ) (block : ℕ → ℕ) (d : ℕ → Block) (b : ℕ)
      → ((k : ℕ) → k < n → block k ≢ b)
      → redo n block d b ≡ d b
  redo-outside zero block d b h = refl
  redo-outside (suc n) block d b h =
      rw (ne→== (block n) b (h n (omega arith)))
        (redo-outside n block d b (λ k lt. h k (omega arith)))

  -- A redo leaves a block as it is, or it is the home of an entry.
  pub redo-cases :
      (n : ℕ) (block : ℕ → ℕ) (d : ℕ → Block) (b : ℕ) → (redo n block d b ≡ d b) ⊎ Homed n block b
  redo-cases zero block d b = inl refl
  redo-cases (suc n) block d b = elim (ℕ_discrete (block n) b) [
    | yes e ↦ inr (n, omega arith, e)
    | no ne ↦ elim (redo-cases n block d b) [
      | inl same ↦ inl (rw (ne→== (block n) b ne) same)
      | inr (k, lt, e) ↦ inr (k, omega arith, e)
    ]
  ]

  -- A redo gives the same of two disks with the same log that differ in homes only.
  pub redo-same :
      (n : ℕ) (block : ℕ → ℕ) (d d' : ℕ → Block) (b : ℕ)
      → ((k : ℕ) → k < n → d' (start + k + 1) ≡ d (start + k + 1))
      → (d' b ≡ d b) ⊎ Homed n block b
      → redo n block d' b ≡ redo n block d b
  redo-same zero block d d' b log (inl e) = e
  redo-same zero block d d' b log (inr (k, lt, e)) = absurd (omega arith)
  redo-same (suc n) block d d' b log h = elim (ℕ_discrete (block n) b) [
    | yes e ↦ rw (eq→== (block n) b e) (log n (omega arith))
    | no ne ↦ rw (ne→== (block n) b ne) (
        redo-same n block d d' b (λ k lt. log k (omega arith))
          (elim h [
            | inl same ↦ inl same
            | inr (k, lt, e) ↦ inr (
              k,
              elim (ℕ_discrete k n) [
                | yes last ↦ absurd (ne (ap block (sym last) ∙ e))
                | no other ↦ omega arith
              ],
              e,
            )
          ]))
  ]

  -- A redo reads its entries below `n` only.
  pub redo-entries :
      (n : ℕ) (block block' : ℕ → ℕ) (d : ℕ → Block) (b : ℕ)
      → ((k : ℕ) → k < n → block k ≡ block' k)
      → redo n block d b ≡ redo n block' d b
  redo-entries zero block block' d b h = refl
  redo-entries (suc n) block block' d b h =
      let e : block n ≡ block' n = h n (omega arith) in
      rw (e, redo-entries n block block' d b (λ k lt. h k (omega arith))) refl

  -- The contents that a commit gives block `b`: that of its buffer, if it has an entry.
  abbrev pub logged : ℕ → (ℕ → ℕ) → ℕ → Bool
  logged zero block b = false
  logged (suc n) block b = (block n == b) || logged n block b

  pub redo-logged :
      (n : ℕ) (block : ℕ → ℕ) (d buf : ℕ → Block) (b : ℕ)
      → ((k : ℕ) → k < n → d (start + k + 1) ≡ buf (block k))
      → redo n block d b ≡ (if logged n block b then buf b else d b)
  redo-logged zero block d buf b log = refl
  redo-logged (suc n) block d buf b log = elim (ℕ_discrete (block n) b) [
    | yes e ↦ rw (eq→== (block n) b e) (log n (omega arith) ∙ ap buf e)
    | no ne ↦ rw (ne→== (block n) b ne) (redo-logged n block d buf b (λ k lt. log k (omega arith)))
  ]
