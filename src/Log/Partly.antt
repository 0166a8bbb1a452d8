-- ===== src/Log/Partly.antt =====
-- A disk on which some of the entries of its log have been copied home.
use os2_project.Base.{ℕ, ◌+◌, ◌*◌, ◌≤◌, ◌<◌, ◌≡◌, ◌≢◌, inl, inr, ap, sym, subst, ◌∙◌, arith}
use os2_project.Raid.Types.{Block}
use os2_project.Raid.Superblock.{word_at}
use os2_project.Log.Redo.{
  Outside, redo, head_n, head_block, restored, IsLogged, redo-outside, redo-cases, redo-same,
}

-- The log of `d'` stands for what that of `d` does.
pub record Stands (start size : ℕ) (d d' : ℕ → Block) : Type 0 where
  pub logged : IsLogged start size d'
  pub same : (b : ℕ) → restored start size d' b ≡ restored start size d b
  pub count : head_n start size d' ≡ head_n start size d

module _ (start size : ℕ) (d : ℕ → Block) (g : IsLogged start size d) (entries : ℕ → ℕ)
    (agree : (k : ℕ) → k < head_n start size d → entries k ≡ head_block start size d k) where
  abbrev n : ℕ
  n = head_n start size d

  pub entries-Outside : (k : ℕ) → k < n → Outside start size (entries k)
  entries-Outside k lt = subst (Outside start size) (sym (agree k lt)) (g.homes k lt)

  start-ne : (k : ℕ) → k < n → entries k ≢ start
  start-ne k lt e = elim (entries-Outside k lt) [
    | inl low ↦ omega (arith, g.fits)
    | inr high ↦ omega (arith, g.fits)
  ]

  log-ne : (k j : ℕ) → k < n → j < n → entries k ≢ start + j + 1
  log-ne k j lt lt' e = elim (entries-Outside k lt) [
    | inl low ↦ omega (arith, g.fits)
    | inr high ↦ omega (arith, g.fits)
  ]

  pub partly-Stands :
      (t : ℕ) (d' : ℕ → Block)
      → t ≤ n
      → ((b : ℕ) → d' b ≡ redo start size t entries d b)
      → Stands start size d d'
  partly-Stands t d' le h =
      let head : d' start ≡ d start =
        h start ∙ redo-outside start size t entries d start (λ k lt. start-ne k (omega arith)) in
      record {
        logged = record { fits = rw head g.fits; homes = λ k. rw head (g.homes k) };
        same = λ b.
            ap (λ (x : Block). redo start size (word_at x 0) (λ j. word_at x (4 + 4 * j)) d' b) head
            ∙ redo-same start size n (head_block start size d) d d' b
                (λ k lt.
                  h (start + k + 1)
                  ∙ redo-outside start size t entries d (start + k + 1)
                      (λ j j_lt. log-ne j k (omega arith) lt))
                (elim (redo-cases start size t entries d b) [
                  | inl same ↦ inl (h b ∙ same)
                  | inr (k, lt, e) ↦ inr (k, omega arith, sym (agree k (omega arith)) ∙ e)
                ]);
        count = ap (λ x. word_at x 0) head;
      }
