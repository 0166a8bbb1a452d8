-- ===== src/Log/Ops/Crash.antt =====
-- The last `end_op` of a transaction, and the power failing in it and in the starts that follow.
use os2_project.Base.{
  ℕ, ◌+◌, ◌-◌, ◌^◌, ◌≤◌, ◌<◌, ◌≡◌, ◌≢◌, ◌⊎◌, inl, inr, refl, sym, subst, ◌∙◌, arith, false, true,
  List, eq→==, u32,
}
use os2_project.Raid.Types.{Block}
use os2_project.Log.{Log, done, crash, bind, commit, end_op, initlog, boot}
use os2_project.Log.Redo.{Ends, Ends-bind, Ends-weaken, Outside, head_n}
use os2_project.Log.Recover.Restarts.{restarts, initlog-restarts}
use os2_project.Log.Commit.{Ready, Atomic, Committed, committed}
use os2_project.Log.Commit.Stages.{commit-Ends}

module _ (start size : ℕ) (s : Log) (r : Ready start size s) (some_entries : 0 < s.n)
    (last : s.outstanding ≡ 1) (quiet : s.committing ≡ false) where
  abbrev begun : Log
  begun = record s { outstanding = u32 (s.outstanding + 2 ^ 32 - 1); committing = true }

  begun-Ready : Ready start size begun
  begun-Ready = record {
    few = r.few;
    fits = r.fits;
    homes = r.homes;
    small = r.small;
    empty = r.empty;
    clean = r.clean;
  }

  -- It returned, and the transaction is on the disk.
  pub record Ended (s' : Log) : Type 0 where
    pub on_disk : Committed start size s s'
    pub idle : s'.committing ≡ false

  end_op_step :
      end_op start size s
      ≡ bind (commit start size begun) (λ _ t. done tt (record t { committing = false }))
  unfolding end_op
  end_op_step =
      let none_left : u32 (s.outstanding + 2 ^ 32 - 1) ≡ 0 = omega (arith, last) in
      cc (quiet, eq→== (u32 (s.outstanding + 2 ^ 32 - 1)) 0 none_left)

  commit-begun : Ends (Atomic start size s) (Committed start size s) (commit start size begun)
  commit-begun =
      Ends-weaken (Atomic start size begun) (Atomic start size s) (Committed start size begun)
        (Committed start size s) (commit start size begun)
        (λ d' w. record { valid = w.valid; either = w.either; short = w.short })
        (λ u w. record { disk = w.disk; empty = w.empty; clean = w.clean; count = w.count })
        (commit-Ends start size begun begun-Ready some_entries)

  end_op-Ends : Ends (Atomic start size s) Ended (end_op start size s)
  end_op-Ends = subst (Ends (Atomic start size s) Ended) (sym end_op_step) (
      Ends-bind (Atomic start size s) (Committed start size s) Ended (commit start size begun)
        (λ _ t. done tt (record t { committing = false })) commit-begun
        (λ _ u w. record {
          on_disk = record { disk = w.disk; empty = w.empty; clean = w.clean; count = w.count };
          idle = refl;
        }))

  -- Where the power fails in the last `end_op` of a transaction, and then in any number of starts,
  -- a start with power for `size` writes or more returns: the blocks outside the log are all as on
  -- the disk before the commit or all as the transaction left them, the log is empty, and the
  -- buffers are as the disk.
  pub end_op-crash :
      (d' : ℕ → Block) (ps : List ℕ) (p : ℕ)
      → end_op start size s ≡ crash d'
      → size ≤ p
      → (s' : Log) × (initlog start size (boot (restarts start size ps d') p) ≡ done tt s')
        × (((b : ℕ) → Outside start size b → s'.disk b ≡ s.disk b)
            ⊎ ((b : ℕ) → Outside start size b → s'.disk b ≡ committed start size s b))
        × (head_n start size s'.disk ≡ 0)
        × ((b : ℕ) → s'.buf b ≡ s'.disk b)
  end_op-crash d' ps p failed enough =
      let w : Atomic start size s d' =
        subst (Ends (Atomic start size s) Ended) failed end_op-Ends in
      let (s', run, disk, empty, clean) =
        initlog-restarts start size ps d' p w.valid (omega (arith, w.valid.fits)) in
      let apart : (b : ℕ) → Outside start size b → b ≢ start =
        λ b o e. elim o [ inl low ↦ omega arith | inr high ↦ omega (arith, r.fits) ] in
      (
        s',
        run,
        elim w.either [
          | inl old ↦ inl (λ b o. disk b (apart b o) ∙ old b o)
          | inr new ↦ inr (λ b o. disk b (apart b o) ∙ new b o)
        ],
        empty,
        clean,
      )
