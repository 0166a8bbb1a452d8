-- ===== src/Log/Recover.antt =====
-- `initlog`: what a start after a power failure makes of the disk, and where it fails in its turn.
pub mod Restarts
use os2_project.Base.{
  ℕ, ◌+◌, ◌*◌, ◌≤◌, ◌<◌, ◌≡◌, ◌≢◌, inl, inr, refl, ap, sym, subst, ◌∙◌, arith, true, eq→==, ne→==,
  ℕ_discrete, update, update_self, update-ne,
}
use os2_project.Raid.Types.{Block}
use os2_project.Raid.Superblock.{word_at}
use os2_project.Log.{
  Log, bwrite, initlog, recover_from_log, read_head, write_head, install_trans, install_from, boot,
  read_entries,
}
use os2_project.Log.Header.{header, header_n, read_entries_lem}
use os2_project.Log.Redo.{
  Ends, Ends-bind, Ends-weaken, Outside, redo, head_n, head_block, restored, IsLogged, redo-outside,
  redo-cases, redo-same, redo-entries,
}
use os2_project.Log.Partly.{partly-Stands, entries-Outside}
use os2_project.Log.Install.{Installed, Stopped, install_from-Ends}

module _ (start size : ℕ) (d : ℕ → Block) (g : IsLogged start size d) (p : ℕ) where
  open g use {fits, homes}

  abbrev n : ℕ
  n = head_n start size d

  -- The entries that `read_head` leaves in memory.
  entries : ℕ → ℕ
  entries = read_entries n 0 (d start) (λ _. 0)

  entries_lem : (k : ℕ) → k < n → entries k ≡ head_block start size d k
  unfolding entries
  entries_lem k lt = read_entries_lem n 0 k (d start) (λ _. 0) (omega arith) (omega arith)

  -- The power has failed, and the log on the disk still stands for the same.
  pub record Again (d' : ℕ → Block) : Type 0 where
    pub logged : IsLogged start size d'
    pub same : (b : ℕ) → restored start size d' b ≡ restored start size d b
    pub count : head_n start size d' ≡ n
    pub short : p ≤ n

  pub record Recovered (s : Log) : Type 0 where
    pub disk : (b : ℕ) → b ≢ start → s.disk b ≡ restored start size d b
    pub empty : head_n start size s.disk ≡ 0
    pub clean : (b : ℕ) → s.buf b ≡ s.disk b
    pub count : s.n ≡ 0
    pub power : s.power + n + 1 ≡ p

  -- Some of the entries have been copied home.
  partly-Again :
      (t : ℕ) (d' : ℕ → Block)
      → t ≤ n
      → p ≡ t
      → ((b : ℕ) → d' b ≡ redo start size t entries d b)
      → Again d'
  partly-Again t d' le spent h =
      let w = partly-Stands start size d g entries entries_lem t d' le h in
      record { logged = w.logged; same = w.same; count = w.count; short = omega arith }

  clear-Ends :
      (s : Log)
      → Installed start size n entries d d p n s
      → Ends Again Recovered (write_head start size (record s { n = 0 }))
  unfolding write_head bwrite
  clear-Ends s i = elim (ℕ_discrete s.power 0) [
    | yes out ↦
        rw (eq→== s.power 0 out)
          (partly-Again n s.disk (omega arith) (omega (arith, i.power)) i.disk)
    | no left ↦
        let x = header 0 s.block (s.buf start) in
        rw (ne→== s.power 0 left) (record {
          disk = λ b ne.
              update-ne s.disk start b (update s.buf start x start) (λ e. ne (sym e))
              ∙ i.disk b
              ∙ redo-entries start size n entries (head_block start size d) d b entries_lem;
          empty =
              ap (λ y. word_at y 0)
                (update_self s.disk start (update s.buf start x start) ∙ update_self s.buf start x)
              ∙ header_n 0 s.block (s.buf start) (omega arith);
          clean = λ b. elim (ℕ_discrete start b) [
            | yes e ↦ rw (eq→== start b e) (sym (update_self s.buf start x))
            | no ne ↦ rw (ne→== start b ne) (i.clean b (inl refl))
          ];
          count = refl;
          power = omega (arith, i.power);
        })
  ]

  -- A start on a disk with a log: either the power fails before it is through, and the log stands
  -- for the same as before, or all home blocks are restored, the log is empty and every buffer is as
  -- the disk. It is through with a write for each entry and one more.
  pub initlog-Ends : Ends Again Recovered (initlog start size (boot d p))
  unfolding initlog recover_from_log read_head install_trans entries
  initlog-Ends =
      let begin : Log = record (boot d p) { n = n; block = entries } in
      Ends-bind Again (Installed start size n entries d d p n) Recovered
        (install_from start size n 0 true begin) _
        (Ends-weaken (Stopped start size n entries d d p) Again
          (Installed start size n entries d d p n) (Installed start size n entries d d p n)
          (install_from start size n 0 true begin)
          (λ d' w. partly-Again w.t d' (omega (arith, w.early)) w.spent w.disk) (λ s i. i)
          (install_from-Ends start size n entries d d p fits
            (entries-Outside start size d g entries entries_lem) n 0 true begin (omega arith)
            (record {
              count = refl;
              entries = refl;
              disk = λ b. refl;
              log = λ k lt. refl;
              clean = λ b h. refl;
              power = omega arith;
            })))
        (λ _ s i. clear-Ends s i)
