-- ===== src/Log/Commit/Stages.antt =====
-- The rest of `commit`: the header, the home blocks, and the empty header.
use os2_project.Base.{
  ℕ, ◌+◌, ◌-◌, ◌*◌, ◌^◌, ◌≤◌, ◌<◌, ◌≡◌, ◌≢◌, ◌⊎◌, inl, inr, refl, ap, sym, subst, ◌∙◌, arith, eq→==,
  ne→==, ℕ_discrete, update, update_self, update-ne, false, if◌then◌else◌, lt→ltb,
}
use os2_project.Raid.Types.{Block}
use os2_project.Raid.Superblock.{word_at}
use os2_project.Log.{
  Log, bwrite, commit, write_log, write_log_from, write_head, install_trans, install_from,
}
use os2_project.Log.Header.{header, header_n, header_block}
use os2_project.Log.Redo.{
  Homed, Ends, Ends-bind, Ends-weaken, Outside, redo, head_n, head_block, restored, IsLogged,
  redo-entries, redo-logged, logged,
}
use os2_project.Log.Install.{Installed, Stopped, install_from-Ends}
use os2_project.Log.Partly.{partly-Stands}
use os2_project.Log.Commit.{Ready, Atomic, Committed, committed}
use os2_project.Log.Commit.Copy.{Copied, before-Atomic, write_log_from-Ends}

module _ (start size : ℕ) (s : Log) (r : Ready start size s) where
  open r use {few, fits, homes, small, empty}

  -- The header on the disk has the entries of the transaction.
  record Marked (u : Log) : Type 0 where
    count : u.n ≡ s.n
    entries : u.block ≡ s.block
    disk : (b : ℕ) → Outside start size b → u.disk b ≡ s.disk b
    head_count : head_n start size u.disk ≡ s.n
    head_entries : (k : ℕ) → k < s.n → head_block start size u.disk k ≡ s.block k
    on_disk : (k : ℕ) → k < s.n → u.disk (start + k + 1) ≡ s.buf (s.block k)
    clean : (b : ℕ) → (u.buf b ≡ u.disk b) ⊎ Homed s.n s.block b
    log_clean : (k : ℕ) → k < s.n → u.buf (start + k + 1) ≡ u.disk (start + k + 1)
    power : u.power + s.n + 1 ≡ s.power

  start_inside : (b : ℕ) → Outside start size b → start ≢ b
  start_inside b (inl low) e = omega arith
  start_inside b (inr high) e = omega (arith, fits)

  module _ (u : Log) (i : Copied start size s r s.n u) where
    abbrev x : Block
    x = header u.n u.block (u.buf start)

    written_head : update u.disk start (update u.buf start x start) start ≡ x
    written_head = update_self u.disk start (update u.buf start x start) ∙ update_self u.buf start x

    mark :
        u.power ≢ 0
        → Marked (record u {
          buf = update u.buf start x;
          disk = update u.disk start (update u.buf start x start);
          power = u.power - 1;
        })
    mark left = record {
      count = i.count;
      entries = i.entries;
      disk = λ b o. update-ne u.disk start b _ (start_inside b o) ∙ i.disk b o;
      head_count =
          ap (λ y. word_at y 0) written_head
          ∙ header_n u.n u.block (u.buf start) (omega (arith, i.count, few))
          ∙ i.count;
      head_entries = λ k lt.
          ap (λ y. word_at y (4 + 4 * k)) written_head
          ∙ header_block u.n k u.block (u.buf start) (omega (arith, i.count))
              (subst (λ f. f k < 2 ^ 32) (sym i.entries) (small k lt))
          ∙ ap (λ f. f k) i.entries;
      on_disk = λ k lt. update-ne u.disk start (start + k + 1) _ (omega arith) ∙ i.on_disk k lt;
      clean = λ b. elim (ℕ_discrete start b) [
        | yes e ↦ inl (rw (eq→== start b e) (sym (update_self u.buf start x)))
        | no ne ↦ rw (ne→== start b ne) (i.clean b)
      ];
      log_clean = λ k lt.
          update-ne u.buf start (start + k + 1) x (omega arith)
          ∙ i.in_buf k lt
          ∙ sym (i.on_disk k lt)
          ∙ sym (update-ne u.disk start (start + k + 1) (update u.buf start x start) (omega arith));
      power = omega (arith, i.power);
    }

    write_head-Ends : Ends (Atomic start size s) Marked (write_head start size u)
    unfolding write_head bwrite
    write_head-Ends = elim (ℕ_discrete u.power 0) [
      | yes out ↦
          rw (eq→== u.power 0 out)
            (before-Atomic start size s r u.disk i.disk i.head (omega (arith, i.power)))
      | no left ↦ rw (ne→== u.power 0 left) (mark left)
    ]

  module _ (u : Log) (i : Marked u) where
    marked-IsLogged : IsLogged start size u.disk
    marked-IsLogged = record {
      fits = omega (arith, i.head_count, fits);
      homes = λ k lt.
          let lt' : k < s.n = omega (arith, i.head_count) in
          subst (Outside start size) (sym (i.head_entries k lt')) (homes k lt');
    }

    marked-restored :
        (b : ℕ) → Outside start size b → restored start size u.disk b ≡ committed start size s b
    marked-restored b o =
        ap (λ n. redo start size n (head_block start size u.disk) u.disk b) i.head_count
        ∙ redo-entries start size s.n (head_block start size u.disk) s.block u.disk b i.head_entries
        ∙ redo-logged start size s.n s.block u.disk s.buf b i.on_disk
        ∙ ap (λ y. if logged start size s.n s.block b then s.buf b else y) (i.disk b o)

    after-Atomic :
        (t : ℕ) (d' : ℕ → Block)
        → t ≤ s.n
        → u.power ≤ s.n
        → ((b : ℕ) → d' b ≡ redo start size t u.block u.disk b)
        → Atomic start size s d'
    after-Atomic t d' le short h =
        let w =
          partly-Stands start size u.disk marked-IsLogged u.block
            (λ k lt. ap (λ f. f k) i.entries ∙ sym (i.head_entries k (omega (arith, i.head_count))))
            t d' (omega (arith, i.head_count)) h in
        record {
          valid = w.logged;
          either = inr (λ b o. w.same b ∙ marked-restored b o);
          short = omega (arith, i.power);
        }

    clear-Ends :
        (v : Log)
        → Installed start size u.n u.block u.disk u.buf u.power u.n v
        → Ends
            (Atomic start size s)
            (Committed start size s)
            (write_head start size (record v { n = 0 }))
    unfolding write_head bwrite
    clear-Ends v j = elim (ℕ_discrete v.power 0) [
      | yes out ↦ rw (eq→== v.power 0 out) (
          after-Atomic u.n v.disk (omega (arith, i.count)) (omega (arith, j.power, i.count)) j.disk)
      | no left ↦
          let y = header 0 v.block (v.buf start) in
          rw (ne→== v.power 0 left) (record {
            disk = λ b o.
                update-ne v.disk start b (update v.buf start y start) (start_inside b o)
                ∙ j.disk b
                ∙ ap (λ n. redo start size n u.block u.disk b) i.count
                ∙ redo-entries start size s.n u.block s.block u.disk b
                    (λ k lt. ap (λ f. f k) i.entries)
                ∙ redo-logged start size s.n s.block u.disk s.buf b i.on_disk
                ∙ ap (λ z. if logged start size s.n s.block b then s.buf b else z) (i.disk b o);
            empty =
                ap (λ z. word_at z 0)
                  (update_self v.disk start (update v.buf start y start)
                    ∙ update_self v.buf start y)
                ∙ header_n 0 v.block (v.buf start) (omega arith);
            clean = λ b. elim (ℕ_discrete start b) [
              | yes e ↦ rw (eq→== start b e) (sym (update_self v.buf start y))
              | no ne ↦ rw (ne→== start b ne) (
                  j.clean b (elim (i.clean b) [
                    | inl same ↦ inl same
                    | inr (k, lt, e) ↦ inr (k, omega (arith, i.count), ap (λ f. f k) i.entries ∙ e)
                  ]))
            ];
            count = refl;
          })
    ]

    install-Ends :
        Ends
          (Atomic start size s)
          (Installed start size u.n u.block u.disk u.buf u.power u.n)
          (install_trans start size false u)
    unfolding install_trans
    install-Ends =
        Ends-weaken (Stopped start size u.n u.block u.disk u.buf u.power) (Atomic start size s)
          (Installed start size u.n u.block u.disk u.buf u.power u.n)
          (Installed start size u.n u.block u.disk u.buf u.power u.n)
          (install_from start size u.n 0 false u)
          (λ d' w.
            after-Atomic w.t d' (omega (arith, w.early, i.count))
              (omega (arith, w.early, w.spent, i.count)) w.disk)
          (λ v j. j)
          (install_from-Ends start size u.n u.block u.disk u.buf u.power
            (omega (arith, i.count, fits))
            (λ k lt.
              subst (λ f. Outside start size (f k)) (sym i.entries)
                (homes k (omega (arith, i.count))))
            u.n 0 false u (omega arith)
            (record {
              count = refl;
              entries = refl;
              disk = λ b. refl;
              log = λ k lt. i.log_clean k (omega (arith, i.count));
              clean = λ b h. elim h [ inl e ↦ e | inr (k, lt, e) ↦ absurd (omega arith) ];
              power = omega arith;
            }))

  -- Wherever the power fails in a commit, a later start makes all of the transaction's blocks new or
  -- leaves all as they were; with two writes for each entry and two more it returns, the blocks are
  -- new, and the log is empty.
  pub commit-Ends :
      0 < s.n → Ends (Atomic start size s) (Committed start size s) (commit start size s)
  unfolding commit write_log
  commit-Ends some_entries = rw (lt→ltb 0 s.n some_entries) (
      Ends-bind (Atomic start size s) (Copied start size s r s.n) (Committed start size s)
        (write_log_from start size s.n 0 s) _
        (write_log_from-Ends start size s r s.n 0 s (omega arith) (record {
          count = refl;
          entries = refl;
          disk = λ b o. refl;
          buf = λ b o. refl;
          head = refl;
          on_disk = λ k lt. absurd (omega arith);
          in_buf = λ k lt. absurd (omega arith);
          clean = r.clean;
          power = omega arith;
        }))
        (λ _ u i.
          Ends-bind (Atomic start size s) Marked (Committed start size s) (write_head start size u)
            _ (write_head-Ends u i)
            (λ _ v j.
              Ends-bind (Atomic start size s)
                (Installed start size v.n v.block v.disk v.buf v.power v.n) (Committed start size s)
                (install_trans start size false v) _ (install-Ends v j)
                (λ _ w k. clear-Ends v j w k))))
