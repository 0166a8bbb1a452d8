-- ===== src/Log/Commit/Copy.antt =====
-- `write_log`: the buffers of the transaction go to the blocks of the log.
use os2_project.Base.{
  ℕ, zero, suc, ◌+◌, ◌-◌, ◌*◌, ◌≤◌, ◌<◌, ◌≡◌, ◌≢◌, ◌⊎◌, inl, inr, ap, sym, subst, ◌∙◌, arith, eq→==,
  ne→==, ℕ_discrete, update, update_self, update-ne,
}
use os2_project.Raid.Types.{Block}
use os2_project.Log.{Log, bwrite, write_log_from}
use os2_project.Raid.Superblock.{word_at}
use os2_project.Log.Redo.{Homed, Ends, Outside, redo, head_n, head_block}
use os2_project.Log.Commit.{Ready, Atomic}

module _ (start size : ℕ) (s : Log) (r : Ready start size s) where
  open r use {few, fits, homes, empty}

  -- The first `t` entries are in the log.
  pub record Copied (t : ℕ) (u : Log) : Type 0 where
    pub count : u.n ≡ s.n
    pub entries : u.block ≡ s.block
    pub disk : (b : ℕ) → Outside start size b → u.disk b ≡ s.disk b
    pub buf : (b : ℕ) → Outside start size b → u.buf b ≡ s.buf b
    pub head : u.disk start ≡ s.disk start
    pub on_disk : (k : ℕ) → k < t → u.disk (start + k + 1) ≡ s.buf (s.block k)
    pub in_buf : (k : ℕ) → k < t → u.buf (start + k + 1) ≡ s.buf (s.block k)
    pub clean : (b : ℕ) → (u.buf b ≡ u.disk b) ⊎ Homed s.n s.block b
    pub power : u.power + t ≡ s.power

  -- While the header on the disk is as it was, the disk stands for what it did.
  pub before-Atomic :
      (d' : ℕ → Block)
      → ((b : ℕ) → Outside start size b → d' b ≡ s.disk b)
      → d' start ≡ s.disk start
      → s.power ≤ 2 * s.n + 1
      → Atomic start size s d'
  before-Atomic d' same head short =
      let none_left : head_n start size d' ≡ 0 = ap (λ x. word_at x 0) head ∙ empty in
      record {
        valid = record {
          fits = omega (arith, none_left, fits);
          homes = λ k lt. absurd (omega (arith, none_left));
        };
        either = inl (λ b o.
            ap (λ n. redo start size n (head_block start size d') d' b) none_left ∙ same b o);
        short = short;
      }

  inside-ne : (b k : ℕ) → Outside start size b → k < s.n → start + k + 1 ≢ b
  inside-ne b k (inl low) lt e = omega arith
  inside-ne b k (inr high) lt e = omega (arith, fits)

  abbrev step : ℕ → Log → Log
  step t u =
      let x = u.buf (u.block t) in
      record u {
        buf = update u.buf (start + t + 1) x;
        disk = update u.disk (start + t + 1) (update u.buf (start + t + 1) x (start + t + 1));
        power = u.power - 1;
      }

  module _ (t : ℕ) (u : Log) (lt : t < s.n) (i : Copied t u) where
    l : ℕ
    l = start + t + 1

    from_buf : u.buf (u.block t) ≡ s.buf (s.block t)
    from_buf = ap (λ f. u.buf (f t)) i.entries ∙ i.buf (s.block t) (homes t lt)

    step-Copied : u.power ≢ 0 → Copied (t + 1) (step t u)
    step-Copied left =
        let x = u.buf (u.block t) in
        let at : update u.buf (start + t + 1) x (start + t + 1) ≡ x =
          update_self u.buf (start + t + 1) x in
        record {
          count = i.count;
          entries = i.entries;
          disk = λ b o. update-ne u.disk (start + t + 1) b _ (inside-ne b t o lt) ∙ i.disk b o;
          buf = λ b o. update-ne u.buf (start + t + 1) b x (inside-ne b t o lt) ∙ i.buf b o;
          head = update-ne u.disk (start + t + 1) start _ (omega arith) ∙ i.head;
          on_disk = λ k k_lt. elim (ℕ_discrete k t) [
            | yes e ↦ rw e (update_self u.disk (start + t + 1) _ ∙ at ∙ from_buf)
            | no ne ↦
                update-ne u.disk (start + t + 1) (start + k + 1) _ (omega arith)
                ∙ i.on_disk k (omega arith)
          ];
          in_buf = λ k k_lt. elim (ℕ_discrete k t) [
            | yes e ↦ rw e (at ∙ from_buf)
            | no ne ↦
                update-ne u.buf (start + t + 1) (start + k + 1) x (omega arith)
                ∙ i.in_buf k (omega arith)
          ];
          clean = λ b. elim (ℕ_discrete (start + t + 1) b) [
            | yes e ↦ inl (rw (eq→== (start + t + 1) b e) (sym at))
            | no ne ↦ rw (ne→== (start + t + 1) b ne) (i.clean b)
          ];
          power = omega (arith, i.power);
        }

  pub write_log_from-Ends :
      (k t : ℕ) (u : Log)
      → t + k ≡ s.n
      → Copied t u
      → Ends (Atomic start size s) (Copied s.n) (write_log_from start size k t u)
  unfolding write_log_from bwrite
  write_log_from-Ends zero t u sum i = subst (λ j. Copied j u) (omega arith) i
  write_log_from-Ends (suc k) t u sum i = elim (ℕ_discrete u.power 0) [
    | yes out ↦
        rw (eq→== u.power 0 out) (before-Atomic u.disk i.disk i.head (omega (arith, i.power)))
    | no left ↦ rw (ne→== u.power 0 left) (
        write_log_from-Ends k (t + 1) (step t u) (omega arith)
          (step-Copied t u (omega arith) i left))
  ]
