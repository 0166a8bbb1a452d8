-- ===== src/Log/Install.antt =====
-- `install_trans`: what is on the disk after each of its writes.
use os2_project.Base.{
  ℕ, zero, suc, ◌+◌, ◌-◌, ◌≤◌, ◌<◌, ◌≡◌, ◌≢◌, ◌⊎◌, inl, inr, ap, sym, subst, ◌∙◌, arith, Bool, true,
  false, if◌then◌else◌, ◌==◌, eq→==, ne→==, ℕ_discrete, update, update_self, update-ne,
}
use os2_project.Raid.Types.{Block}
use os2_project.Log.{Log, bwrite, install_from}
use os2_project.Log.Redo.{Homed, Ends, Outside, redo, redo-outside}

module _ (start size : ℕ) where
  -- The log of `n` entries that is installed from a disk `d` and the buffers `buf₀`, with `p` writes
  -- to go.
  module _ (n : ℕ) (block : ℕ → ℕ) (d buf₀ : ℕ → Block) (p : ℕ) where
    -- The first `t` entries have been copied home.
    pub record Installed (t : ℕ) (s : Log) : Type 0 where
      pub count : s.n ≡ n
      pub entries : s.block ≡ block
      pub disk : (b : ℕ) → s.disk b ≡ redo start size t block d b
      pub log : (k : ℕ) → k < n → s.buf (start + k + 1) ≡ d (start + k + 1)
      pub clean : (b : ℕ) → (buf₀ b ≡ d b) ⊎ Homed t block b → s.buf b ≡ s.disk b
      pub power : s.power + t ≡ p

    -- The power failed after `t` writes.
    pub record Stopped (d' : ℕ → Block) : Type 0 where
      pub t : ℕ
      pub early : t < n
      pub spent : p ≡ t
      pub disk : (b : ℕ) → d' b ≡ redo start size t block d b

    module _ (fits : n + 1 ≤ size) (homes : (k : ℕ) → k < n → Outside start size (block k)) where
      home-ne : (k j : ℕ) → k < n → j < n → block k ≢ start + j + 1
      home-ne k j lt lt' e = elim (homes k lt) [ inl low ↦ omega arith | inr high ↦ omega arith ]

      redo-log :
          (t j : ℕ) → t ≤ n → j < n → redo start size t block d (start + j + 1) ≡ d (start + j + 1)
      redo-log t j le lt =
          redo-outside start size t block d (start + j + 1) (λ k k_lt. home-ne k j (omega arith) lt)

      -- The state after one round.
      abbrev step : ℕ → Log → Log
      step t s =
          let x = s.buf (start + t + 1) in
          record s {
            buf = update s.buf (s.block t) x;
            disk = update s.disk (s.block t) (update s.buf (s.block t) x (s.block t));
            power = s.power - 1;
          }

      step-disk :
          (t b : ℕ) (s : Log)
          → t < n
          → Installed t s
          → (step t s).disk b ≡ redo start size (suc t) block d b
      step-disk t b s lt i =
          let x = s.buf (start + t + 1) in
          let h : s.block t ≡ block t = ap (λ f. f t) i.entries in
          let new : update s.buf (s.block t) x (s.block t) ≡ d (start + t + 1) =
            update_self s.buf (s.block t) x ∙ i.log t lt in
          ap (λ y. update s.disk (s.block t) y b) new
          ∙ ap (λ k. update s.disk k (d (start + t + 1)) b) h
          ∙ ap (λ y. if block t == b then d (start + t + 1) else y) (i.disk b)

      step-clean :
          (t b : ℕ) (s : Log)
          → t < n
          → Installed t s
          → (buf₀ b ≡ d b) ⊎ Homed (suc t) block b
          → (step t s).buf b ≡ (step t s).disk b
      step-clean t b s lt i h =
          let x = s.buf (start + t + 1) in
          elim (ℕ_discrete (s.block t) b) [
            | yes e ↦ rw (eq→== (s.block t) b e) (sym (update_self s.buf (s.block t) x))
            | no ne ↦ rw (ne→== (s.block t) b ne) (
                i.clean b (elim h [
                  | inl same ↦ inl same
                  | inr (k, k_lt, e) ↦ inr (
                    k,
                    elim (ℕ_discrete k t) [
                      | yes last ↦ absurd (ne (ap (λ f. f t) i.entries ∙ ap block (sym last) ∙ e))
                      | no other ↦ omega arith
                    ],
                    e,
                  )
                ]))
          ]

      step-Installed :
          (t : ℕ) (s : Log) → t < n → Installed t s → s.power ≢ 0 → Installed (suc t) (step t s)
      step-Installed t s lt i left = record {
        count = i.count;
        entries = i.entries;
        disk = λ b. step-disk t b s lt i;
        log = λ k k_lt.
            update-ne s.buf (s.block t) (start + k + 1) (s.buf (start + t + 1))
              (λ e. home-ne t k lt k_lt (sym (ap (λ f. f t) i.entries) ∙ e))
            ∙ i.log k k_lt;
        clean = λ b h. step-clean t b s lt i h;
        power = omega (arith, i.power);
      }

      next : (t : ℕ) (s : Log) → t < n → Installed t s → s.power ≢ 0 → Installed (t + 1) (step t s)
      next t s lt i left =
          subst (λ j. Installed j (step t s)) (omega arith) (step-Installed t s lt i left)

      -- `pins` plays no part.
      Installed-pins :
          (t : ℕ) (s : Log) (pins : ℕ → ℕ) → Installed t s → Installed t (record s { pins = pins })
      Installed-pins t s pins i = record {
        count = i.count;
        entries = i.entries;
        disk = i.disk;
        log = i.log;
        clean = i.clean;
        power = i.power;
      }

      pub install_from-Ends :
          (k t : ℕ) (recovering : Bool) (s : Log)
          → t + k ≡ n
          → Installed t s
          → Ends Stopped (Installed n) (install_from start size k t recovering s)
      unfolding install_from bwrite
      install_from-Ends zero t recovering s sum i = subst (λ j. Installed j s) (omega arith) i
      install_from-Ends (suc k) t true s sum i = elim (ℕ_discrete s.power 0) [
        | yes out ↦
            rw (eq→== s.power 0 out)
              (record { t = t; early = omega arith; spent = omega (arith, i.power); disk = i.disk })
        | no left ↦ rw (ne→== s.power 0 left) (
            install_from-Ends k (t + 1) true (step t s) (omega arith)
              (next t s (omega arith) i left))
      ]
      install_from-Ends (suc k) t false s sum i = elim (ℕ_discrete s.power 0) [
        | yes out ↦
            rw (eq→== s.power 0 out)
              (record { t = t; early = omega arith; spent = omega (arith, i.power); disk = i.disk })
        | no left ↦ rw (ne→== s.power 0 left) (
            install_from-Ends k (t + 1) false
              (record (step t s) { pins = update s.pins (s.block t) (s.pins (s.block t) - 1) })
              (omega arith)
              (Installed-pins (t + 1) (step t s)
                (update s.pins (s.block t) (s.pins (s.block t) - 1))
                (next t s (omega arith) i left)))
      ]
