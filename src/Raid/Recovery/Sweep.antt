-- ===== src/Raid/Recovery/Sweep.antt =====
-- A loop that goes over the rows of the array and writes one disk, each time from its row alone.
use os2_project.Base.{
  ℕ, zero, suc, ◌+◌, ◌≤◌, ◌<◌, ◌≡◌, ◌≢◌, refl, ap, subst, some, arith, ◌∙◌, sym, fun_ext,
  ℕ_discrete,
}
use os2_project.Raid.Types.{Block, Config, IsConfig, blocks_per_disk, Machine, put}
use os2_project.Raid.Machine.{M}
use os2_project.Raid.Machine.Laws.{read_block_lem, write_block_lem}
use os2_project.Raid.Rw.Locks.{on_disk}
use os2_project.Raid.Recovery.{for_range, copy_block, mirror_recovery}
use os2_project.Raid.Volume.Laws.{put_self, put_ne}

module _ (c : Config) (r : ℕ) (calc : (ℕ → Block) → Block) where
  -- The disks after the rows from `i` to `j - 1`: disk `r` is computed from the rows as they were.
  pub record Swept (i j : ℕ) (disk disk' : ℕ → ℕ → Block) : Type 0 where
    pub done : (b : ℕ) → i ≤ b → b < j → disk' r b ≡ calc (λ e. disk e b)
    pub other : (d b : ℕ) → d ≢ r → disk' d b ≡ disk d b
    pub before : (b : ℕ) → b < i → disk' r b ≡ disk r b
    pub after : (b : ℕ) → j ≤ b → disk' r b ≡ disk r b

  Swept-step :
      (n i : ℕ) (disk : ℕ → ℕ → Block) {disk' : ℕ → ℕ → Block}
      → Swept (i + 1) (i + 1 + n) (put disk r i (calc (λ e. disk e i))) disk'
      → Swept i (i + suc n) disk disk'
  Swept-step n i disk {disk'} s =
      let x = calc (λ e. disk e i) in
      let at = λ (b : ℕ) (ne : i ≢ b) (d : ℕ). put_ne disk r i x d b (λ _ same. ne same) in
      record {
        done = λ b low high. elim (ℕ_discrete i b) [
          | yes e ↦
              subst (λ k. disk' r k ≡ calc (λ d. disk d k)) e
                (s.before i (omega arith) ∙ put_self disk r i x)
          | no ne ↦ s.done b (omega arith) (omega arith) ∙ ap calc (fun_ext (at b ne))
        ];
        other = λ d b ne. s.other d b ne ∙ put_ne disk r i x d b (λ same _. ne (sym same));
        before = λ b lt. s.before b (omega arith) ∙ at b (omega arith) r;
        after = λ b le. s.after b (omega arith) ∙ at b (omega arith) r;
      }

  module _ (body : ℕ → M (Unit {0})) (m : Machine) where
    abbrev Row : ℕ → Type 0
    Row b =
        (disk : ℕ → ℕ → Block)
        → body b (on_disk c disk m) ≡ some (tt, on_disk c (put disk r b (calc (λ e. disk e b))) m)

    pub sweep :
        (n i : ℕ) (disk : ℕ → ℕ → Block)
        → ((b : ℕ) → i ≤ b → b < i + n → Row b)
        → (disk' : ℕ → ℕ → Block) × (for_range n i body (on_disk c disk m)
            ≡ some (tt, on_disk c disk' m))
          × Swept i (i + n) disk disk'
    unfolding for_range
    sweep zero i disk h = (
      disk,
      refl,
      record {
        done = λ b low high. absurd (omega arith);
        other = λ d b ne. refl;
        before = λ b lt. refl;
        after = λ b le. refl;
      },
    )
    sweep (suc n) i disk h =
        let x = calc (λ e. disk e i) in
        let disk₁ = put disk r i x in
        let (disk', run, s) =
          sweep n (i + 1) disk₁ (λ b low high. h b (omega arith) (omega arith)) in
        (disk', cc (h i (omega arith) (omega arith) disk, run), Swept-step n i disk s)

module _ (c : Config) (ok : IsConfig c) where
  -- `mirrorRecovery` between two disks of the array makes one a copy of the other, and changes no
  -- other disk.
  pub mirror_recovery_lem :
      (from to : ℕ) (m : Machine)
      → 1 ≤ from
      → from ≤ c.disks
      → 1 ≤ to
      → to ≤ c.disks
      → (disk' : ℕ → ℕ → Block) × (mirror_recovery c from to m ≡ some (tt, on_disk c disk' m))
        × Swept c to (λ row. row from) 0 (0 + blocks_per_disk c) m.disk disk'
  unfolding mirror_recovery copy_block
  mirror_recovery_lem from to m f1 fn t1 tn =
      sweep c to (λ row. row from) (copy_block c from to) m (blocks_per_disk c) 0 m.disk
        (λ b low high disk.
          let lt : b < blocks_per_disk c = omega arith in
          cc (
            read_block_lem c ok from b (record { first = f1; last = fn; before = lt })
                (on_disk c disk m),
            write_block_lem c ok to b (record { first = t1; last = tn; before = lt }) (disk from b)
                (on_disk c disk m),
          ))
