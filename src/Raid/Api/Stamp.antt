-- ===== src/Raid/Api/Stamp.antt =====
-- The loops of `raid_system_init` and `raid_system_destroy` that write block 0 of every disk.
use os2_project.Base.{
  ℕ, zero, suc, ◌+◌, ◌≤◌, ◌<◌, ◌≡◌, ◌≢◌, refl, subst, some, arith, ◌∙◌, sym, ℕ_discrete,
}
use os2_project.Raid.Types.{Block, Config, IsConfig, Machine, put}
use os2_project.Raid.Geometry.Places.{blocks_bounds}
use os2_project.Raid.Machine.{write_block}
use os2_project.Raid.Machine.Laws.{write_block_lem}
use os2_project.Raid.Rw.Locks.{on_disk}
use os2_project.Raid.Recovery.{for_range}
use os2_project.Raid.Volume.Laws.{put_self, put_ne}

-- Block 0 of the disks from `i` to `j - 1` holds `x`, and all else is as before.
pub record Stamped (x : Block) (i j : ℕ) (disk disk' : ℕ → ℕ → Block) : Type 0 where
  pub done : (d : ℕ) → i ≤ d → d < j → disk' d 0 ≡ x
  pub other : (d b : ℕ) → b ≢ 0 → disk' d b ≡ disk d b
  pub below : (d : ℕ) → d < i → disk' d 0 ≡ disk d 0
  pub above : (d : ℕ) → j ≤ d → disk' d 0 ≡ disk d 0

module _ (c : Config) (ok : IsConfig c) (x : Block) (m : Machine) where
  Stamped-step :
      (n i : ℕ) (disk : ℕ → ℕ → Block) {disk' : ℕ → ℕ → Block}
      → Stamped x (i + 1) (i + 1 + n) (put disk i 0 x) disk'
      → Stamped x i (i + suc n) disk disk'
  Stamped-step n i disk {disk'} s = record {
    done = λ d low high. elim (ℕ_discrete i d) [
      | yes e ↦ subst (λ k. disk' k 0 ≡ x) e (s.below i (omega arith) ∙ put_self disk i 0 x)
      | no ne ↦ s.done d (omega arith) (omega arith)
    ];
    other = λ d b ne. s.other d b ne ∙ put_ne disk i 0 x d b (λ _ same. ne (sym same));
    below = λ d lt.
        s.below d (omega arith) ∙ put_ne disk i 0 x d 0 (λ same _. absurd (omega (arith, same)));
    above = λ d le.
        s.above d (omega arith) ∙ put_ne disk i 0 x d 0 (λ same _. absurd (omega (arith, same)));
  }

  pub stamp :
      (n i : ℕ) (disk : ℕ → ℕ → Block)
      → 1 ≤ i
      → i + n ≤ c.disks + 1
      → (disk' : ℕ → ℕ → Block) × (for_range n i (λ d. write_block c d 0 x) (on_disk c disk m)
          ≡ some (tt, on_disk c disk' m))
        × Stamped x i (i + n) disk disk'
  unfolding for_range
  stamp zero i disk low high = (
    disk,
    refl,
    record {
      done = λ d l h. absurd (omega arith);
      other = λ d b ne. refl;
      below = λ d lt. refl;
      above = λ d le. refl;
    },
  )
  stamp (suc n) i disk low high =
      let (disk', run, s) = stamp n (i + 1) (put disk i 0 x) (omega arith) (omega arith) in
      (
        disk',
        cc (
          write_block_lem c ok i 0
              (record {
                first = low;
                last = omega arith;
                before = omega (arith, blocks_bounds c ok);
              })
              x (on_disk c disk m),
          run,
        ),
        Stamped-step n i disk s,
      )
