-- ===== src/Raid/Recovery/Rebuild.antt =====
-- `raid4_and_5_recovery`: which disks it takes together to rebuild a block, and where it faults.
use os2_project.Base.{
  ℕ, zero, suc, ◌+◌, ◌-◌, ◌%◌, ◌≤◌, ◌<◌, ◌≡◌, refl, ap, none, some, arith, ◌∙◌, sym, fun_ext,
  bit_xor, u64, ℕ_discrete,
}
use os2_project.Base.Bits.{xor_assoc, xor-zero}
use os2_project.Base.Fold.{xor_below, xor_below-ext, xor_cycle, xor_below-shift, xor_cycle_below}
use native.Mathlib.Nat.{mod-eq_of_lt, mod_self}
use os2_project.Raid.Geometry.Places.{blocks_bounds}
use os2_project.Raid.Types.{Block, Config, IsConfig, blocks_per_disk, Machine, put}
use os2_project.Raid.Machine.{kfree, read_block}
use os2_project.Raid.Machine.Laws.{Reaches, read_block_lem, write_block_lem, kalloc_lem}
use os2_project.Raid.Rw.Locks.{on_disk}
use os2_project.Raid.Recovery.{for_range, gather, rebuild_block, raid4_and_5_recovery}
use os2_project.Raid.Recovery.Sweep.{Swept, sweep}

module _ (c : Config) (ok : IsConfig c) where
  -- Disk `data_disk + j`, before the disks wrap around.
  no_wrap : (x : ℕ) → x ≤ c.disks → u64 x % (c.disks + 1) ≡ x
  no_wrap x h =
      let e : u64 x ≡ x = omega (arith, ok.few) in
      ap (λ t. t % (c.disks + 1)) e ∙ mod-eq_of_lt {n = x} {m = c.disks + 1} (omega arith)

  wraps : u64 (c.disks + 1) % (c.disks + 1) ≡ 0
  wraps =
      let e : u64 (c.disks + 1) ≡ c.disks + 1 = omega (arith, ok.few) in
      ap (λ t. t % (c.disks + 1)) e ∙ mod_self (c.disks + 1)

  gather_lem :
      (data_disk b count j : ℕ) (acc : Block) (m : Machine)
      → b < blocks_per_disk c
      → 0 < m.free_pages
      → 1 ≤ data_disk
      → data_disk + j + count ≤ suc c.disks
      → gather c data_disk b count j acc m
        ≡ some (
          (λ k.
              bit_xor (acc k) (xor_cycle (suc c.disks) (data_disk + j) count (λ e. m.disk e b k))),
          m,
        )
  unfolding gather xor_cycle kfree
  gather_lem data_disk b zero j acc m lt spare low high =
      ap (λ x. some (x, m)) (fun_ext λ k. sym (xor-zero (acc k)))
  gather_lem data_disk b (suc count) j acc m lt spare low high =
      let d = u64 (data_disk + j) % (c.disks + 1) in
      let here : d ≡ data_disk + j = no_wrap (data_disk + j) (omega arith) in
      let taken : Machine = record m { free_pages = m.free_pages - 1 } in
      let back : m.free_pages - 1 + 1 ≡ m.free_pages = omega arith in
      let in_array : Reaches c ok d b = record {
        first = omega (arith, here);
        last = omega (arith, here);
        before = lt;
      } in
      let x = λ (k : ℕ). bit_xor (acc k) (m.disk d b k) in
      let same : d ≡ (data_disk + j) % suc c.disks =
        here ∙ sym (mod-eq_of_lt {n = data_disk + j} {m = suc c.disks} (omega arith)) in
      let next : data_disk + (j + 1) ≡ suc (data_disk + j) = omega arith in
      let rest = λ (t k : ℕ). xor_cycle (suc c.disks) t count (λ e. m.disk e b k) in
      let final : (λ (k : ℕ). bit_xor (x k) (rest (data_disk + (j + 1)) k)) ≡ (λ (k : ℕ).
        bit_xor (acc k)
          (bit_xor (m.disk ((data_disk + j) % suc c.disks) b k) (rest (suc (data_disk + j)) k))) =
        fun_ext λ k.
          ap (λ t. bit_xor (x k) (rest t k)) next
          ∙ xor_assoc (acc k) (m.disk d b k) (rest (suc (data_disk + j)) k)
          ∙ ap (λ t. bit_xor (acc k) (bit_xor (m.disk t b k) (rest (suc (data_disk + j)) k)))
              same in
      cc (
        kalloc_lem m spare,
        read_block_lem c ok d b in_array taken,
        back,
        gather_lem data_disk b count (j + 1) x m lt spare low (omega arith),
        final,
      )

  -- What is written to a block of disk 1: the sum of the other disks of its stripe.
  abbrev pub rebuilt : (ℕ → Block) → Block
  rebuilt row k = xor_below (c.disks - 1) (λ e. row (suc (suc e)) k)

  rebuild_block_lem :
      (b : ℕ) (m : Machine)
      → b < blocks_per_disk c
      → 0 < m.free_pages
      → rebuild_block c 1 b m ≡ some (tt, on_disk c (put m.disk 1 b (rebuilt (λ e. m.disk e b))) m)
  unfolding rebuild_block
  rebuild_block_lem b m lt spare =
      let dd = u64 (1 + 1) % (c.disks + 1) in
      let here : dd ≡ 2 = no_wrap (1 + 1) (omega (arith, ok.enough)) in
      let second : Reaches c ok dd b = record {
        first = omega (arith, here);
        last = omega (arith, here, ok.enough);
        before = lt;
      } in
      let k' = c.disks - 1 - 1 in
      let sum : (λ (k : ℕ).
        bit_xor (m.disk dd b k) (xor_cycle (suc c.disks) (dd + 1) k' (λ e. m.disk e b k)))
          ≡ rebuilt (λ e. m.disk e b) =
        fun_ext λ k. rw here (
          ap (bit_xor (m.disk 2 b k))
            (xor_cycle_below (suc c.disks) 3 k' (λ e. m.disk e b k) (omega (arith, ok.enough)))
          ∙ ap (bit_xor (m.disk 2 b k)) (
              xor_below-ext k' (λ e. m.disk (3 + e) b k) (λ e. m.disk (suc (suc (suc e))) b k)
                (λ e _. ap (λ d. m.disk d b k) (omega arith)))
          ∙ sym (xor_below-shift k' (λ e. m.disk (suc (suc e)) b k))
          ∙ ap (λ t. xor_below t (λ e. m.disk (suc (suc e)) b k)) (omega (arith, ok.enough))) in
      cc (
        read_block_lem c ok dd b second m,
        gather_lem dd b k' 1 (m.disk dd b) m lt spare (omega (arith, here))
            (omega (arith, here, ok.enough)),
        write_block_lem c ok 1 b
            (record { first = omega arith; last = omega (arith, ok.enough); before = lt })
            (rebuilt (λ e. m.disk e b)) m,
        sum,
      )

  -- `raid4_and_5_recovery` writes the rebuilt blocks to disk 1, and changes nothing else.
  pub raid4_and_5_recovery_lem :
      (m : Machine)
      → 0 < m.free_pages
      → (disk' : ℕ → ℕ → Block) × (raid4_and_5_recovery c 1 m ≡ some (tt, on_disk c disk' m))
        × Swept c 1 rebuilt 1 (1 + (blocks_per_disk c - 1)) m.disk disk'
  unfolding raid4_and_5_recovery
  raid4_and_5_recovery_lem m spare =
      sweep c 1 rebuilt (rebuild_block c 1) m (blocks_per_disk c - 1) 1 m.disk (λ b first last disk.
        rebuild_block_lem b (on_disk c disk m) (omega (arith, blocks_bounds c ok)) spare)

  -- There is no transfer buffer for disk 0.
  read_block_zero : (b : ℕ) (m : Machine) → read_block c 0 b m ≡ none
  unfolding read_block
  read_block_zero b m = refl

  gather_faults :
      (data_disk b count j : ℕ) (acc : Block) (m : Machine)
      → b < blocks_per_disk c
      → 0 < m.free_pages
      → 1 ≤ data_disk
      → data_disk + j ≤ suc c.disks
      → suc c.disks < data_disk + j + count
      → gather c data_disk b count j acc m ≡ none
  unfolding gather kfree
  gather_faults data_disk b zero j acc m lt spare low high last = absurd (omega arith)
  gather_faults data_disk b (suc count) j acc m lt spare low high last =
      let d = u64 (data_disk + j) % (c.disks + 1) in
      let taken : Machine = record m { free_pages = m.free_pages - 1 } in
      elim (ℕ_discrete (data_disk + j) (c.disks + 1)) [
        | yes e ↦
            let zeroth : d ≡ 0 = ap (λ t. u64 t % (c.disks + 1)) e ∙ wraps in
            cc (kalloc_lem m spare, zeroth, read_block_zero b taken)
        | no ne ↦
            let here : d ≡ data_disk + j = no_wrap (data_disk + j) (omega arith) in
            let in_array : Reaches c ok d b = record {
              first = omega (arith, here);
              last = omega (arith, here);
              before = lt;
            } in
            let back : m.free_pages - 1 + 1 ≡ m.free_pages = omega arith in
            cc (
              kalloc_lem m spare,
              read_block_lem c ok d b in_array taken,
              back,
              gather_faults data_disk b count (j + 1) (λ k. bit_xor (acc k) (m.disk d b k)) m lt
                  spare low (omega arith) (omega arith),
            )
      ]

  rebuild_block_faults :
      (r b : ℕ) (m : Machine)
      → b < blocks_per_disk c
      → 0 < m.free_pages
      → 2 ≤ r
      → r ≤ c.disks
      → rebuild_block c r b m ≡ none
  unfolding rebuild_block
  rebuild_block_faults r b m lt spare low high =
      let dd = u64 (r + 1) % (c.disks + 1) in
      elim (ℕ_discrete r c.disks) [
        | yes e ↦
            let zeroth : dd ≡ 0 = ap (λ t. u64 (t + 1) % (c.disks + 1)) e ∙ wraps in
            cc (zeroth, read_block_zero b m)
        | no ne ↦
            let here : dd ≡ r + 1 = no_wrap (r + 1) (omega arith) in
            let in_array : Reaches c ok dd b = record {
              first = omega (arith, here);
              last = omega (arith, here);
              before = lt;
            } in
            cc (
              read_block_lem c ok dd b in_array m,
              gather_faults dd b (c.disks - 1 - 1) 1 (m.disk dd b) m lt spare (omega (arith, here))
                  (omega (arith, here)) (omega (arith, here)),
            )
      ]

  -- For any other disk `raid4_and_5_recovery` faults in its first round.
  pub raid4_and_5_recovery_faults :
      (r : ℕ) (m : Machine)
      → 0 < m.free_pages
      → 2 ≤ r
      → r ≤ c.disks
      → raid4_and_5_recovery c r m ≡ none
  unfolding raid4_and_5_recovery for_range
  raid4_and_5_recovery_faults r m spare low high =
      let some_rows : blocks_per_disk c - 1 ≡ suc (blocks_per_disk c - 2) =
        omega (arith, blocks_bounds c ok) in
      rw some_rows
        (cc (rebuild_block_faults r 1 m (omega (arith, blocks_bounds c ok)) spare low high))
