-- ===== src/Log/Ops.antt =====
-- `begin_op`, `log_write` and `end_op`: a transaction grows, keeps its place in the log, and commits.
pub mod Crash
pub mod Reserve
use os2_project.Base.{
  lt→leb, ℕ, zero, suc, ◌+◌, ◌-◌, ◌*◌, ◌^◌, ◌≤◌, ◌<◌, ◌≡◌, ◌≢◌, ◌⊎◌, inl, inr, refl, ap, sym, subst,
  ◌∙◌, arith, eq→==, ne→==, ℕ_discrete, update, update_self, update-ne, Bool, true, false, ◌||◌,
  if◌then◌else◌, ltb, lt→ltb, ◌==◌, le→ltb, leb,
}
use os2_project.Raid.Types.{Block}
use os2_project.Log.{Log, Outcome, done, log_size, log_write, find_from}
use os2_project.Log.Redo.{Homed, Outside, head_n, logged}
use os2_project.Log.Commit.{Ready, committed}

-- The search finds an entry for the block, or there is none.
find_from_lem :
    (k i : ℕ) (block : ℕ → ℕ) (b : ℕ)
    → let j = find_from k i block b in
      ((i ≤ j) × (j < i + k) × (block j ≡ b))
      ⊎ ((j ≡ i + k) × ((m : ℕ) → i ≤ m → m < i + k → block m ≢ b))
unfolding find_from
find_from_lem zero i block b = inr (omega arith, λ m low high. absurd (omega arith))
find_from_lem (suc k) i block b = elim (ℕ_discrete (block i) b) [
  | yes e ↦ rw (eq→== (block i) b e) (inl (omega arith, omega arith, e))
  | no ne ↦ rw (ne→== (block i) b ne) (elim (find_from_lem k (i + 1) block b) [
    | inl (low, high, e) ↦ inl (omega arith, omega arith, e)
    | inr (at, none_there) ↦ inr (
      omega arith,
      λ m low high. elim (ℕ_discrete m i) [
        | yes e ↦ λ h. ne (ap block (sym e) ∙ h)
        | no other ↦ none_there m (omega arith) (omega arith)
      ],
    )
  ])
]

logged-ext :
    (start size n : ℕ) (block block' : ℕ → ℕ) (b : ℕ)
    → ((k : ℕ) → k < n → block k ≡ block' k)
    → logged start size n block b ≡ logged start size n block' b
logged-ext start size zero block block' b h = refl
logged-ext start size (suc n) block block' b h =
    rw (h n (omega arith), logged-ext start size n block block' b (λ k lt. h k (omega arith))) refl

logged-Homed :
    (start size n : ℕ) (block : ℕ → ℕ) (b : ℕ)
    → Homed n block b
    → logged start size n block b ≡ true
logged-Homed start size zero block b (k, lt, e) = absurd (omega arith)
logged-Homed start size (suc n) block b (k, lt, e) = elim (ℕ_discrete (block n) b) [
  | yes same ↦ rw (eq→== (block n) b same) refl
  | no ne ↦ rw (ne→== (block n) b ne) (
      logged-Homed start size n block b (
        k,
        elim (ℕ_discrete k n) [
          | yes last ↦ absurd (ne (ap block (sym last) ∙ e))
          | no other ↦ omega arith
        ],
        e,
      ))
]

module _ (start size : ℕ) (s : Log) (r : Ready start size s) (b : ℕ) (x : Block)
    (o : Outside start size b) (small : b < 2 ^ 32) (room : s.n < log_size)
    (inside : s.n + 1 < size) (counted : 0 < s.outstanding) where
  -- The state in which the buffer of `b` has been changed.
  abbrev changed : Log
  changed = record s { buf = update s.buf b x }

  -- What `log_write` does to a transaction.
  pub record Wrote (s' : Log) : Type 0 where
    pub run : log_write start size b changed ≡ done tt s'
    pub ready : Ready start size s'
    pub contents :
        (k : ℕ) → committed start size s' k ≡ (if b == k then x else committed start size s k)
    pub grows : s'.n ≤ s.n + 1
    pub outstanding : s'.outstanding ≡ s.outstanding
    pub disk : s'.disk ≡ s.disk

  clean_after :
      (n : ℕ) (block : ℕ → ℕ)
      → ((k : ℕ) → Homed s.n s.block k → Homed n block k)
      → Homed n block b
      → (k : ℕ) → (update s.buf b x k ≡ s.disk k) ⊎ Homed n block k
  clean_after n block keep here k = elim (ℕ_discrete b k) [
    | yes e ↦ inr (subst (Homed n block) e here)
    | no ne ↦ rw (ne→== b k ne) (elim (r.clean k) [ inl same ↦ inl same | inr h ↦ inr (keep k h) ])
  ]

  module _ (n' : ℕ) (block' pins' : ℕ → ℕ) where
    abbrev after : Log
    after = record changed { n = n'; block = block'; pins = pins' }

    -- What the two cases have in common: one entry for the block, and the others as before.
    record Entered : Type 0 where
      run : log_write start size b changed ≡ done tt after
      low : s.n ≤ n'
      high : n' ≤ s.n + 1
      entries : (k : ℕ) → k < s.n → s.block k ≡ block' k
      last : (k : ℕ) → k < n' → (k < s.n) ⊎ (block' k ≡ b)
      here : Homed n' block' b
      others : (k : ℕ) → b ≢ k → logged start size n' block' k ≡ logged start size s.n s.block k

    entered-Wrote : Entered → Wrote after
    entered-Wrote i = record {
      run = i.run;
      ready = record {
        few = omega (arith, i.high);
        fits = omega (arith, i.high);
        homes = λ k lt. elim (i.last k lt) [
          | inl old ↦ subst (Outside start size) (i.entries k old) (r.homes k old)
          | inr e ↦ subst (Outside start size) (sym e) o
        ];
        small = λ k lt. elim (i.last k lt) [
          | inl old ↦ subst (λ h. h < 2 ^ 32) (i.entries k old) (r.small k old)
          | inr e ↦ subst (λ h. h < 2 ^ 32) (sym e) small
        ];
        empty = r.empty;
        clean =
            clean_after n' block'
              (λ k (j, lt, e). (j, omega (arith, i.low), sym (i.entries j lt) ∙ e)) i.here;
      };
      contents = λ k. elim (ℕ_discrete b k) [
        | yes e ↦
            rw
              (
                eq→== b k e,
                subst (λ j. logged start size n' block' j ≡ true) e
                    (logged-Homed start size n' block' b i.here),
              )
              refl
        | no ne ↦ rw (ne→== b k ne, i.others k ne) refl
      ];
      grows = i.high;
      outstanding = refl;
      disk = refl;
    }

  -- The block has an entry already.
  absorbed :
      (i : ℕ) → i < s.n → s.block i ≡ b → find_from s.n 0 s.block b ≡ i → (s' : Log) × Wrote s'
  unfolding log_write
  absorbed i lt e found =
      let block' = update s.block i b in
      let same : (k : ℕ) → s.block k ≡ block' k = λ k. elim (ℕ_discrete i k) [
        | yes at ↦ rw (eq→== i k at) (ap s.block (sym at) ∙ e)
        | no ne ↦ rw (ne→== i k ne) refl
      ] in
      (
        after s.n block' s.pins,
        entered-Wrote s.n block' s.pins (record {
          run =
              rw
                (
                  lt→leb s.n log_size room,
                  lt→leb s.n (size - 1) (omega arith),
                  le→ltb s.outstanding 1 (omega arith),
                  found,
                  ne→== i s.n (omega arith),
                )
                refl;
          low = omega arith;
          high = omega arith;
          entries = λ k k_lt. same k;
          last = λ k k_lt. inl k_lt;
          here = (i, lt, update_self s.block i b);
          others = λ k ne. sym (logged-ext start size s.n s.block block' k (λ j j_lt. same j));
        }),
      )

  -- The block gets the next entry.
  appended :
      ((m : ℕ) → m < s.n → s.block m ≢ b) → find_from s.n 0 s.block b ≡ s.n → (s' : Log) × Wrote s'
  unfolding log_write
  appended fresh found =
      let block' = update s.block s.n b in
      let same : (k : ℕ) → k < s.n → s.block k ≡ block' k =
        λ k lt. sym (update-ne s.block s.n k b (omega arith)) in
      let pins' = update s.pins b (s.pins b + 1) in
      (
        after (s.n + 1) block' pins',
        entered-Wrote (s.n + 1) block' pins' (record {
          run =
              rw
                (
                  lt→leb s.n log_size room,
                  lt→leb s.n (size - 1) (omega arith),
                  le→ltb s.outstanding 1 (omega arith),
                  found,
                  eq→== s.n s.n refl,
                )
                refl;
          low = omega arith;
          high = omega arith;
          entries = same;
          last = λ k k_lt. elim (ℕ_discrete s.n k) [
            | yes e ↦ inr (rw (eq→== s.n k e) refl)
            | no ne ↦ inl (omega arith)
          ];
          here = (s.n, omega arith, update_self s.block s.n b);
          others = λ k ne.
              let next : s.n + 1 ≡ suc s.n = omega arith in
              ap (λ j. logged start size j block' k) next
              ∙ ap (λ j. (j == k) || logged start size s.n block' k) (update_self s.block s.n b)
              ∙ ap (λ t. t || logged start size s.n block' k) (ne→== b k ne)
              ∙ sym (logged-ext start size s.n s.block block' k same);
        }),
      )

  -- After the buffer of a block outside the log has been changed, with room in the log and a call
  -- of `begin_op` before it, `log_write` returns, nothing is written to the disk, and the
  -- transaction is what it was with the block's new contents; it takes at most one new entry.
  pub log_write_lem : (s' : Log) × Wrote s'
  log_write_lem = elim (find_from_lem s.n 0 s.block b) [
    | inl (low, high, e) ↦ absorbed (find_from s.n 0 s.block b) (omega arith) e refl
    | inr (at, fresh) ↦ appended (λ m lt. fresh m (omega arith) (omega arith)) (omega arith)
  ]
