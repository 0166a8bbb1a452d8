-- ===== src/Log/Ops/Reserve.antt =====
-- The room that `begin_op` keeps in the log for the calls that it lets in.
use os2_project.Base.{
  ℕ, suc, ◌+◌, ◌-◌, ◌*◌, ◌^◌, ◌≤◌, ◌<◌, ◌≡◌, ◌⊎◌, inl, inr, refl, sym, ap, ◌∙◌, arith, false, List,
  [], ◌∷◌, ◌++◌, ltb, update, u32, ne→==, Bool-cases,
}
use os2_project.Raid.Types.{Block}
use os2_project.Log.{Log, done, sleeps, log_size, max_op_blocks, begin_op, end_op, log_write}
use os2_project.Log.Redo.{Outside}
use os2_project.Log.Commit.{Ready}
use os2_project.Log.Ops.{log_write_lem}

-- The number of calls in progress, and the blocks that they may still write.
abbrev pub calls : List ℕ → ℕ
calls [] = 0
calls (k ∷ ks) = suc (calls ks)

abbrev pub to_write : List ℕ → ℕ
to_write [] = 0
to_write (k ∷ ks) = k + to_write ks

abbrev pub AtMost : ℕ → List ℕ → Type 0
AtMost n [] = Unit
AtMost n (k ∷ ks) = (k ≤ n) × AtMost n ks

-- Each call in progress may write so many more blocks as the list says, and they fit the log.
pub record Reserved (s : Log) (left : List ℕ) : Type 0 where
  pub counted : s.outstanding ≡ calls left
  pub each : AtMost max_op_blocks left
  pub room : s.n + to_write left ≤ log_size
  pub few : s.outstanding ≤ 3

to_write-le : (ks : List ℕ) → AtMost max_op_blocks ks → to_write ks ≤ calls ks * max_op_blocks
to_write-le [] h = omega arith
to_write-le (k ∷ ks) h = omega (arith, to_write-le ks h.1)

calls_middle : (xs ys : List ℕ) (a : ℕ) → calls (xs ++ (a ∷ ys)) ≡ suc (calls (xs ++ ys))
calls_middle [] ys a = refl
calls_middle (x ∷ xs) ys a = ap suc (calls_middle xs ys a)

to_write_middle : (xs ys : List ℕ) (a : ℕ) → to_write (xs ++ (a ∷ ys)) ≡ a + to_write (xs ++ ys)
to_write_middle [] ys a = refl
to_write_middle (x ∷ xs) ys a = omega (arith, to_write_middle xs ys a)

AtMost-drop : (n : ℕ) (xs ys : List ℕ) (a : ℕ) → AtMost n (xs ++ (a ∷ ys)) → AtMost n (xs ++ ys)
AtMost-drop n [] ys a h = h.1
AtMost-drop n (x ∷ xs) ys a h = (h.0, AtMost-drop n xs ys a h.1)

AtMost-less :
    (n : ℕ) (xs ys : List ℕ) (a b : ℕ)
    → b ≤ a
    → AtMost n (xs ++ (a ∷ ys))
    → AtMost n (xs ++ (b ∷ ys))
AtMost-less n [] ys a b le h = (omega arith, h.1)
AtMost-less n (x ∷ xs) ys a b le h = (h.0, AtMost-less n xs ys a b le h.1)

-- While the calls in progress have room in the log for what they may still write, `begin_op`
-- sleeps, or it returns and the new call has room for MAXOPBLOCKS blocks too.
pub begin_op-Reserved :
    (s : Log) (left : List ℕ)
    → Reserved s left
    → (begin_op s ≡ sleeps)
      ⊎ ((s' : Log) × (begin_op s ≡ done tt s') × Reserved s' (max_op_blocks ∷ left))
unfolding begin_op
begin_op-Reserved s left r = elim (Bool-cases s.committing) [
  | inl busy ↦ inl (rw busy refl)
  | inr quiet ↦ elim (Bool-cases (ltb log_size (s.n + (s.outstanding + 1) * max_op_blocks))) [
    | inl tight ↦ inl (rw (quiet, tight) refl)
    | inr fits ↦
        let le : s.n + (s.outstanding + 1) * max_op_blocks ≤ log_size = ground (arith, fits) in
        inr (
          record s { outstanding = s.outstanding + 1 },
          rw (quiet, fits) refl,
          record {
            counted = omega (arith, r.counted);
            each = (omega arith, r.each);
            room = omega (arith, le, r.counted, to_write-le left r.each);
            few = omega (arith, le);
          },
        )
  ]
]

module _ (start size : ℕ) (s : Log) (r : Ready start size s) (xs ys : List ℕ) (a : ℕ) where
  -- A call between `begin_op` and `end_op` that may still write another block never finds the log
  -- full: with a log of more than LOGSIZE blocks, `log_write` of a block outside the log, whose
  -- buffer it has changed, returns, the transaction is in order, and the calls in progress keep
  -- room for what they may still write.
  pub log_write-Reserved :
      (b : ℕ) (x : Block)
      → Reserved s (xs ++ (suc a ∷ ys))
      → Outside start size b
      → b < 2 ^ 32
      → log_size < size
      → (s' : Log) × (log_write start size b (record s { buf = update s.buf b x }) ≡ done tt s')
        × Ready start size s'
        × Reserved s' (xs ++ (a ∷ ys))
  log_write-Reserved b x v o small big =
      let room : s.n < log_size = omega (arith, v.room, to_write_middle xs ys (suc a)) in
      let (s', w) =
        log_write_lem start size s r b x o small room (omega arith)
          (omega (arith, v.counted, calls_middle xs ys (suc a))) in
      (
        s',
        w.run,
        w.ready,
        record {
          counted =
              w.outstanding ∙ v.counted ∙ calls_middle xs ys (suc a) ∙ sym (calls_middle xs ys a);
          each = AtMost-less max_op_blocks xs ys (suc a) a (omega arith) v.each;
          room =
              omega
                (arith, v.room, w.grows, to_write_middle xs ys (suc a), to_write_middle xs ys a);
          few = omega (arith, w.outstanding, v.few);
        },
      )

-- A call that is not the last to end gives its room back.
pub end_op-Reserved :
    (start size : ℕ) (s : Log) (xs ys : List ℕ) (a : ℕ)
    → Reserved s (xs ++ (a ∷ ys))
    → s.committing ≡ false
    → 1 < s.outstanding
    → (s' : Log) × (end_op start size s ≡ done tt s') × Reserved s' (xs ++ ys)
unfolding end_op
end_op-Reserved start size s xs ys a v quiet more =
    let few : s.outstanding ≤ 3 = v.few in
    let left : u32 (s.outstanding + 2 ^ 32 - 1) ≡ s.outstanding - 1 = omega arith in
    (
      record s { outstanding = s.outstanding - 1 },
      rw (quiet, left, ne→== (s.outstanding - 1) 0 (omega arith)) refl,
      record {
        counted = omega (arith, v.counted, calls_middle xs ys a);
        each = AtMost-drop max_op_blocks xs ys a v.each;
        room = omega (arith, v.room, to_write_middle xs ys a);
        few = omega (arith, v.few);
      },
    )
