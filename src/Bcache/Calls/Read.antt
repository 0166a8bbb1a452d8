-- ===== src/Bcache/Calls/Read.antt =====
-- `bread`: the buffer that it gives, and what the cache shows of every block afterwards.
use os2_project.Base.{
  In, ℕ, ◌+◌, ◌^◌, ◌<◌, ◌≡◌, ◌≢◌, inl, inr, refl, ap, sym, subst, ◌∙◌, arith, true, false, none,
  some, Bool-cases, u32, if◌then◌else◌, update_self,
}
use os2_project.Bcache.{Buf, Bcache, bread, find_cached, find_unused}
use os2_project.Bcache.Lookup.{
  For, find_cached-cases, find_unused-cases, shown, contents, IsValid, contents_absent,
  contents_cached, IsValid-one,
}
use os2_project.Bcache.Calls.{with_buf, got, fresh, filled, bread_cached, bread_unused}
use os2_project.Bcache.Calls.Replace.{with_buf-IsValid, with_buf-contents}

-- What `bread` does: the buffer `i` is locked and has the contents of the block; the cache is valid
-- and shows the same of every block, and nothing is written to the disk.
pub record Reads (c : Bcache) (dev blockno i : ℕ) (c' : Bcache) : Type 0 where
  pub run : bread dev blockno c ≡ some (i, c')
  pub inside : In i c'.order
  pub block : For (c'.buf i) dev blockno
  pub bytes : (c'.buf i).bytes ≡ contents c dev blockno
  pub filled : (c'.buf i).valid ≡ true
  pub locked : (c'.buf i).locked ≡ true
  pub valid : IsValid c'
  pub same : (d k : ℕ) → d ≢ 0 → contents c' d k ≡ contents c d k
  pub disk : c'.disk ≡ c.disk

module _ (c : Bcache) (v : IsValid c) (dev blockno : ℕ) (used : dev ≢ 0) where
  module _ (i : ℕ) (inside : In i c.order) (y : Buf) (key : For y dev blockno)
      (in_use : y.refcnt ≢ 0) (valid : y.valid ≡ true) (locked : y.locked ≡ true)
      (run : bread dev blockno c ≡ some (i, with_buf c i y))
      (bytes : y.bytes ≡ contents c dev blockno)
      (alone : (j : ℕ) → In j c.order → i ≢ j → For (c.buf j) dev blockno → ⊥)
      (gone : (d k : ℕ)
        → For (c.buf i) d k
        → (For y d k → ⊥)
        → shown (c.buf i) (c.disk k) ≡ c.disk k) where
    alone_y : (j : ℕ) → In j c.order → i ≢ j → For (c.buf j) y.dev y.blockno → ⊥
    alone_y j hj ne h = alone j hj ne (h.0 ∙ key.0, h.1 ∙ key.1)

    mine : contents c y.dev y.blockno ≡ shown y (c.disk y.blockno)
    mine =
        ap (λ d. contents c d y.blockno) key.0
        ∙ ap (contents c dev) key.1
        ∙ sym bytes
        ∙ sym (ap (λ b. if b then y.bytes else c.disk y.blockno) valid)

    replaced : Reads c dev blockno i (with_buf c i y)
    replaced =
        let used_y : y.dev ≢ 0 = λ z. used (sym key.0 ∙ z) in
        let at : (with_buf c i y).buf i ≡ y = update_self c.buf i y in
        record {
          run = run;
          inside = inside;
          block = subst (λ b. For b dev blockno) (sym at) key;
          bytes = ap (λ b. b.bytes) at ∙ bytes;
          filled = ap (λ b. b.valid) at ∙ valid;
          locked = ap (λ b. b.locked) at ∙ locked;
          valid = with_buf-IsValid c v i inside y used_y in_use alone_y;
          same = with_buf-contents c v i inside y used_y in_use alone_y mine gone;
          disk = refl;
        }

  -- The block is in the cache.
  cached :
      (i : ℕ)
      → In i c.order
      → find_cached c.buf dev blockno c.order ≡ some i
      → For (c.buf i) dev blockno
      → (c.buf i).locked ≡ false
      → (c.buf i).refcnt + 1 < 2 ^ 32
      → (y : Buf) × (filled c (got (c.buf i)) ≡ y) × Reads c dev blockno i (with_buf c i y)
  cached i inside found here free few =
      let b = c.buf i in
      let shows : contents c dev blockno ≡ shown b (c.disk blockno) =
        contents_cached c dev blockno (IsValid-one c v dev blockno used) i inside here in
      let alone : (j : ℕ) → In j c.order → i ≢ j → For (c.buf j) dev blockno → ⊥ =
        λ j hj ne h. ne (IsValid-one c v dev blockno used i j inside hj here h) in
      let run = bread_cached dev blockno i c found free in
      let counts : u32 (b.refcnt + 1) ≢ 0 = omega arith in
      elim (Bool-cases b.valid) [
        | inl valid ↦
            let y : Buf = got b in
            let e : filled c (got b) ≡ y =
              ap
                (λ t.
                  if t then got b else record (got b) { bytes = c.disk b.blockno; valid = true })
                valid in
            (
              y,
              e,
              replaced i inside y here counts valid refl
                  (run ∙ ap (λ z. some (i, with_buf c i z)) e)
                  (sym (shows ∙ ap (λ t. if t then b.bytes else c.disk blockno) valid)) alone
                  (λ d k h no_match. absurd (no_match h)),
            )
        | inr not_valid ↦
            let y : Buf = record (got b) { bytes = c.disk b.blockno; valid = true } in
            let e : filled c (got b) ≡ y =
              ap
                (λ t.
                  if t then got b else record (got b) { bytes = c.disk b.blockno; valid = true })
                not_valid in
            (
              y,
              e,
              replaced i inside y here counts refl refl (run ∙ ap (λ z. some (i, with_buf c i z)) e)
                  (ap c.disk here.1
                    ∙ sym (shows ∙ ap (λ t. if t then b.bytes else c.disk blockno) not_valid))
                  alone (λ d k h no_match. absurd (no_match h)),
            )
      ]

  -- It is not, and the buffer is recycled.
  recycled :
      (i : ℕ)
      → In i c.order
      → find_unused c.buf c.order ≡ some i
      → (c.buf i).refcnt ≡ 0
      → find_cached c.buf dev blockno c.order ≡ none
      → ((j : ℕ) → In j c.order → For (c.buf j) dev blockno → ⊥)
      → (c' : Bcache) × Reads c dev blockno i c'
  recycled i inside found unused missing nowhere =
      let b = c.buf i in
      let y : Buf = record (fresh b dev blockno) { bytes = c.disk blockno; valid = true } in
      (
        with_buf c i y,
        replaced i inside y (refl, refl) (omega arith) refl refl
            (bread_unused dev blockno i c missing found (v.idle i inside unused))
            (sym (contents_absent c dev blockno nowhere)) (λ j hj ne h. nowhere j hj h)
            (λ d k h no_match. elim (Bool-cases b.valid) [
              | inl valid ↦
                  ap (λ t. if t then b.bytes else c.disk k) valid
                  ∙ v.clean i inside unused valid
                  ∙ ap c.disk h.1
              | inr not_valid ↦ ap (λ t. if t then b.bytes else c.disk k) not_valid
            ]),
      )

  -- In a valid cache where a buffer is unused and one for the block, if there is any, is not
  -- locked, and its count does not overflow, `bread` returns a locked buffer with the contents of
  -- the block: the cache is valid, it shows the same of every block of every device but 0, and the
  -- disk is not written to.
  pub bread_lem :
      ((i : ℕ)
        → In i c.order
        → For (c.buf i) dev blockno
        → ((c.buf i).locked ≡ false) × ((c.buf i).refcnt + 1 < 2 ^ 32))
      → (j : ℕ) → In j c.order
      → (c.buf j).refcnt ≡ 0
      → (i : ℕ) × (c' : Bcache) × Reads c dev blockno i c'
  bread_lem free j hj unused = elim (find_cached-cases c.buf dev blockno c.order) [
    | inl (i, found, inside, here) ↦
        let (open_lock, few) = free i inside here in
        let (y, _, r) = cached i inside found here open_lock few in (i, with_buf c i y, r)
    | inr (missing, nowhere) ↦ elim (find_unused-cases c.buf c.order) [
      | inl (i, found, inside, z) ↦
          let (c', r) = recycled i inside found z missing nowhere in (i, c', r)
      | inr (_, busy) ↦ absurd (busy j hj unused)
    ]
  ]
