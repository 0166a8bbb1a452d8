-- ===== src/Bcache/Calls/Replace.antt =====
-- A buffer of the cache is replaced: what the cache shows of every block.
use os2_project.Base.{
  In, ℕ, ◌≡◌, ◌≢◌, inl, inr, ap, ap₂, sym, subst, ◌∙◌, true, false, ne→==, ℕ_discrete, update_self,
  update-ne,
}
use os2_project.Bcache.{Buf, Bcache}
use os2_project.Bcache.Lookup.{
  For, For-cases, find_cached-cases, shown, contents, IsValid, contents_absent, contents_cached,
  IsValid-one,
}
use os2_project.Bcache.Calls.{with_buf}

-- One buffer of a valid cache is replaced by one in use, for a block that no other buffer is for.
module _ (c : Bcache) (v : IsValid c) (i : ℕ) (inside : In i c.order) (y : Buf) (used : y.dev ≢ 0)
    (in_use : y.refcnt ≢ 0)
    (alone : (j : ℕ) → In j c.order → i ≢ j → For (c.buf j) y.dev y.blockno → ⊥) where
  c' : Bcache
  c' = with_buf c i y

  at : (with_buf c i y).buf i ≡ y
  at = update_self c.buf i y

  beside : (j : ℕ) → i ≢ j → (with_buf c i y).buf j ≡ c.buf j
  beside j ne = update-ne c.buf i j y ne

  unique_after :
      (j k : ℕ)
      → In j c.order
      → In k c.order
      → ((with_buf c i y).buf j).dev ≢ 0
      → For ((with_buf c i y).buf k) ((with_buf c i y).buf j).dev ((with_buf c i y).buf j).blockno
      → j ≡ k
  unique_after j k hj hk nz same = elim (ℕ_discrete i j) [
    | yes e ↦ elim (ℕ_discrete i k) [
      | yes f ↦ sym e ∙ f
      | no nf ↦
          let b : (with_buf c i y).buf j ≡ y = ap (with_buf c i y).buf (sym e) ∙ at in
          absurd (
            alone k hk nf (
              ap (λ z. z.dev) (sym (beside k nf)) ∙ same.0 ∙ ap (λ z. z.dev) b,
              ap (λ z. z.blockno) (sym (beside k nf)) ∙ same.1 ∙ ap (λ z. z.blockno) b,
            ))
    ]
    | no ne ↦ elim (ℕ_discrete i k) [
      | yes f ↦
          let b : (with_buf c i y).buf k ≡ y = ap (with_buf c i y).buf (sym f) ∙ at in
          absurd (
            alone j hj ne (
              ap (λ z. z.dev) (sym (beside j ne)) ∙ sym same.0 ∙ ap (λ z. z.dev) b,
              ap (λ z. z.blockno) (sym (beside j ne)) ∙ sym same.1 ∙ ap (λ z. z.blockno) b,
            ))
      | no nf ↦
          v.unique j k hj hk (λ z. nz (ap (λ b. b.dev) (beside j ne) ∙ z))
            (
              ap (λ z. z.dev) (sym (beside k nf)) ∙ same.0 ∙ ap (λ z. z.dev) (beside j ne),
              ap (λ z. z.blockno) (sym (beside k nf)) ∙ same.1 ∙ ap (λ z. z.blockno) (beside j ne),
            )
    ]
  ]

  pub with_buf-IsValid : IsValid (with_buf c i y)
  with_buf-IsValid = record {
    unique = unique_after;
    clean = λ j hj. elim (ℕ_discrete i j) [
      | yes e ↦
          subst
            (λ k.
              ((with_buf c i y).buf k).refcnt ≡ 0
              → ((with_buf c i y).buf k).valid ≡ true
              → ((with_buf c i y).buf k).bytes ≡ c.disk ((with_buf c i y).buf k).blockno)
            e (λ z. absurd (in_use (ap (λ b. b.refcnt) (sym at) ∙ z)))
      | no ne ↦ rw (ne→== i j ne) (v.clean j hj)
    ];
    idle = λ j hj. elim (ℕ_discrete i j) [
      | yes e ↦
          subst (λ k. ((with_buf c i y).buf k).refcnt ≡ 0 → ((with_buf c i y).buf k).locked ≡ false)
            e (λ z. absurd (in_use (ap (λ b. b.refcnt) (sym at) ∙ z)))
      | no ne ↦ rw (ne→== i j ne) (v.idle j hj)
    ];
  }

  module _ (mine : contents c y.dev y.blockno ≡ shown y (c.disk y.blockno))
      (gone : (dev blockno : ℕ)
        → For (c.buf i) dev blockno
        → (For y dev blockno → ⊥)
        → shown (c.buf i) (c.disk blockno) ≡ c.disk blockno) where
    not_here :
        (dev blockno : ℕ)
        → (For y dev blockno → ⊥)
        → ((j : ℕ) → In j c.order → i ≢ j → For (c.buf j) dev blockno → ⊥)
        → contents (with_buf c i y) dev blockno ≡ c.disk blockno
    not_here dev blockno other nowhere = contents_absent (with_buf c i y) dev blockno (λ j hj h.
        elim (ℕ_discrete i j) [
          | yes e ↦ other (subst (λ b. For b dev blockno) (ap (with_buf c i y).buf (sym e) ∙ at) h)
          | no ne ↦ nowhere j hj ne (subst (λ b. For b dev blockno) (beside j ne) h)
        ])

    pub with_buf-contents :
        (dev blockno : ℕ) → dev ≢ 0 → contents (with_buf c i y) dev blockno ≡ contents c dev blockno
    with_buf-contents dev blockno nz =
        let one = IsValid-one (with_buf c i y) with_buf-IsValid dev blockno nz in
        elim (For-cases y dev blockno) [
          | inl (_, (e, f)) ↦
              contents_cached (with_buf c i y) dev blockno one i inside
                (subst (λ b. For b dev blockno) (sym at) (e, f))
              ∙ ap (λ b. shown b (c.disk blockno)) at
              ∙ ap (λ k. shown y (c.disk k)) (sym f)
              ∙ sym mine
              ∙ ap₂ (contents c) e f
          | inr (_, other) ↦ elim (find_cached-cases c.buf dev blockno c.order) [
            | inl (j, found, hj, here) ↦ elim (ℕ_discrete i j) [
              | yes e ↦
                  let mine' : For (c.buf i) dev blockno =
                    subst (λ k. For (c.buf k) dev blockno) (sym e) here in
                  not_here dev blockno other
                    (λ k hk ne h. ne (IsValid-one c v dev blockno nz i k inside hk mine' h))
                  ∙ sym (gone dev blockno mine' other)
                  ∙ sym (
                      contents_cached c dev blockno (IsValid-one c v dev blockno nz) i inside mine')
              | no ne ↦
                  contents_cached (with_buf c i y) dev blockno one j hj
                    (subst (λ b. For b dev blockno) (sym (beside j ne)) here)
                  ∙ ap (λ b. shown b (c.disk blockno)) (beside j ne)
                  ∙ sym (contents_cached c dev blockno (IsValid-one c v dev blockno nz) j hj here)
            ]
            | inr (none_left, missing) ↦
                not_here dev blockno other (λ k hk ne h. missing k hk h)
                ∙ sym (contents_absent c dev blockno missing)
          ]
        ]
