-- ===== src/Bcache/Calls/Write.antt =====
-- `brelse`: the cache after a buffer has been given back.
use os2_project.Base.{
  In, ℕ, ◌+◌, ◌-◌, ◌^◌, ◌<◌, ◌≡◌, ◌≢◌, inl, inr, refl, ap, sym, subst, ◌∙◌, arith, true, false,
  some, List, [], ◌∷◌, if◌then◌else◌, ◌==◌, eq→==, ne→==, ℕ_discrete, update, u32, ==_self,
}
use os2_project.Bcache.{Buf, Bcache, brelse, without}
use os2_project.Bcache.Lookup.{
  For, find_cached-cases, shown, contents, IsValid, contents_absent, contents_cached, IsValid-one,
}

In-without : (i j : ℕ) (js : List ℕ) → In j (without i js) → In j js
unfolding without
In-without i j [] h = h
In-without i j (k ∷ ks) h = elim (ℕ_discrete i k) [
  | yes e ↦ inr (rw (eq→== i k e) at h)
  | no ne ↦ elim (subst (In j) (ap (λ b. if b then ks else k ∷ without i ks) (ne→== i k ne)) h) [
    | inl here ↦ inl here
    | inr there ↦ inr (In-without i j ks there)
  ]
]

without-In : (i j : ℕ) (js : List ℕ) → In j js → i ≢ j → In j (without i js)
unfolding without
without-In i j [] h ne = h
without-In i j (k ∷ ks) h ne = elim (ℕ_discrete i k) [
  | yes e ↦ rw (eq→== i k e) (elim h [ inl at ↦ absurd (ne (e ∙ sym at)) | inr there ↦ there ])
  | no nk ↦
      rw (ne→== i k nk) (elim h [ inl at ↦ inl at | inr there ↦ inr (without-In i j ks there ne) ])
]

-- Two buffers that show the same of the same block.
record Like (b b' : Buf) : Type 0 where
  dev : b'.dev ≡ b.dev
  blockno : b'.blockno ≡ b.blockno
  valid : b'.valid ≡ b.valid
  bytes : b'.bytes ≡ b.bytes

module _ (c c' : Bcache) (v : IsValid c) (disk : c'.disk ≡ c.disk)
    (like : (j : ℕ) → Like (c.buf j) (c'.buf j)) (into : (j : ℕ) → In j c.order → In j c'.order)
    (back : (j : ℕ) → In j c'.order → In j c.order) where
  For-back : (d k j : ℕ) → For (c'.buf j) d k → For (c.buf j) d k
  For-back d k j h = (sym (like j).dev ∙ h.0, sym (like j).blockno ∙ h.1)

  alike_unique :
      (i j : ℕ)
      → In i c'.order
      → In j c'.order
      → (c'.buf i).dev ≢ 0
      → For (c'.buf j) (c'.buf i).dev (c'.buf i).blockno
      → i ≡ j
  alike_unique i j hi hj nz h =
      v.unique i j (back i hi) (back j hj) (λ z. nz ((like i).dev ∙ z))
        (sym (like j).dev ∙ h.0 ∙ (like i).dev, sym (like j).blockno ∙ h.1 ∙ (like i).blockno)

  alike-contents : (d k : ℕ) → d ≢ 0 → contents c' d k ≡ contents c d k
  alike-contents d k nz = elim (find_cached-cases c.buf d k c.order) [
    | inl (j, found, hj, here) ↦
        contents_cached c' d k
          (λ a b ha hb fa fb.
            IsValid-one c v d k nz a b (back a ha) (back b hb) (For-back d k a fa)
              (For-back d k b fb))
          j (into j hj) ((like j).dev ∙ here.0, (like j).blockno ∙ here.1)
        ∙ ap (λ x. shown (c'.buf j) (x k)) disk
        ∙ ap (λ t. if t then (c'.buf j).bytes else c.disk k) (like j).valid
        ∙ ap (λ x. if (c.buf j).valid then x else c.disk k) (like j).bytes
        ∙ sym (contents_cached c d k (IsValid-one c v d k nz) j hj here)
    | inr (_, missing) ↦
        contents_absent c' d k (λ j hj h. missing j (back j hj) (For-back d k j h))
        ∙ ap (λ x. x k) disk
        ∙ sym (contents_absent c d k missing)
  ]

module _ (c : Bcache) (v : IsValid c) (i : ℕ) (inside : In i c.order)
    (locked : (c.buf i).locked ≡ true) (held : (c.buf i).refcnt ≢ 0)
    (few : (c.buf i).refcnt < 2 ^ 32)
    (written : (c.buf i).refcnt ≡ 1
      → (c.buf i).valid ≡ true
      → (c.buf i).bytes ≡ c.disk (c.buf i).blockno) where
  -- The cache that it leaves: the last use moves the buffer to the front.
  abbrev y : Buf
  y = record (c.buf i) { locked = false; refcnt = (c.buf i).refcnt - 1 }

  abbrev order' : List ℕ
  order' = if (c.buf i).refcnt - 1 == 0 then i ∷ without i c.order else c.order

  abbrev released : Bcache
  released = record c { buf = update c.buf i y; order = order' }

  brelse_run : brelse i c ≡ some (tt, released)
  unfolding brelse
  brelse_run =
      let less : u32 ((c.buf i).refcnt + 2 ^ 32 - 1) ≡ (c.buf i).refcnt - 1 = omega arith in
      elim (ℕ_discrete ((c.buf i).refcnt - 1) 0) [
        | yes e ↦ cc (locked, less, eq→== ((c.buf i).refcnt - 1) 0 e)
        | no ne ↦ cc (locked, less, ne→== ((c.buf i).refcnt - 1) 0 ne)
      ]

  same-In : (j : ℕ) → (In j c.order → In j order') × (In j order' → In j c.order)
  same-In j = elim (ℕ_discrete ((c.buf i).refcnt - 1) 0) [
    | yes e ↦ rw (eq→== ((c.buf i).refcnt - 1) 0 e) (
      λ h. elim (ℕ_discrete i j) [
        | yes at ↦ inl (sym at)
        | no ne ↦ inr (without-In i j c.order h ne)
      ],
      λ h. elim h [
        | inl at ↦ subst (λ k. In k c.order) (sym at) inside
        | inr there ↦ In-without i j c.order there
      ],
    )
    | no ne ↦ rw (ne→== ((c.buf i).refcnt - 1) 0 ne) (λ h. h, λ h. h)
  ]

  like : (j : ℕ) → Like (c.buf j) (released.buf j)
  like j = elim (ℕ_discrete i j) [
    | yes e ↦
        subst (λ k. Like (c.buf k) (released.buf k)) e
          (rw (==_self i) (record { dev = refl; blockno = refl; valid = refl; bytes = refl }))
    | no ne ↦ rw (ne→== i j ne) (record { dev = refl; blockno = refl; valid = refl; bytes = refl })
  ]

  released-IsValid : IsValid released
  released-IsValid = record {
    unique = alike_unique c released v refl like (λ j. (same-In j).0) (λ j. (same-In j).1);
    clean = λ j hj. elim (ℕ_discrete i j) [
      | yes e ↦ rw (eq→== i j e) (λ z. written (omega arith))
      | no ne ↦ rw (ne→== i j ne) (v.clean j ((same-In j).1 hj))
    ];
    idle = λ j hj. elim (ℕ_discrete i j) [
      | yes e ↦ rw (eq→== i j e) (λ z. refl)
      | no ne ↦ rw (ne→== i j ne) (v.idle j ((same-In j).1 hj))
    ];
  }

  -- In a valid cache, giving back a locked buffer that is in use, and as the disk if this is its
  -- last use, keeps the cache valid and what it shows of every block of every device but 0; on the
  -- last use, and only then, the buffer becomes the most recently used.
  pub brelse_lem :
      (c' : Bcache) × (brelse i c ≡ some (tt, c'))
      × IsValid c'
      × ((d k : ℕ) → d ≢ 0 → contents c' d k ≡ contents c d k)
      × (c'.order ≡ (if (c.buf i).refcnt - 1 == 0 then i ∷ without i c.order else c.order))
  brelse_lem = (
    released,
    brelse_run,
    released-IsValid,
    alike-contents c released v refl like (λ j. (same-In j).0) (λ j. (same-In j).1),
    refl,
  )
