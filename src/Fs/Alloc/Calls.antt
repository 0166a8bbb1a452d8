-- ===== src/Fs/Alloc/Calls.antt =====
-- What `balloc` and `bfree` do.
use os2_project.Base.{
  ℕ, zero, suc, ◌+◌, ◌-◌, ◌*◌, ◌/◌, ◌%◌, ◌≤◌, ◌<◌, ◌≡◌, ◌≢◌, ◌⊎◌, inl, inr, refl, sym, ap, ap₂,
  subst, ◌∙◌, arith, Bool, true, false, not, Option, none, some, if◌then◌else◌, ◌==◌, update_self,
  update-ne, ℕ_discrete, Bool-cases, dec_lt,
}
use os2_project.Raid.Types.{Block}
use os2_project.Fs.{
  Super, Fs, ◌>>◌, pure, set_buf, log_write, bzero, is_free, set_bit, clear_bit, find_free,
  bits_per_block, bblock, bits_from, balloc_in, balloc_from, balloc, bfree,
}
use os2_project.Fs.Bits.{
  used, AllBytes, is_free-used, set_bit-used, clear_bit-used, set_bit-AllBytes, clear_bit-AllBytes,
}
use os2_project.Fs.Alloc.{
  written, set_buf-log_write, map_end, IsData, in_use, IsValid, free-IsData, bblock-le,
  written-in_use, written-IsValid, marked, marked-in_use, marked-IsValid,
}

free_of : (b : Bool) → not b ≡ true → b ≡ false
free_of true h = cc
free_of false h = refl

used_of : (b : Bool) → not b ≡ false → b ≡ true
used_of true h = refl
used_of false h = cc

find_free-cases :
    (k i : ℕ) (x : Block)
    → AllBytes x
    → ((find_free k i x ≡ none) × ((j : ℕ) → i ≤ j → j < i + k → used x j ≡ true))
      ⊎ ((j : ℕ) × (find_free k i x ≡ some j) × (i ≤ j) × (j < i + k) × (used x j ≡ false))
unfolding find_free
find_free-cases zero i x h = inl (refl, λ j low high. absurd (omega arith))
find_free-cases (suc k) i x h = elim (Bool-cases (is_free x i)) [
  | inl free ↦ inr (
    i,
    rw free refl,
    omega arith,
    omega arith,
    free_of (used x i) (sym (is_free-used x i h) ∙ free),
  )
  | inr taken ↦ elim (find_free-cases k (i + 1) x h) [
    | inl (missing, all) ↦ inl (
      rw taken missing,
      λ j low high. elim (ℕ_discrete i j) [
        | yes e ↦
            subst (λ n. used x n ≡ true) e (used_of (used x i) (sym (is_free-used x i h) ∙ taken))
        | no ne ↦ all j (omega arith) (omega arith)
      ],
    )
    | inr (j, found, low, high, free) ↦ inr (j, rw taken found, omega arith, omega arith, free)
  ]
]

module _ (sb : Super) where
  -- Block `c` taken: its bit is set, and it is all zero.
  abbrev pub allocated : Fs → ℕ → Fs
  allocated s c = written (marked sb set_bit true set_bit-AllBytes set_bit-used s c) c (λ k. 0)

  abbrev pub released : Fs → ℕ → Fs
  released s c = marked sb clear_bit false clear_bit-AllBytes clear_bit-used s c

  -- A block was free, and is now allocated.
  pub record Takes (s : Fs) (c : ℕ) : Type 0 where
    pub behind : IsData sb c
    pub free : in_use sb s c ≡ false

  bits_bounds :
      (b j : ℕ) → b < sb.size → j < 0 + bits_from sb b → (j < bits_per_block) × (b + j < sb.size)
  bits_bounds b j lt h = ground arith

  same_bblock :
      (b j : ℕ) → b % bits_per_block ≡ 0 → j < bits_per_block → bblock sb (b + j) ≡ bblock sb b
  same_bblock b j al lt = omega arith

  same_bit : (b j : ℕ) → b % bits_per_block ≡ 0 → j < bits_per_block → (b + j) % bits_per_block ≡ j
  same_bit b j al lt = omega arith

  abbrev taken : Fs → ℕ → ℕ → ℕ → Option (ℕ × Fs)
  taken s c m j = some (c, written (written s m (set_bit (s.cache m) j)) c (λ k. 0))

  -- The block `b + j` found in the map.
  take_run :
      (s : Fs) (b j : ℕ)
      → b % bits_per_block ≡ 0
      → j < bits_per_block
      → (do
        set_buf (bblock sb b) (set_bit (s.cache (bblock sb b)) j)
        log_write (bblock sb b)
        bzero (b + j)
        pure (b + j))
          s
        ≡ some (b + j, allocated s (b + j))
  unfolding bzero
  take_run s b j al lt =
      let s1 = written s (bblock sb b) (set_bit (s.cache (bblock sb b)) j) in
      set_buf-log_write s (bblock sb b) (set_bit (s.cache (bblock sb b)) j)
        (do bzero (b + j); pure (b + j))
      ∙ set_buf-log_write s1 (b + j) (λ k. 0) (pure (b + j))
      ∙ ap₂ (taken s (b + j)) (sym (same_bblock b j al lt)) (sym (same_bit b j al lt))

  here_used :
      (s : Fs) (b c : ℕ)
      → b % bits_per_block ≡ 0
      → b ≤ c
      → c < b + bits_per_block
      → used (s.cache (bblock sb b)) (c - b) ≡ true
      → in_use sb s c ≡ true
  here_used s b c al low high h =
      let m : bblock sb c ≡ bblock sb b = omega arith in
      let j : c % bits_per_block ≡ c - b = omega arith in ap₂ (λ n i. used (s.cache n) i) m j ∙ h

  here_free :
      (s : Fs) (b j : ℕ)
      → b % bits_per_block ≡ 0
      → j < bits_per_block
      → used (s.cache (bblock sb b)) j ≡ false
      → in_use sb s (b + j) ≡ false
  here_free s b j al lt h =
      ap₂ (λ n i. used (s.cache n) i) (same_bblock b j al lt) (same_bit b j al lt) ∙ h

  -- The loop of `balloc` from block `b` on.
  balloc_from-cases :
      (k b : ℕ) (s : Fs)
      → IsValid sb s
      → b % bits_per_block ≡ 0
      → sb.size ≤ b + k * bits_per_block
      → b + k * bits_per_block < sb.size + bits_per_block
      → ((balloc_from sb k b s ≡ some (0, s))
          × ((c : ℕ) → b ≤ c → c < sb.size → in_use sb s c ≡ true))
        ⊎ ((c : ℕ) × (balloc_from sb k b s ≡ some (c, allocated s c)) × Takes s c)
  unfolding balloc_from
  balloc_from-cases zero b s v al enough near = inl (refl, λ c low high. absurd (omega arith))
  balloc_from-cases (suc k) b s v al enough near =
      let lt : b < sb.size = omega arith in
      let x = s.cache (bblock sb b) in
      let rest = balloc_from sb k (b + bits_per_block) in
      let at : (o : Option ℕ)
          → find_free (bits_from sb b) 0 x ≡ o
          → balloc_from sb (suc k) b s ≡ balloc_in sb b x rest o s =
        λ o e. ap (λ o. balloc_in sb b x rest o s) e in
      elim (find_free-cases (bits_from sb b) 0 x (v.map b lt)) [
        | inl (missing, all) ↦
            elim (balloc_from-cases k (b + bits_per_block) s v (omega arith) (omega arith)
              (omega arith)) [
                | inl (ran, rest) ↦ inl (
                  at none missing ∙ ran,
                  λ c low high. elim (dec_lt c (b + bits_per_block)) [
                    | yes near_c ↦
                        here_used s b c al low near_c (all (c - b) (omega arith) (ground arith))
                    | no far ↦ rest c (omega arith) high
                  ],
                )
                | inr (c, ran, t) ↦ inr (c, at none missing ∙ ran, t)
              ]
        | inr (j, found, low, high, free) ↦
            let (small, within) = bits_bounds b j lt high in
            inr (
              b + j,
              at (some j) found ∙ take_run s b j al small,
              record {
                behind = free-IsData sb s (b + j) v within (here_free s b j al small free);
                free = here_free s b j al small free;
              },
            )
      ]

  -- `balloc` gives a block that was free, which is now in use and zero; or 0 where none was free.
  pub balloc-cases :
      (s : Fs)
      → IsValid sb s
      → ((balloc sb s ≡ some (0, s)) × ((c : ℕ) → c < sb.size → in_use sb s c ≡ true))
        ⊎ ((c : ℕ) × (balloc sb s ≡ some (c, allocated s c)) × Takes s c)
  unfolding balloc
  balloc-cases s v =
      elim (balloc_from-cases ((sb.size + bits_per_block - 1) / bits_per_block) 0 s v (omega arith)
        (omega arith) (omega arith)) [
          | inl (ran, all) ↦ inl (ran, λ c lt. all c (omega arith) lt)
          | inr (c, ran, t) ↦ inr (c, ran, t)
        ]

  pub allocated-IsValid : (s : Fs) (c : ℕ) → IsValid sb s → Takes s c → IsValid sb (allocated s c)
  allocated-IsValid s c v t =
      written-IsValid sb (marked sb set_bit true set_bit-AllBytes set_bit-used s c) c (λ k. 0)
        (marked-IsValid sb set_bit true set_bit-AllBytes set_bit-used s c v t.behind) t.behind.0

  pub allocated-in_use :
      (s : Fs) (c d : ℕ)
      → IsValid sb s
      → Takes s c
      → d < sb.size
      → in_use sb (allocated s c) d ≡ (if c == d then true else in_use sb s d)
  allocated-in_use s c d v t lt =
      written-in_use sb (marked sb set_bit true set_bit-AllBytes set_bit-used s c) c d (λ k. 0)
        (omega (arith, bblock-le sb d lt, t.behind.0))
      ∙ marked-in_use sb set_bit true set_bit-AllBytes set_bit-used s c d v t.behind.1

  -- The blocks behind the map, and those before it, stay.
  pub marked-cache :
      (op : Block → ℕ → Block) (r : Bool)
      (bytes : (x : Block) (i : ℕ) → AllBytes x → AllBytes (op x i))
      (laws : (x : Block) (i j : ℕ)
        → AllBytes x
        → used (op x i) j ≡ (if i == j then r else used x j))
      (s : Fs) (c b : ℕ)
      → c < sb.size
      → (b < sb.bmapstart) ⊎ (map_end sb < b)
      → (marked sb op r bytes laws s c).cache b ≡ s.cache b
  marked-cache op r bytes laws s c b lt out =
      update-ne s.cache (bblock sb c) b (op (s.cache (bblock sb c)) (c % bits_per_block)) (λ e.
        elim out [
          | inl low ↦ absurd (omega (arith, e))
          | inr high ↦ absurd (omega (arith, e, bblock-le sb c lt))
        ])

  pub allocated-cache :
      (s : Fs) (c b : ℕ)
      → Takes s c
      → c ≢ b
      → (b < sb.bmapstart) ⊎ (map_end sb < b)
      → (allocated s c).cache b ≡ s.cache b
  allocated-cache s c b t ne out =
      update-ne (marked sb set_bit true set_bit-AllBytes set_bit-used s c).cache c b (λ k. 0) ne
      ∙ marked-cache set_bit true set_bit-AllBytes set_bit-used s c b t.behind.1 out

  pub allocated-zero : (s : Fs) (c : ℕ) → (allocated s c).cache c ≡ (λ k. 0)
  allocated-zero s c =
      update_self (marked sb set_bit true set_bit-AllBytes set_bit-used s c).cache c (λ k. 0)

  -- `bfree` of a block in use.
  pub bfree_lem :
      (s : Fs) (c : ℕ)
      → IsValid sb s
      → c < sb.size
      → in_use sb s c ≡ true
      → bfree sb c s ≡ some (tt, released s c)
  unfolding bfree
  bfree_lem s c v lt busy =
      rw (is_free-used (s.cache (bblock sb c)) (c % bits_per_block) (v.map c lt) ∙ ap not busy) (
        set_buf-log_write s (bblock sb c) (clear_bit (s.cache (bblock sb c)) (c % bits_per_block))
          (pure tt))

  -- A free block makes it panic.
  pub bfree_twice :
      (s : Fs) (c : ℕ) → IsValid sb s → c < sb.size → in_use sb s c ≡ false → bfree sb c s ≡ none
  unfolding bfree
  bfree_twice s c v lt free =
      rw (is_free-used (s.cache (bblock sb c)) (c % bits_per_block) (v.map c lt) ∙ ap not free) refl
