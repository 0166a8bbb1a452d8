-- ===== src/Fs/Alloc.antt =====
-- `balloc` and `bfree` on the map of the blocks in use.
pub mod Calls
pub mod Cases
use os2_project.Base.{
  ℕ, zero, suc, ◌+◌, ◌-◌, ◌*◌, ◌/◌, ◌%◌, ◌≤◌, ◌<◌, ◌≡◌, ◌≢◌, ◌⊎◌, inl, inr, refl, sym, ap, subst,
  ◌∙◌, arith, Bool, true, false, not, Option, none, some, if◌then◌else◌, ltb, ◌==◌, dec_lt, update,
  update_self, update-ne, ℕ_discrete, eq→==, ne→==, Bool-cases,
}
use os2_project.Raid.Types.{Block}
use os2_project.Fs.{
  Super, Inode, Fs, M, ◌>>◌, pure, set_buf, log_write, bzero, is_free, set_bit, clear_bit,
  find_free, bits_per_block, bblock, balloc_from, balloc, bfree,
}
use os2_project.Fs.Bits.{
  used, AllBytes, is_free-used, set_bit-used, clear_bit-used, set_bit-AllBytes, clear_bit-AllBytes,
}

-- The state with a block changed, and its change taken by the transaction.
abbrev pub written : Fs → ℕ → Block → Fs
written s b x = record s { cache = update s.cache b x; saved = update s.saved b x }

-- A change of a buffer with the `log_write` behind it.
pub set_buf-log_write :
    {A : Type 0} (s : Fs) (b : ℕ) (x : Block) (k : M A)
    → (set_buf b x >> (log_write b >> k)) s ≡ k (written s b x)
set_buf-log_write s b x k =
    ap (λ y. k (record s { cache = update s.cache b x; saved = update s.saved b y }))
      (update_self s.cache b x)

module _ (sb : Super) where
  -- The last block of the map, which lies behind the log and the inodes.
  abbrev pub map_end : ℕ
  map_end = bblock sb (sb.size - 1)

  -- A block behind the map.
  abbrev pub IsData : ℕ → Type 0
  IsData b = (map_end < b) × (b < sb.size)

  abbrev pub in_use : Fs → ℕ → Bool
  in_use s b = used (s.cache (bblock sb b)) (b % bits_per_block)

  -- The blocks up to the map are in use, its blocks have bytes, and the transaction has each change.
  pub record IsValid (s : Fs) : Type 0 where
    pub map : (b : ℕ) → b < sb.size → AllBytes (s.cache (bblock sb b))
    pub meta : (b : ℕ) → b ≤ map_end → b < sb.size → in_use s b ≡ true
    pub saved : (b : ℕ) → s.saved b ≡ s.cache b

  pub bblock-le : (b : ℕ) → b < sb.size → bblock sb b ≤ map_end
  bblock-le b lt = omega arith

  pub free-IsData : (s : Fs) (b : ℕ) → IsValid s → b < sb.size → in_use s b ≡ false → IsData b
  free-IsData s b v lt free = elim (dec_lt map_end b) [
    | yes h ↦ (h, lt)
    | no h ↦ cc (v.meta b (omega arith) lt)
  ]

  pub written-saved :
      (s : Fs) (b : ℕ) (x : Block)
      → ((k : ℕ) → s.saved k ≡ s.cache k)
      → (k : ℕ) → (written s b x).saved k ≡ (written s b x).cache k
  written-saved s b x h k = elim (ℕ_discrete b k) [
    | yes e ↦ rw (eq→== b k e) refl
    | no ne ↦ rw (ne→== b k ne) (h k)
  ]

  -- Only the map tells which blocks are in use.
  pub written-in_use :
      (s : Fs) (b c : ℕ) (x : Block) → b ≢ bblock sb c → in_use (written s b x) c ≡ in_use s c
  written-in_use s b c x ne =
      ap (λ y. used y (c % bits_per_block)) (update-ne s.cache b (bblock sb c) x ne)

  pub written-IsValid :
      (s : Fs) (b : ℕ) (x : Block) → IsValid s → map_end < b → IsValid (written s b x)
  written-IsValid s b x v above = record {
    map = λ c lt.
        subst AllBytes (sym (update-ne s.cache b (bblock sb c) x (omega (arith, bblock-le c lt))))
          (v.map c lt);
    meta = λ c le lt. written-in_use s b c x (omega (arith, bblock-le c lt)) ∙ v.meta c le lt;
    saved = written-saved s b x v.saved;
  }

  -- One bit of the map changed to `r`, by a function of its block.
  module _ (op : Block → ℕ → Block) (r : Bool)
      (bytes : (x : Block) (i : ℕ) → AllBytes x → AllBytes (op x i))
      (bits : (x : Block) (i j : ℕ)
        → AllBytes x
        → used (op x i) j ≡ (if i == j then r else used x j)) where
    abbrev marked : Fs → ℕ → Fs
    marked s c = written s (bblock sb c) (op (s.cache (bblock sb c)) (c % bits_per_block))

    pub marked-in_use :
        (s : Fs) (c d : ℕ)
        → IsValid s
        → c < sb.size
        → in_use (marked s c) d ≡ (if c == d then r else in_use s d)
    marked-in_use s c d v lt = elim (ℕ_discrete (bblock sb c) (bblock sb d)) [
      | yes e ↦
          let x = s.cache (bblock sb c) in
          let b : used (op x (c % bits_per_block)) (d % bits_per_block) ≡ (
              if c % bits_per_block == d % bits_per_block then r else used x (d % bits_per_block)) =
            bits x (c % bits_per_block) (d % bits_per_block) (v.map c lt) in
          rw (eq→== (bblock sb c) (bblock sb d) e) (elim (ℕ_discrete c d) [
            | yes f ↦ rw (eq→== c d f) (
                b
                ∙ rw
                    (eq→== (c % bits_per_block) (d % bits_per_block)
                      (ap (λ n. n % bits_per_block) f))
                    refl)
            | no ne ↦ rw (ne→== c d ne) (
                b
                ∙ rw (ne→== (c % bits_per_block) (d % bits_per_block) (omega arith))
                    (ap (λ n. used (s.cache n) (d % bits_per_block)) e))
          ])
      | no ne ↦
          written-in_use s (bblock sb c) d (op (s.cache (bblock sb c)) (c % bits_per_block)) ne
          ∙ rw (ne→== c d (λ e. ne (ap (bblock sb) e))) refl
    ]

    pub marked-IsValid : (s : Fs) (c : ℕ) → IsValid s → IsData c → IsValid (marked s c)
    marked-IsValid s c v data_block = record {
      map = λ d lt. elim (ℕ_discrete (bblock sb c) (bblock sb d)) [
        | yes e ↦
            rw (eq→== (bblock sb c) (bblock sb d) e)
              (bytes (s.cache (bblock sb c)) (c % bits_per_block) (v.map c data_block.1))
        | no ne ↦ rw (ne→== (bblock sb c) (bblock sb d) ne) (v.map d lt)
      ];
      meta = λ d le lt.
          marked-in_use s c d v data_block.1 ∙ rw (ne→== c d (omega arith)) (v.meta d le lt);
      saved =
          written-saved s (bblock sb c) (op (s.cache (bblock sb c)) (c % bits_per_block)) v.saved;
    }
