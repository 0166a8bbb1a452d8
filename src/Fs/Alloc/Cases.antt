-- ===== src/Fs/Alloc/Cases.antt =====
-- Both results of `balloc` and of `bfree`.
use os2_project.Base.{
  ℕ, ◌<◌, ◌≡◌, ◌≢◌, ◌⊎◌, inl, inr, refl, Bool, true, false, none, some, if◌then◌else◌, ◌==◌,
  Bool-cases,
}
use os2_project.Fs.{Super, Fs, balloc, bfree, clear_bit}
use os2_project.Fs.Bits.{clear_bit-used, clear_bit-AllBytes}
use os2_project.Fs.Alloc.{map_end, IsData, in_use, IsValid, marked-in_use, marked-IsValid}
use os2_project.Fs.Alloc.Calls.{
  allocated, released, balloc-cases, allocated-IsValid, allocated-in_use, allocated-cache,
  allocated-zero, marked-cache, bfree_lem, bfree_twice,
}

module _ (sb : Super) where
  -- The map of `s'` differs from that of `s` in block `c`; the other blocks of data are the same.
  pub record Marks (s s' : Fs) (c : ℕ) (r : Bool) : Type 0 where
    pub behind : IsData sb c
    pub valid : IsValid sb s'
    pub map : (d : ℕ) → d < sb.size → in_use sb s' d ≡ (if c == d then r else in_use sb s d)
    pub others : (d : ℕ) → map_end sb < d → c ≢ d → s'.cache d ≡ s.cache d
    pub inode : s'.inode ≡ s.inode

  -- With a consistent map, `balloc` either returns 0, where every block is in use, and changes
  -- nothing; or it returns a data block that was free, which is then in use and all zero, while the
  -- map has changed for no other block and no other data block has changed.
  pub balloc_lem :
      (s : Fs)
      → IsValid sb s
      → ((balloc sb s ≡ some (0, s)) × ((c : ℕ) → c < sb.size → in_use sb s c ≡ true))
        ⊎ ((c : ℕ) × (s' : Fs) × (balloc sb s ≡ some (c, s'))
            × (in_use sb s c ≡ false)
            × Marks s s' c true
            × (s'.cache c ≡ (λ k. 0)))
  balloc_lem s v = elim (balloc-cases sb s v) [
    | inl all ↦ inl all
    | inr (c, ran, t) ↦ inr (
      c,
      allocated sb s c,
      ran,
      t.free,
      record {
        behind = t.behind;
        valid = allocated-IsValid sb s c v t;
        map = λ d lt. allocated-in_use sb s c d v t lt;
        others = λ d far ne. allocated-cache sb s c d t ne (inr far);
        inode = refl;
      },
      allocated-zero sb s c,
    )
  ]

  -- With a consistent map, `bfree` of a data block panics where the block is free; else it returns,
  -- the block is free, the map has changed for no other block, and no data block has changed.
  bfree-cases :
      (s : Fs) (c : ℕ)
      → IsValid sb s
      → IsData sb c
      → ((in_use sb s c ≡ false) × (bfree sb c s ≡ none))
        ⊎ ((in_use sb s c ≡ true)
            × (s' : Fs) × (bfree sb c s ≡ some (tt, s'))
            × Marks s s' c false
            × (s'.cache c ≡ s.cache c))
  bfree-cases s c v at = elim (Bool-cases (in_use sb s c)) [
    | inr free ↦ inl (free, bfree_twice sb s c v at.1 free)
    | inl busy ↦ inr (
      busy,
      released sb s c,
      bfree_lem sb s c v at.1 busy,
      record {
        behind = at;
        valid = marked-IsValid sb clear_bit false clear_bit-AllBytes clear_bit-used s c v at;
        map =
            λ d lt. marked-in_use sb clear_bit false clear_bit-AllBytes clear_bit-used s c d v at.1;
        others = λ d far ne.
            marked-cache sb clear_bit false clear_bit-AllBytes clear_bit-used s c d at.1 (inr far);
        inode = refl;
      },
      marked-cache sb clear_bit false clear_bit-AllBytes clear_bit-used s c c at.1 (inr at.0),
    )
  ]
