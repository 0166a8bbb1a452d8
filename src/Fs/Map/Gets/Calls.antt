-- ===== src/Fs/Map/Gets/Calls.antt =====
-- `bmap` as a whole.
use os2_project.Base.{
  Bool-cases, inl, inr, ℕ, ◌+◌, ◌-◌, ◌^◌, ◌≤◌, ◌<◌, ◌≡◌, ◌≢◌, refl, sym, ap, subst, ◌∙◌, arith,
  none, some, false, if◌then◌else◌, lt→ltb, le→ltb, ◌==◌, ℕ_discrete, dec_lt, eq→==, ne→==,
}
use os2_project.Fs.{
  Super, Fs, pure, ◌>>=◌, n_direct, n_indirect, max_file, slot_addr, entry_addr, bmap,
}
use os2_project.Fs.Alloc.{in_use, IsValid}
use os2_project.Fs.Map.{ref, slot, IsFile, Grows, Grows-trans}
use os2_project.Fs.Map.Bmap.{bind-some, ref_own, ref_entry, entry_zero}
use os2_project.Fs.Map.Gets.{Gets, slot_addr_lem, entry_addr_lem}

module _ (sb : Super) (fits : sb.size < 2 ^ 32) where
  still_free :
      (s s' : Fs) (a : ℕ)
      → Grows sb s s'
      → a < sb.size
      → in_use sb s' a ≡ false
      → in_use sb s a ≡ false
  still_free s s' a g lt free = elim (Bool-cases (in_use sb s a)) [
    | inl busy ↦ cc (g.stays a lt busy)
    | inr f ↦ f
  ]

  has_indirect : (s : Fs) (n : ℕ) → ref s (n_direct + 1 + n) ≢ 0 → ref s n_direct ≢ 0
  has_indirect s n nz z = nz (
      ref_entry sb fits s (n_direct + 1 + n) (omega arith)
      ∙ entry_zero sb fits s.cache (s.inode.addrs n_direct) (n_direct + 1 + n - (n_direct + 1))
          (sym (ref_own sb fits s n_direct (omega arith)) ∙ z))

  -- The address of the indirect block first.
  then_entry :
      (s : Fs) (b : ℕ) (s' : Fs) (n a : ℕ) (s'' : Fs)
      → Gets sb fits s n_direct b s'
      → Gets sb fits s' (n_direct + 1 + n) a s''
      → n < n_indirect
      → Gets sb fits s (n_direct + 1 + n) a s''
  then_entry s b s' n a s'' g h low = record {
    grows = Grows-trans sb s s' s'' g.grows h.grows;
    here = h.here;
    origin = elim h.origin [
      | inl e ↦ inl (sym (g.there (n_direct + 1 + n) (omega arith) (omega arith) (omega arith)) ∙ e)
      | inr (lt, free) ↦ inr (lt, still_free s s' a g.grows lt free)
    ];
    full = h.full;
    same = λ nz.
        let e : s' ≡ s = g.same (has_indirect s n nz) in
        h.same (λ z. nz (ap (λ t. ref t (n_direct + 1 + n)) (sym e) ∙ z)) ∙ e;
    there = λ l lt ne ni. h.there l lt ne ni ∙ g.there l lt ni ni;
  }

  -- No indirect block: none of its entries.
  no_indirect :
      (s s' : Fs) (n : ℕ)
      → Gets sb fits s n_direct 0 s'
      → n < n_indirect
      → Gets sb fits s (n_direct + 1 + n) 0 s'
  no_indirect s s' n g low =
      let z : s'.inode.addrs n_direct ≡ 0 =
        sym (ref_own sb fits s' n_direct (omega arith)) ∙ g.here in
      let k = n_direct + 1 + n in
      let none_here : ref s' k ≡ 0 =
        ref_entry sb fits s' k (omega arith)
        ∙ entry_zero sb fits s'.cache (s'.inode.addrs n_direct) (k - (n_direct + 1)) z in
      record {
        grows = g.grows;
        here = none_here;
        origin = inl (sym (g.there k (omega arith) (omega arith) (omega arith)) ∙ none_here);
        full = g.full;
        same = λ nz. g.same (has_indirect s n nz);
        there = λ l lt ne ni. g.there l lt ni ni;
      }

  bmap_indirect :
      (s : Fs) (n : ℕ)
      → IsValid sb s
      → IsFile sb s
      → n < n_indirect
      → (a : ℕ) × (s' : Fs) × ((do
        b ← slot_addr sb n_direct
        if b == 0 then pure 0 else entry_addr sb b n)
            s
          ≡ some (a, s'))
        × Gets sb fits s (n_direct + 1 + n) a s'
  bmap_indirect s n v f low =
      let go = λ (b : ℕ). if b == 0 then pure 0 else entry_addr sb b n in
      let (b, s1, ran, g) = slot_addr_lem sb fits s n_direct v f (omega arith) in
      elim (ℕ_discrete b 0) [
        | yes z ↦ (
          0,
          s1,
          bind-some (slot_addr sb n_direct) go s b s1 ran ∙ rw (eq→== b 0 z) refl,
          no_indirect s s1 n (subst (λ a. Gets sb fits s n_direct a s1) z g) low,
        )
        | no nz ↦
            let e : b ≡ s1.inode.addrs n_direct =
              sym g.here ∙ ref_own sb fits s1 n_direct (omega arith) in
            let (a, s2, ran', h) =
              entry_addr_lem sb fits s1 n g.grows.valid g.grows.file low (λ z. nz (e ∙ z)) in
            (
              a,
              s2,
              bind-some (slot_addr sb n_direct) go s b s1 ran
                  ∙ rw (ne→== b 0 nz) (ap (λ d. entry_addr sb d n s1) e ∙ ran'),
              then_entry s b s1 n a s2 g h low,
            )
      ]

  -- Where the map of the file system and the blocks of the locked inode are consistent, `bmap` of a
  -- block number below MAXFILE returns, and both are consistent afterwards: the result is the
  -- address that the file has for the block, either the one it had, and then nothing has changed,
  -- or that of a block that was free. The bytes of the file stay as they were, no address that it
  -- had changes, no block in use becomes free, no other data block in use changes, and the result
  -- is 0 only where no block is free.
  pub bmap_lem :
      (s : Fs) (bn : ℕ)
      → IsValid sb s
      → IsFile sb s
      → bn < max_file
      → (a : ℕ) × (s' : Fs) × (bmap sb bn s ≡ some (a, s')) × Gets sb fits s (slot bn) a s'
  unfolding bmap
  bmap_lem s bn v f low = elim (dec_lt bn n_direct) [
    | yes lt ↦
        let (a, s', ran, g) = slot_addr_lem sb fits s bn v f (omega arith) in
        (
          a,
          s',
          rw (lt→ltb bn n_direct lt) ran,
          subst (λ k. Gets sb fits s k a s') (rw (lt→ltb bn n_direct lt) refl) g,
        )
    | no far ↦
        let le : n_direct ≤ bn = omega arith in
        let lt : bn - n_direct < n_indirect = omega arith in
        let (a, s', ran, g) = bmap_indirect s (bn - n_direct) v f lt in
        let at : n_direct + 1 + (bn - n_direct) ≡ bn + 1 = omega arith in
        (
          a,
          s',
          rw (le→ltb bn n_direct le, lt→ltb (bn - n_direct) n_indirect lt) ran,
          subst (λ k. Gets sb fits s k a s') (at ∙ rw (le→ltb bn n_direct le) refl) g,
        )
  ]

  bmap_panic : (s : Fs) (bn : ℕ) → max_file ≤ bn → bmap sb bn s ≡ none
  unfolding bmap
  bmap_panic s bn le =
      let far : n_direct ≤ bn = omega arith in
      let far' : n_indirect ≤ bn - n_direct = omega arith in
      rw (le→ltb bn n_direct far, le→ltb (bn - n_direct) n_indirect far') refl
