-- ===== src/Fs/Map/Gets.antt =====
-- `bmap` on the blocks of the file.
pub mod Calls
use os2_project.Base.{
  Bool-cases, inl, inr, ◌⊎◌, ℕ, ◌+◌, ◌-◌, ◌*◌, ◌^◌, ◌≤◌, ◌<◌, ◌≡◌, ◌≢◌, refl, sym, ap, subst, ◌∙◌,
  arith, none, some, true, false, if◌then◌else◌, lt→ltb, le→ltb, ◌==◌, ℕ_discrete, dec_lt, eq→==,
  ne→==,
}
use os2_project.Raid.Superblock.{word_at}
use os2_project.Log.{put_word}
use os2_project.Fs.{
  Super, Fs, pure, ◌>>=◌, ◌>>◌, bread, set_buf, log_write, n_direct, n_indirect, max_file, balloc,
  slot_addr, entry_addr, bmap, set_addr,
}
use os2_project.Fs.Alloc.{in_use, IsValid, set_buf-log_write}
use os2_project.Fs.Alloc.Calls.{allocated, Takes, balloc-cases}
use os2_project.Fs.Map.{ref, n_refs, slot, IsFile, Grows, Grows-refl, Grows-trans}
use os2_project.Fs.Map.Fill.{Filled, Filled-Grows, positive}
use os2_project.Fs.Map.Bmap.{
  bind-some, with_slot, with_entry, ref_own, ref_entry, entry_word, entry_zero, slot-Filled,
  entry-Filled,
}

module _ (sb : Super) (fits : sb.size < 2 ^ 32) where
  -- The address `k` of the file is now `a`: as it was, or that of a block that was free, and 0 only
  -- where no block is free.
  pub record Gets (s : Fs) (k a : ℕ) (s' : Fs) : Type 0 where
    pub grows : Grows sb s s'
    pub here : ref s' k ≡ a
    pub origin : (ref s k ≡ a) ⊎ ((a < sb.size) × (in_use sb s a ≡ false))
    pub full : a ≡ 0 → (c : ℕ) → c < sb.size → in_use sb s' c ≡ true
    pub same : ref s k ≢ 0 → s' ≡ s
    pub there : (l : ℕ) → l < n_refs → l ≢ k → l ≢ n_direct → ref s' l ≡ ref s l

  has : (s : Fs) (k : ℕ) → IsValid sb s → IsFile sb s → ref s k ≢ 0 → Gets s k (ref s k) s
  has s k v f nz = record {
    grows = Grows-refl sb s v f;
    here = refl;
    origin = inl refl;
    full = λ z. absurd (nz z);
    same = λ _. refl;
    there = λ l lt ne _. refl;
  }

  none_free :
      (s : Fs) (k : ℕ)
      → IsValid sb s
      → IsFile sb s
      → ref s k ≡ 0
      → ((c : ℕ) → c < sb.size → in_use sb s c ≡ true)
      → Gets s k 0 s
  none_free s k v f z all = record {
    grows = Grows-refl sb s v f;
    here = z;
    origin = inl z;
    full = λ _. all;
    same = λ _. refl;
    there = λ l lt ne _. refl;
  }

  new :
      (s : Fs) (k c : ℕ) (s' : Fs) (v : IsValid sb s) (f : IsFile sb s) (t : Takes sb s c)
      → k < n_refs
      → ref s k ≡ 0
      → Filled sb s v f c t k s'
      → Gets s k c s'
  new s k c s' v f t low z g = record {
    grows = Filled-Grows sb s v f c t k s' low z g;
    here = g.here;
    origin = inr (t.behind.1, t.free);
    full = λ e. absurd (positive sb s v f c t e);
    same = λ nz. absurd (nz z);
    there = λ l lt ne _. g.there l lt ne;
  }

  pub slot_addr_lem :
      (s : Fs) (j : ℕ)
      → IsValid sb s
      → IsFile sb s
      → j < n_direct + 1
      → (a : ℕ) × (s' : Fs) × (slot_addr sb j s ≡ some (a, s')) × Gets s j a s'
  unfolding slot_addr
  slot_addr_lem s j v f low = elim (ℕ_discrete (s.inode.addrs j) 0) [
    | no nz ↦
        let e : ref s j ≡ s.inode.addrs j = ref_own sb fits s j low in
        (
          ref s j,
          s,
          rw (ne→== (s.inode.addrs j) 0 nz) (ap (λ a. some (a, s)) (sym e)),
          has s j v f (λ z. nz (sym e ∙ z)),
        )
    | yes z ↦
        let old : ref s j ≡ 0 = ref_own sb fits s j low ∙ z in
        let go = λ (a : ℕ). (if a == 0 then pure tt else set_addr j a) >> pure a in
        elim (balloc-cases sb s v) [
          | inl (ran, all) ↦ (
            0,
            s,
            rw (eq→== (s.inode.addrs j) 0 z) (bind-some (balloc sb) go s 0 s ran),
            none_free s j v f old all,
          )
          | inr (c, ran, t) ↦ (
            c,
            with_slot sb fits (allocated sb s c) j c,
            rw (eq→== (s.inode.addrs j) 0 z) (
                bind-some (balloc sb) go s c (allocated sb s c) ran
                ∙ rw (ne→== c 0 (positive sb s v f c t)) refl),
            new s j c (with_slot sb fits (allocated sb s c) j c) v f t (omega arith) old
                (slot-Filled sb fits s v f c t j low z),
          )
        ]
  ]

  pub entry_addr_lem :
      (s : Fs) (n : ℕ)
      → IsValid sb s
      → IsFile sb s
      → n < n_indirect
      → s.inode.addrs n_direct ≢ 0
      → (a : ℕ) × (s' : Fs) × (entry_addr sb (s.inode.addrs n_direct) n s ≡ some (a, s'))
        × Gets s (n_direct + 1 + n) a s'
  unfolding entry_addr
  entry_addr_lem s n v f low nz =
      let b = s.inode.addrs n_direct in
      let k = n_direct + 1 + n in
      let at : n_direct + 1 + n - (n_direct + 1) ≡ n = omega arith in
      let e : ref s k ≡ word_at (s.cache b) (4 * n) =
        ref_entry sb fits s k (omega arith)
        ∙ entry_word sb fits s.cache b (k - (n_direct + 1)) nz
        ∙ ap (λ m. word_at (s.cache b) (4 * m)) at in
      let go = λ (a : ℕ). (do
        y ← bread b
        (if a == 0 then pure tt else (do set_buf b (put_word y (4 * n) a); log_write b))
        pure a) in
      elim (ℕ_discrete (word_at (s.cache b) (4 * n)) 0) [
        | no nz' ↦ (
          ref s k,
          s,
          rw (ne→== (word_at (s.cache b) (4 * n)) 0 nz') (ap (λ a. some (a, s)) (sym e)),
          has s k v f (λ z. nz' (sym e ∙ z)),
        )
        | yes z ↦ elim (balloc-cases sb s v) [
          | inl (ran, all) ↦ (
            0,
            s,
            rw (eq→== (word_at (s.cache b) (4 * n)) 0 z) (bind-some (balloc sb) go s 0 s ran),
            none_free s k v f (e ∙ z) all,
          )
          | inr (c, ran, t) ↦ (
            c,
            with_entry sb fits s v f c t b n,
            rw (eq→== (word_at (s.cache b) (4 * n)) 0 z) (
                bind-some (balloc sb) go s c (allocated sb s c) ran
                ∙ rw (ne→== c 0 (positive sb s v f c t)) (
                    set_buf-log_write (allocated sb s c) b
                      (put_word ((allocated sb s c).cache b) (4 * n) c) (pure c))),
            new s k c (with_entry sb fits s v f c t b n) v f t (omega arith) (e ∙ z)
                (entry-Filled sb fits s v f c t n low nz),
          )
        ]
      ]
