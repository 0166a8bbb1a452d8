-- ===== src/Fs/Map/Free/Loops.antt =====
-- The two loops of `itrunc`.
use os2_project.Base.{
  ℕ, zero, suc, ◌+◌, ◌*◌, ◌≤◌, ◌<◌, ◌≡◌, inr, refl, sym, ap, subst, ◌∙◌, arith, some, if◌then◌else◌,
  ltb, leb, ◌&&◌, update, update-ne, fun_ext, ℕ_discrete, eq→==, ne→==,
}
use os2_project.Raid.Superblock.{word_at}
use os2_project.Fs.{
  Super, Fs, ◌>>◌, set_addr, bfree, free_direct, free_entries, n_direct, n_indirect,
}
use os2_project.Fs.Alloc.{map_end, IsValid}
use os2_project.Fs.Alloc.Calls.{released}
use os2_project.Fs.Map.{with_addrs, ref, IsFile}
use os2_project.Fs.Map.Bmap.{bind-some}
use os2_project.Fs.Map.Free.{
  Range, Frees, Frees-map, Frees-none, StillUsed, bfree_one, then_rest, still,
}

-- The addresses with those from `i` on, `k` of them, set to 0.
abbrev pub cleared : ℕ → ℕ → (ℕ → ℕ) → ℕ → ℕ
cleared i k addrs l = if leb i l && ltb l (i + k) then 0 else addrs l

module _ (sb : Super) (s0 : Fs) (f0 : IsFile sb s0) where
  -- The state with one address set to 0.
  abbrev pub zeroed : Fs → ℕ → Fs
  zeroed s i = record s { inode = with_addrs s.inode (update s.inode.addrs i 0) }

  pub zeroed-Frees :
      (s t : Fs) (i : ℕ) (P : ℕ → Type 0)
      → Frees sb s t (ref s0) P
      → Frees sb s (zeroed t i) (ref s0) P
  zeroed-Frees s t i P g = record {
    valid = record { map = g.valid.map; meta = g.valid.meta; saved = g.valid.saved };
    freed = g.freed;
    kept = g.kept;
    blocks = g.blocks;
    mem = g.mem;
  }

  cleared_step :
      (i k : ℕ) (addrs : ℕ → ℕ) → cleared (i + 1) k (update addrs i 0) ≡ cleared i (suc k) addrs
  cleared_step i k addrs = fun_ext λ l. ground arith

  cleared_skip :
      (i k : ℕ) (addrs : ℕ → ℕ) → addrs i ≡ 0 → cleared (i + 1) k addrs ≡ cleared i (suc k) addrs
  cleared_skip i k addrs z =
      fun_ext λ l. elim (ℕ_discrete l i) [
        | yes at ↦ ground (arith, ap addrs at, z)
        | no ne ↦ ground arith
      ]

  skip_first :
      (s t : Fs) (i k : ℕ)
      → ref s0 i ≡ 0
      → Frees sb s t (ref s0) (Range (i + 1) k)
      → Frees sb s t (ref s0) (Range i (suc k))
  skip_first s t i k z g =
      Frees-map sb s t (ref s0) (Range (i + 1) k) (Range i (suc k))
        (λ l r. (omega (arith, r.0), omega (arith, r.1)))
        (λ l r nz. elim (ℕ_discrete l i) [
          | yes at ↦ absurd (nz (ap (ref s0) at ∙ z))
          | no ne ↦ (omega (arith, r.0), omega (arith, r.1))
        ])
        g

  nothing : (s : Fs) (i : ℕ) → IsValid sb s → Frees sb s s (ref s0) (Range i 0)
  nothing s i v = Frees-none sb s (ref s0) (Range i 0) v (λ l r. absurd (omega (arith, r.0, r.1)))

  pub free_entries-Frees :
      (b k i : ℕ) (s : Fs)
      → IsValid sb s
      → map_end sb < b
      → i + k ≤ n_indirect
      → StillUsed sb s0 f0 s (Range (n_direct + 1 + i) k)
      → ((l : ℕ) → i ≤ l → l < i + k → word_at (s.cache b) (4 * l) ≡ ref s0 (n_direct + 1 + l))
      → (t : Fs) × (free_entries sb b k i s ≡ some (tt, t))
        × Frees sb s t (ref s0) (Range (n_direct + 1 + i) k)
        × (t.inode ≡ s.inode)
  unfolding free_entries
  free_entries-Frees b zero i s v far room used same =
      (s, refl, nothing s (n_direct + 1 + i) v, refl)
  free_entries-Frees b (suc k) i s v far room used same =
      let l = n_direct + 1 + i in
      let here : word_at (s.cache b) (4 * i) ≡ ref s0 l = same i (omega arith) (omega arith) in
      let up : n_direct + 1 + (i + 1) ≡ l + 1 = omega arith in
      elim (ℕ_discrete (ref s0 l) 0) [
        | yes z ↦
            let (t, ran, g, ino) =
              free_entries-Frees b k (i + 1) s v far (omega arith)
                (λ m r nz. used m (omega (arith, r.0), omega (arith, r.1)) nz)
                (λ m low high. same m (omega arith) (omega arith)) in
            (
              t,
              rw (eq→== (word_at (s.cache b) (4 * i)) 0 (here ∙ z)) ran,
              skip_first s t l k z (subst (λ l. Frees sb s t (ref s0) (Range l k)) up g),
              ino,
            )
        | no nz ↦
            let (freed, g) =
              bfree_one sb s0 f0 s l v (omega arith) nz (used l (omega arith, omega arith) nz) in
            let s1 = released sb s (ref s0 l) in
            let used1 = still sb s0 f0 s s1 l k (omega arith) g used in
            let block : s1.cache b ≡ s.cache b = g.blocks b (inr far) in
            let (t, ran, h, ino) =
              free_entries-Frees b k (i + 1) s1 g.valid far (omega arith)
                (subst (λ l. StillUsed sb s0 f0 s1 (Range l k)) (sym up) used1)
                (λ m low high.
                  ap (λ x. word_at x (4 * m)) block ∙ same m (omega arith) (omega arith)) in
            (
              t,
              rw (ne→== (word_at (s.cache b) (4 * i)) 0 (λ z. nz (sym here ∙ z))) (
                  ap (λ c. (bfree sb c >> free_entries sb b k (i + 1)) s) here
                  ∙ bind-some (bfree sb (ref s0 l)) (λ _. free_entries sb b k (i + 1)) s tt s1 freed
                  ∙ ran),
              then_rest sb s0 f0 s s1 t l k (omega arith) g
                  (subst (λ l. Frees sb s1 t (ref s0) (Range l k)) up h),
              ino,
            )
      ]

  pub free_direct-Frees :
      (k i : ℕ) (s : Fs)
      → IsValid sb s
      → i + k ≤ n_direct
      → StillUsed sb s0 f0 s (Range i k)
      → ((l : ℕ) → i ≤ l → l < i + k → s.inode.addrs l ≡ ref s0 l)
      → (t : Fs) × (free_direct sb k i s ≡ some (tt, t))
        × Frees sb s t (ref s0) (Range i k)
        × (t.inode ≡ with_addrs s.inode (cleared i k s.inode.addrs))
  unfolding free_direct
  free_direct-Frees zero i s v room used same =
      (s, refl, nothing s i v, ap (with_addrs s.inode) (fun_ext λ l. keep i s.inode.addrs l))
    where
      keep : (i : ℕ) (addrs : ℕ → ℕ) (l : ℕ) → addrs l ≡ cleared i 0 addrs l
      keep i addrs l = ground arith
  free_direct-Frees (suc k) i s v room used same =
      let addrs = s.inode.addrs in
      let here : addrs i ≡ ref s0 i = same i (omega arith) (omega arith) in
      elim (ℕ_discrete (ref s0 i) 0) [
        | yes z ↦
            let (t, ran, g, ino) =
              free_direct-Frees k (i + 1) s v (omega arith)
                (λ m r nz. used m (omega (arith, r.0), omega (arith, r.1)) nz)
                (λ m low high. same m (omega arith) (omega arith)) in
            (
              t,
              rw (eq→== (addrs i) 0 (here ∙ z)) ran,
              skip_first s t i k z g,
              ino ∙ ap (with_addrs s.inode) (cleared_skip i k addrs (here ∙ z)),
            )
        | no nz ↦
            let (freed, g) =
              bfree_one sb s0 f0 s i v (omega arith) nz (used i (omega arith, omega arith) nz) in
            let s1 = released sb s (ref s0 i) in
            let s2 = zeroed s1 i in
            let g2 = zeroed-Frees s s1 i (λ m. m ≡ i) g in
            let (t, ran, h, ino) =
              free_direct-Frees k (i + 1) s2 g2.valid (omega arith)
                (still sb s0 f0 s s2 i k (omega arith) g2 used)
                (λ m low high.
                  update-ne addrs i m 0 (omega arith) ∙ same m (omega arith) (omega arith)) in
            (
              t,
              rw (ne→== (addrs i) 0 (λ z. nz (sym here ∙ z))) (
                  ap (λ c. ((bfree sb c >> set_addr i 0) >> free_direct sb k (i + 1)) s) here
                  ∙ bind-some (bfree sb (ref s0 i) >> set_addr i 0) (λ _. free_direct sb k (i + 1))
                      s tt s2 (bind-some (bfree sb (ref s0 i)) (λ _. set_addr i 0) s tt s1 freed)
                  ∙ ran),
              then_rest sb s0 f0 s s2 t i k (omega arith) g2 h,
              ino ∙ ap (with_addrs s.inode) (cleared_step i k addrs),
            )
      ]
