-- ===== src/Fs/Map/Trunc.antt =====
-- `itrunc`: the blocks of the file are free, and no others.
pub mod Calls
use os2_project.Base.{
  ℕ, ◌+◌, ◌-◌, ◌*◌, ◌≤◌, ◌<◌, ◌^◌, ◌≡◌, ◌≢◌, ◌⊎◌, inl, inr, refl, sym, ap, subst, ◌∙◌, arith, true,
  false, some, if◌then◌else◌, ◌==◌, update, update-ne, update_self, ℕ_discrete, dec_lt, eq→==,
  ne→==,
}
use os2_project.Raid.Superblock.{word_at}
use os2_project.Fs.{
  Super, Inode, Fs, M, pure, ◌>>=◌, ◌>>◌, get_inode, set_inode, set_addr, bfree, free_direct,
  free_entries, itrunc, iupdate, iblock, n_direct, n_indirect,
}
use os2_project.Fs.Alloc.{map_end, in_use, IsValid}
use os2_project.Fs.Alloc.Calls.{released}
use os2_project.Fs.Map.{with_addrs, ref, n_refs, IsFile}
use os2_project.Fs.Map.Bmap.{bind-some, ref_own, ref_entry, entry_word, entry_zero}
use os2_project.Fs.Map.Free.{Range, Frees, Frees-map, Frees-trans, bfree_one}
use os2_project.Fs.Map.Free.Loops.{
  cleared, free_direct-Frees, free_entries-Frees, zeroed, zeroed-Frees,
}
use os2_project.Fs.Rw.Finish.{HasInode, on_block, updated, iupdate_lem, with_size}
use os2_project.Fs.Rw.Put.{put-IsValid, put-in_use}

module _ (sb : Super) (fits : sb.size < 2 ^ 32) where
  -- No address is left.
  pub no_refs :
      (t : Fs) → ((k : ℕ) → k < n_direct + 1 → t.inode.addrs k ≡ 0) → (k : ℕ) → ref t k ≡ 0
  no_refs t none_own k = elim (dec_lt k (n_direct + 1)) [
    | yes own ↦ ref_own sb fits t k own ∙ none_own k own
    | no far ↦
        ref_entry sb fits t k (omega arith)
        ∙ entry_zero sb fits t.cache (t.inode.addrs n_direct) (k - (n_direct + 1))
            (none_own n_direct (omega arith))
  ]

  pub no_entry : (s : Fs) (k : ℕ) → n_direct ≤ k → s.inode.addrs n_direct ≡ 0 → ref s k ≡ 0
  no_entry s k le z = elim (dec_lt k (n_direct + 1)) [
    | yes own ↦
        let at : k ≡ n_direct = omega arith in ref_own sb fits s k own ∙ ap s.inode.addrs at ∙ z
    | no far ↦
        ref_entry sb fits s k (omega arith)
        ∙ entry_zero sb fits s.cache (s.inode.addrs n_direct) (k - (n_direct + 1)) z
  ]

  module _ (s : Fs) (v : IsValid sb s) (f : IsFile sb s) where
    -- The other blocks of the file stay in use.
    other_used :
        (t : Fs) (P : ℕ → Type 0) (m : ℕ)
        → Frees sb s t (ref s) P
        → ((l : ℕ) → P l → (l < n_refs) × (l ≢ m))
        → m < n_refs
        → ref s m ≢ 0
        → in_use sb t (ref s m) ≡ true
    other_used t P m g apart lt nz =
        let (behind, busy) = f.owned m lt nz in
        g.kept (ref s m) behind.1
          (λ l p same. (apart l p).1 (sym (f.distinct m l lt (apart l p).0 nz (sym same))))
        ∙ busy

    -- Two parts of the addresses freed one after the other.
    both_freed :
        (t u : Fs) (P Q : ℕ → Type 0)
        → ((l m : ℕ) → P l → Q m → (l < n_refs) × (m < n_refs) × (l ≢ m))
        → ((l : ℕ) → P l → l < n_refs)
        → Frees sb s t (ref s) P
        → Frees sb t u (ref s) Q
        → Frees sb s u (ref s) (λ l. P l ⊎ Q l)
    both_freed t u P Q apart low g h =
        Frees-trans sb s t u (ref s) P Q
          (λ l m p q nz same.
            let (hl, hm, ne) = apart l m p q in ne (f.distinct l m hl hm nz (sym same)))
          (λ l p nz. (f.owned l (low l p) nz).0.1) g h

    pub direct_freed :
        (t : Fs) × (free_direct sb n_direct 0 s ≡ some (tt, t))
        × Frees sb s t (ref s) (Range 0 n_direct)
        × (t.inode ≡ with_addrs s.inode (cleared 0 n_direct s.inode.addrs))
    direct_freed =
        free_direct-Frees sb s f n_direct 0 s v (omega arith)
          (λ l r nz. (f.owned l (omega (arith, r.1)) nz).1)
          (λ l low high. sym (ref_own sb fits s l (omega arith)))

    -- The indirect block with its entries.
    pub indirect_freed :
        (t : Fs)
        → Frees sb s t (ref s) (Range 0 n_direct)
        → s.inode.addrs n_direct ≢ 0
        → t.inode.addrs n_direct ≡ s.inode.addrs n_direct
        → (u : Fs) × ((do
          free_entries sb (t.inode.addrs n_direct) n_indirect 0
          bfree sb (t.inode.addrs n_direct)
          set_addr n_direct 0)
              t
            ≡ some (tt, u))
          × Frees sb s u (ref s) (λ l. l < n_refs)
          × (u.inode ≡ with_addrs t.inode (update t.inode.addrs n_direct 0))
    indirect_freed t g nz same =
        let b = s.inode.addrs n_direct in
        let eb : ref s n_direct ≡ b = ref_own sb fits s n_direct (omega arith) in
        let nz' : ref s n_direct ≢ 0 = λ z. nz (sym eb ∙ z) in
        let far : map_end sb < b =
          subst (λ b. map_end sb < b) eb (f.owned n_direct (omega arith) nz').0.0 in
        let (u, ran, h, ino) =
          free_entries-Frees sb s f b n_indirect 0 t g.valid far (omega arith)
            (λ l r nz.
              other_used t (Range 0 n_direct) l g
                (λ m q. (omega (arith, q.1), omega (arith, q.1, r.0))) (omega (arith, r.1)) nz)
            (λ l low high.
              let at : n_direct + 1 + l - (n_direct + 1) ≡ l = omega arith in
              ap (λ x. word_at x (4 * l)) (g.blocks b (inr far))
              ∙ sym (
                  ref_entry sb fits s (n_direct + 1 + l) (omega arith)
                  ∙ entry_word sb fits s.cache b (n_direct + 1 + l - (n_direct + 1)) nz
                  ∙ ap (λ j. word_at (s.cache b) (4 * j)) at)) in
        let two =
          both_freed t u (Range 0 n_direct) (Range (n_direct + 1 + 0) n_indirect)
            (λ l m p q. (omega (arith, p.1), omega (arith, q.1), omega (arith, p.1, q.0)))
            (λ l p. omega (arith, p.1)) g h in
        let P = λ (l : ℕ). Range 0 n_direct l ⊎ Range (n_direct + 1 + 0) n_indirect l in
        let (freed, last) =
          bfree_one sb s f u n_direct h.valid (omega arith) nz'
            (other_used u P n_direct two (λ l p. not_last l p) (omega arith) nz') in
        let u3 = released sb u (ref s n_direct) in
        let all =
          both_freed u u3 P (λ m. m ≡ n_direct)
            (λ l m p at. ((not_last l p).0, omega (arith, at), λ e. (not_last l p).1 (e ∙ at)))
            (λ l p. (not_last l p).0) two last in
        (
          zeroed sb s f u3 n_direct,
          ap (λ c. (free_entries sb c n_indirect 0 >> (bfree sb c >> set_addr n_direct 0)) t) same
              ∙ bind-some (free_entries sb b n_indirect 0) (λ _. bfree sb b >> set_addr n_direct 0)
                  t tt u ran
              ∙ ap (λ c. (bfree sb c >> set_addr n_direct 0) u) (sym eb)
              ∙ bind-some (bfree sb (ref s n_direct)) (λ _. set_addr n_direct 0) u tt u3 freed,
          zeroed-Frees sb s f s u3 n_direct (λ l. l < n_refs)
              (Frees-map sb s u3 (ref s) (λ l. P l ⊎ (l ≡ n_direct)) (λ l. l < n_refs)
                (λ l either. elim either [ inl p ↦ (not_last l p).0 | inr at ↦ omega (arith, at) ])
                (λ l lt _. every l lt) all),
          ap (λ (ip : Inode). with_addrs ip (update ip.addrs n_direct 0)) ino,
        )
      where
        not_last :
            (l : ℕ)
            → Range 0 n_direct l ⊎ Range (n_direct + 1 + 0) n_indirect l
            → (l < n_refs) × (l ≢ n_direct)
        not_last l p = elim p [
          | inl r ↦ (omega (arith, r.1), omega (arith, r.1))
          | inr r ↦ (omega (arith, r.1), omega (arith, r.0))
        ]

        every :
            (l : ℕ)
            → l < n_refs
            → (Range 0 n_direct l ⊎ Range (n_direct + 1 + 0) n_indirect l) ⊎ (l ≡ n_direct)
        every l lt = elim (dec_lt l n_direct) [
          | yes low ↦ inl (inl (omega arith, omega arith))
          | no far ↦ elim (ℕ_discrete l n_direct) [
            | yes at ↦ inr at
            | no ne ↦ inl (inr (omega arith, omega arith))
          ]
        ]
