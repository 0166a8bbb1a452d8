-- ===== src/Fs/Map/Trunc/Calls.antt =====
-- `itrunc` as a whole.
use os2_project.Base.{
  ℕ, ◌+◌, ◌<◌, ◌^◌, ◌≡◌, ◌≢◌, ◌⊎◌, inl, inr, refl, sym, ap, ◌∙◌, arith, false, some, if◌then◌else◌,
  ◌==◌, update, update-ne, update_self, ℕ_discrete, dec_lt, eq→==, ne→==,
}
use os2_project.Fs.{
  Super, Inode, Fs, M, pure, ◌>>=◌, ◌>>◌, get_inode, set_inode, set_addr, bfree, free_direct,
  free_entries, itrunc, iupdate, iblock, n_direct, n_indirect,
}
use os2_project.Fs.Alloc.{map_end, in_use, IsValid}
use os2_project.Fs.Map.{with_addrs, ref, n_refs, IsFile}
use os2_project.Fs.Map.Bmap.{bind-some}
use os2_project.Fs.Map.Free.{Range, Frees, Frees-map}
use os2_project.Fs.Map.Free.Loops.{cleared}
use os2_project.Fs.Rw.Finish.{HasInode, on_block, updated, iupdate_lem, with_size}
use os2_project.Fs.Rw.Put.{put-IsValid, put-in_use}
use os2_project.Fs.Map.Trunc.{no_refs, no_entry, direct_freed, indirect_freed}

module _ (sb : Super) (fits : sb.size < 2 ^ 32) where
  module _ (s : Fs) (v : IsValid sb s) (f : IsFile sb s) where
    -- What is freed behind the first loop.
    abbrev if_indirect : ℕ → M (Unit {0})
    if_indirect b =
        if b == 0
        then pure tt
        else (do free_entries sb b n_indirect 0; bfree sb b; set_addr n_direct 0)

    middle :
        (t : Fs)
        → Frees sb s t (ref s) (Range 0 n_direct)
        → t.inode ≡ with_addrs s.inode (cleared 0 n_direct s.inode.addrs)
        → (u : Fs) × (if_indirect (t.inode.addrs n_direct) t ≡ some (tt, u))
          × Frees sb s u (ref s) (λ l. l < n_refs)
          × ((k : ℕ) → k < n_direct + 1 → u.inode.addrs k ≡ 0)
          × (u.inode ≡ with_addrs s.inode u.inode.addrs)
    middle t g ino =
        let same : t.inode.addrs n_direct ≡ s.inode.addrs n_direct =
          ap (λ (ip : Inode). ip.addrs n_direct) ino in
        let gone : (k : ℕ) → k < n_direct → t.inode.addrs k ≡ 0 =
          λ k lt. ap (λ (ip : Inode). ip.addrs k) ino ∙ zero_at k s.inode.addrs lt in
        elim (ℕ_discrete (s.inode.addrs n_direct) 0) [
          | yes z ↦ (
            t,
            rw (eq→== (t.inode.addrs n_direct) 0 (same ∙ z)) refl,
            Frees-map sb s t (ref s) (Range 0 n_direct) (λ l. l < n_refs)
                (λ l r. omega (arith, r.1))
                (λ l lt nz. elim (dec_lt l n_direct) [
                  | yes low ↦ (omega arith, omega arith)
                  | no far ↦ absurd (nz (no_entry sb fits s l (omega arith) z))
                ])
                g,
            (λ k lt. elim (dec_lt k n_direct) [
              | yes low ↦ gone k low
              | no far ↦ let at : k ≡ n_direct = omega arith in ap t.inode.addrs at ∙ same ∙ z
            ]),
            ino ∙ ap (λ (ip : Inode). with_addrs s.inode ip.addrs) (sym ino),
          )
          | no nz ↦
              let (u, ran, h, ino') = indirect_freed sb fits s v f t g nz same in
              let addrs : (k : ℕ) → u.inode.addrs k ≡ update t.inode.addrs n_direct 0 k =
                λ k. ap (λ (ip : Inode). ip.addrs k) ino' in
              (
                u,
                rw (ne→== (t.inode.addrs n_direct) 0 (λ z. nz (sym same ∙ z))) ran,
                h,
                (λ k lt. addrs k ∙ (elim (ℕ_discrete n_direct k) [
                  | yes at ↦ rw (eq→== n_direct k at) refl
                  | no ne ↦ rw (ne→== n_direct k ne) (gone k (omega arith))
                ])),
                ino'
                    ∙ ap (λ (ip : Inode). with_addrs ip (update t.inode.addrs n_direct 0)) ino
                    ∙ ap (λ (ip : Inode). with_addrs s.inode ip.addrs) (sym ino'),
              )
        ]
      where
        zero_at : (k : ℕ) (addrs : ℕ → ℕ) → k < n_direct → cleared 0 n_direct addrs k ≡ 0
        zero_at k addrs lt = ground arith

    -- The file without blocks.
    pub record Truncated (s' : Fs) : Type 0 where
      pub valid : IsValid sb s'
      pub empty : (k : ℕ) → k < n_refs → ref s' k ≡ 0
      pub size : s'.inode.size ≡ 0
      pub inode : s'.inode ≡ record s.inode { addrs = s'.inode.addrs; size = 0 }
      pub freed : (k : ℕ) → k < n_refs → ref s k ≢ 0 → in_use sb s' (ref s k) ≡ false
      pub kept :
          (d : ℕ)
          → d < sb.size
          → ((k : ℕ) → k < n_refs → ref s k ≢ d)
          → in_use sb s' d ≡ in_use sb s d
      pub blocks : (d : ℕ) → map_end sb < d → s'.cache d ≡ s.cache d
      pub on_disk :
          s'.saved (iblock sb s.inode.inum)
          ≡ on_block sb s'.inode (s.cache (iblock sb s.inode.inum))

    shrunk-Truncated :
        (u : Fs)
        → HasInode sb s
        → Frees sb s u (ref s) (λ l. l < n_refs)
        → ((k : ℕ) → k < n_direct + 1 → u.inode.addrs k ≡ 0)
        → u.inode ≡ with_addrs s.inode u.inode.addrs
        → Truncated (updated sb (with_size u 0))
    shrunk-Truncated u h g gone ino =
        let t = with_size u 0 in
        let ib = iblock sb u.inode.inum in
        let same : u.inode.inum ≡ s.inode.inum = ap (λ (ip : Inode). ip.inum) ino in
        let block : ib ≡ iblock sb s.inode.inum = ap (iblock sb) same in
        let tv : IsValid sb t = record {
          map = g.valid.map;
          meta = g.valid.meta;
          saved = g.valid.saved;
        } in
        let tf : IsFile sb t = record {
          distinct = λ j k hj hk nz _. absurd (nz (no_refs sb fits t gone j));
          owned = λ k hk nz. absurd (nz (no_refs sb fits t gone k));
        } in
        let x = on_block sb t.inode (u.cache ib) in
        let low : (ib < sb.bmapstart) ⊎ (map_end sb < ib) = inl (omega (arith, h.before, same)) in
        record {
          valid = put-IsValid sb t tv tf ib x low;
          empty = λ k lt. no_refs sb fits (updated sb t) gone k;
          size = refl;
          inode = shrink u.inode s.inode u.inode.addrs ino;
          freed = λ k lt nz.
              put-in_use sb t tv tf ib x low (ref s k) (f.owned k lt nz).0.1 ∙ g.freed k lt nz;
          kept = λ d lt no. put-in_use sb t tv tf ib x low d lt ∙ g.kept d lt no;
          blocks = λ d far.
              update-ne u.cache ib d x (λ e. absurd (omega (arith, far, e, h.before, same)))
              ∙ g.blocks d (inr far);
          on_disk =
              ap (update u.saved ib x) (sym block)
              ∙ update_self u.saved ib x
              ∙ ap (on_block sb t.inode)
                  (ap u.cache block ∙ g.blocks (iblock sb s.inode.inum) (inl h.before));
        }
      where
        shrink :
            (ip jp : Inode) (addrs : ℕ → ℕ)
            → ip ≡ with_addrs jp addrs
            → (record ip { size = 0 }) ≡ (record jp { addrs = addrs; size = 0 })
        shrink ip jp addrs e = ap (λ (ip : Inode). (record ip { size = 0 })) e

    -- Where the map and the file are consistent and the block of the inode lies before the map,
    -- `itrunc` returns, without a panic for a free block: each block of the file is free, all other
    -- blocks are in use as before, no contents of a data block have changed, the inode has no
    -- address left and size 0, and is on its block in the transaction.
    pub itrunc_lem : HasInode sb s → (s' : Fs) × (itrunc sb s ≡ some (tt, s')) × Truncated s'
    unfolding itrunc
    itrunc_lem h =
        let (t, ran, g, ino) = direct_freed sb fits s v f in
        let (u, ran', g', gone, ino') = middle t g ino in
        let last : M (Unit {0}) = (do
          ip ← get_inode
          set_inode (record ip { size = 0 })
          iupdate sb) in
        (
          updated sb (with_size u 0),
          bind-some (free_direct sb n_direct 0)
                (λ _. (do ip ← get_inode; if_indirect (ip.addrs n_direct); last)) s tt t ran
              ∙ bind-some (if_indirect (t.inode.addrs n_direct)) (λ _. last) t tt u ran'
              ∙ iupdate_lem sb (with_size u 0),
          shrunk-Truncated u h g' gone ino',
        )
