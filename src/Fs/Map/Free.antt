-- ===== src/Fs/Map/Free.antt =====
-- The blocks of a file freed one after the other, as `itrunc` does.
pub mod Loops
use os2_project.Base.{
  ℕ, zero, suc, ◌+◌, ◌-◌, ◌*◌, ◌≤◌, ◌<◌, ◌≡◌, ◌≢◌, ◌⊎◌, inl, inr, refl, sym, ap, subst, ◌∙◌, arith,
  Bool, true, false, Option, none, some, if◌then◌else◌, ltb, leb, ◌&&◌, ◌==◌, update, update-ne,
  update_self, fun_ext, ℕ_discrete, dec_lt, eq→==, ne→==, lt→ltb, le→ltb,
}
use os2_project.Raid.Superblock.{word_at}
use os2_project.Fs.{
  Super, Inode, Fs, M, pure, ◌>>=◌, ◌>>◌, get_inode, set_addr, bread, bfree, clear_bit, free_direct,
  free_entries, n_direct, n_indirect,
}
use os2_project.Fs.Bits.{clear_bit-used, clear_bit-AllBytes}
use os2_project.Fs.Alloc.{map_end, IsData, in_use, IsValid, marked-in_use, marked-IsValid}
use os2_project.Fs.Alloc.Calls.{released, bfree_lem, marked-cache}
use os2_project.Fs.Map.{with_addrs, ref, n_refs, IsFile}
use os2_project.Fs.Map.Bmap.{bind-some}

abbrev pub Range : ℕ → ℕ → ℕ → Type 0
Range i k l = (i ≤ l) × (l < i + k)

module _ (sb : Super) where
  -- The blocks `e l` for the `l` in `P` are free in `t`; the contents of no block have changed, and
  -- nothing else of the map.
  pub record Frees (s t : Fs) (e : ℕ → ℕ) (P : ℕ → Type 0) : Type 0 where
    pub valid : IsValid sb t
    pub freed : (l : ℕ) → P l → e l ≢ 0 → in_use sb t (e l) ≡ false
    pub kept : (d : ℕ) → d < sb.size → ((l : ℕ) → P l → e l ≢ d) → in_use sb t d ≡ in_use sb s d
    pub blocks : (d : ℕ) → (d < sb.bmapstart) ⊎ (map_end sb < d) → t.cache d ≡ s.cache d
    pub mem : t.mem ≡ s.mem

  pub Frees-map :
      (s t : Fs) (e : ℕ → ℕ) (P Q : ℕ → Type 0)
      → ((l : ℕ) → P l → Q l)
      → ((l : ℕ) → Q l → e l ≢ 0 → P l)
      → Frees s t e P
      → Frees s t e Q
  Frees-map s t e P Q there back g = record {
    valid = g.valid;
    freed = λ l q nz. g.freed l (back l q nz) nz;
    kept = λ d lt h. g.kept d lt (λ l p. h l (there l p));
    blocks = g.blocks;
    mem = g.mem;
  }

  pub Frees-none :
      (s : Fs) (e : ℕ → ℕ) (P : ℕ → Type 0)
      → IsValid sb s
      → ((l : ℕ) → P l → e l ≡ 0)
      → Frees s s e P
  Frees-none s e P v none_there = record {
    valid = v;
    freed = λ l p nz. absurd (nz (none_there l p));
    kept = λ d lt h. refl;
    blocks = λ d out. refl;
    mem = refl;
  }

  pub Frees-trans :
      (s t u : Fs) (e : ℕ → ℕ) (P Q : ℕ → Type 0)
      → ((l m : ℕ) → P l → Q m → e l ≢ 0 → e m ≢ e l)
      → ((l : ℕ) → P l → e l ≢ 0 → e l < sb.size)
      → Frees s t e P
      → Frees t u e Q
      → Frees s u e (λ l. P l ⊎ Q l)
  Frees-trans s t u e P Q apart low g h = record {
    valid = h.valid;
    freed = λ l either nz. elim either [
      | inl p ↦ h.kept (e l) (low l p nz) (λ m q. apart l m p q nz) ∙ g.freed l p nz
      | inr q ↦ h.freed l q nz
    ];
    kept = λ d lt no. h.kept d lt (λ l q. no l (inr q)) ∙ g.kept d lt (λ l p. no l (inl p));
    blocks = λ d out. h.blocks d out ∙ g.blocks d out;
    mem = h.mem ∙ g.mem;
  }

  -- The addresses of a file `s0`.
  module _ (s0 : Fs) (f0 : IsFile sb s0) where
    abbrev pub e : ℕ → ℕ
    e = ref s0

    abbrev pub StillUsed : Fs → (ℕ → Type 0) → Type 0
    StillUsed s P = (l : ℕ) → P l → e l ≢ 0 → in_use sb s (e l) ≡ true

    -- One block, which the file has.
    pub bfree_one :
        (s : Fs) (l : ℕ)
        → IsValid sb s
        → l < n_refs
        → e l ≢ 0
        → in_use sb s (e l) ≡ true
        → (bfree sb (e l) s ≡ some (tt, released sb s (e l)))
          × Frees s (released sb s (e l)) e (λ m. m ≡ l)
    bfree_one s l v lt nz busy =
        let at : IsData sb (e l) = (f0.owned l lt nz).0 in
        (
          bfree_lem sb s (e l) v at.1 busy,
          record {
            valid =
                marked-IsValid sb clear_bit false clear_bit-AllBytes clear_bit-used s (e l) v at;
            freed = λ m here nz.
                ap (λ m. in_use sb (released sb s (e l)) (e m)) here
                ∙ marked-in_use sb clear_bit false clear_bit-AllBytes clear_bit-used s (e l) (e l) v
                    at.1
                ∙ rw (eq→== (e l) (e l) refl) refl;
            kept = λ d low no.
                marked-in_use sb clear_bit false clear_bit-AllBytes clear_bit-used s (e l) d v at.1
                ∙ rw (ne→== (e l) d (no l refl)) refl;
            blocks = λ d out.
                marked-cache sb clear_bit false clear_bit-AllBytes clear_bit-used s (e l) d at.1
                  out;
            mem = refl;
          },
        )

    -- The first block of a range, and then the others.
    pub then_rest :
        (s t u : Fs) (i k : ℕ)
        → i + suc k ≤ n_refs
        → Frees s t e (λ m. m ≡ i)
        → Frees t u e (Range (i + 1) k)
        → Frees s u e (Range i (suc k))
    then_rest s t u i k room g h =
        Frees-map s u e (λ l. (l ≡ i) ⊎ Range (i + 1) k l) (Range i (suc k))
          (λ l either. elim either [
            | inl at ↦ (omega arith, omega arith)
            | inr (low, high) ↦ (omega arith, omega arith)
          ])
          (λ l r nz. elim (ℕ_discrete l i) [
            | yes at ↦ inl at
            | no ne ↦ inr (omega (arith, r.0), omega (arith, r.1))
          ])
          (Frees-trans s t u e (λ m. m ≡ i) (Range (i + 1) k)
            (λ l m at r nz same. absurd (
              omega
                (arith, r.0, at, f0.distinct l m (omega arith) (omega (arith, r.1)) nz (sym same))))
            (λ l at nz. (f0.owned l (omega arith) nz).0.1) g h)

    pub still :
        (s t : Fs) (i k : ℕ)
        → i + suc k ≤ n_refs
        → Frees s t e (λ m. m ≡ i)
        → StillUsed s (Range i (suc k))
        → StillUsed t (Range (i + 1) k)
    still s t i k room g used l r nz =
        let lt : l < n_refs = omega (arith, r.1) in
        g.kept (e l) (f0.owned l lt nz).0.1 (λ m at same.
          absurd (omega (arith, r.0, at, f0.distinct l m lt (omega arith) nz (sym same))))
        ∙ used l (omega (arith, r.0), omega (arith, r.1)) nz
