-- ===== src/Fs/Map/Fill.antt =====
-- A block just allocated becomes one of the file, at an address that was 0.
use os2_project.Base.{
  ℕ, ◌*◌, ◌/◌, ◌%◌, ◌<◌, ◌≡◌, ◌≢◌, inr, refl, sym, ap, subst, ◌∙◌, arith, true, false,
  if◌then◌else◌, ◌==◌, ℕ_discrete, eq→==, ne→==,
}
use os2_project.Fs.{Super, Fs, n_direct, max_file, block_size}
use os2_project.Fs.Alloc.{IsData, in_use, IsValid}
use os2_project.Fs.Alloc.Calls.{Takes}
use os2_project.Fs.Map.{with_addrs, ref, n_refs, slot, contents_at, byte_at, Beside, IsFile, Grows}

false-ne-true : {A : Type 0} → false ≡ true → A
false-ne-true h = absurd cc

module _ (sb : Super) (s : Fs) (v : IsValid sb s) (f : IsFile sb s) (c : ℕ) (t : Takes sb s c) where
  -- The state `s'` has block `c`, all zero, at the address `j`; the rest of the file is as it was.
  pub record Filled (j : ℕ) (s' : Fs) : Type 0 where
    pub valid : IsValid sb s'
    pub here : ref s' j ≡ c
    pub there : (k : ℕ) → k < n_refs → k ≢ j → ref s' k ≡ ref s k
    pub used : (b : ℕ) → b < sb.size → in_use sb s' b ≡ (if c == b then true else in_use sb s b)
    pub zero_block : s'.cache c ≡ (λ k. 0)
    pub cache : (b : ℕ) → c ≢ b → b ≢ s.inode.addrs n_direct → Beside sb b → s'.cache b ≡ s.cache b
    pub shape : s'.inode ≡ with_addrs s.inode s'.inode.addrs
    pub mem : s'.mem ≡ s.mem

  pub positive : c ≢ 0
  positive z = absurd (omega (arith, t.behind.0))

  -- No address of the file is that of the new block.
  pub fresh : (k : ℕ) → k < n_refs → ref s k ≢ c
  fresh k lt e =
      let nz : ref s k ≢ 0 = λ z. positive (sym e ∙ z) in
      false-ne-true (sym t.free ∙ ap (in_use sb s) (sym e) ∙ (f.owned k lt nz).1)

  still_used :
      (j : ℕ) (s' : Fs)
      → Filled j s'
      → (b : ℕ) → b < sb.size
      → in_use sb s b ≡ true
      → in_use sb s' b ≡ true
  still_used j s' g b lt h =
      g.used b lt
      ∙ elim (ℕ_discrete c b) [ yes e ↦ rw (eq→== c b e) refl | no ne ↦ rw (ne→== c b ne) h ]

  Filled-IsFile : (j : ℕ) (s' : Fs) → j < n_refs → Filled j s' → IsFile sb s'
  Filled-IsFile j s' low g = record {
    distinct = λ k l hk hl nz e. elim (ℕ_discrete k j) [
      | yes at ↦ elim (ℕ_discrete l j) [
        | yes at' ↦ at ∙ sym at'
        | no ne' ↦ absurd (fresh l hl (sym (g.there l hl ne') ∙ sym e ∙ ap (ref s') at ∙ g.here))
      ]
      | no ne ↦ elim (ℕ_discrete l j) [
        | yes at' ↦ absurd (fresh k hk (sym (g.there k hk ne) ∙ e ∙ ap (ref s') at' ∙ g.here))
        | no ne' ↦
            f.distinct k l hk hl (λ z. nz (g.there k hk ne ∙ z))
              (sym (g.there k hk ne) ∙ e ∙ g.there l hl ne')
      ]
    ];
    owned = λ k hk nz. elim (ℕ_discrete k j) [
      | yes at ↦
          let e : c ≡ ref s' k = sym g.here ∙ ap (ref s') (sym at) in
          subst (λ b. IsData sb b × (in_use sb s' b ≡ true)) e
            (t.behind, g.used c t.behind.1 ∙ rw (eq→== c c refl) refl)
      | no ne ↦
          let e : ref s k ≡ ref s' k = sym (g.there k hk ne) in
          let (behind, busy) = f.owned k hk (λ z. nz (sym e ∙ z)) in
          subst (λ b. IsData sb b × (in_use sb s' b ≡ true)) e
            (behind, still_used j s' g (ref s k) behind.1 busy)
    ];
  }

  slot-lt : (b : ℕ) → b < max_file → slot b < n_refs
  slot-lt b lt = ground arith

  slot-ne : (b : ℕ) → slot b ≢ n_direct
  slot-ne b = ground arith

  -- A block of the file other than the indirect one.
  not_indirect :
      (k : ℕ) → k < n_refs → k ≢ n_direct → ref s k ≢ 0 → ref s k ≢ s.inode.addrs n_direct
  not_indirect k lt ne nz e = ne (f.distinct k n_direct lt (omega arith) nz e)

  Filled-bytes :
      (j : ℕ) (s' : Fs)
      → Filled j s'
      → ref s j ≡ 0
      → (i : ℕ) → i < max_file * block_size
      → byte_at s' i ≡ byte_at s i
  Filled-bytes j s' g was i lt =
      let k = slot (i / block_size) in
      let o = i % block_size in
      let hk : k < n_refs = slot-lt (i / block_size) (omega arith) in
      elim (ℕ_discrete k j) [
        | yes at ↦
            let old : ref s k ≡ 0 = ap (ref s) at ∙ was in
            let new : ref s' k ≡ c = ap (ref s') at ∙ g.here in
            ap (λ a. contents_at s'.cache a o) new
            ∙ rw (ne→== c 0 positive) (ap (λ x. x o) g.zero_block)
            ∙ sym (ap (λ a. contents_at s.cache a o) old)
        | no ne ↦
            ap (λ a. contents_at s'.cache a o) (g.there k hk ne) ∙ (elim (ℕ_discrete (ref s k) 0) [
              | yes z ↦
                  ap (λ a. contents_at s'.cache a o) z ∙ sym (ap (λ a. contents_at s.cache a o) z)
              | no nz ↦
                  let (behind, _) = f.owned k hk nz in
                  let same : s'.cache (ref s k) ≡ s.cache (ref s k) =
                    g.cache (ref s k) (λ e. fresh k hk (sym e))
                      (not_indirect k hk (slot-ne (i / block_size)) nz) (inr behind.0) in
                  ap (λ x. if ref s k == 0 then 0 else x o) same
            ])
      ]

  pub Filled-Grows : (j : ℕ) (s' : Fs) → j < n_refs → ref s j ≡ 0 → Filled j s' → Grows sb s s'
  Filled-Grows j s' low was g = record {
    valid = g.valid;
    file = Filled-IsFile j s' low g;
    bytes = Filled-bytes j s' g was;
    keeps = λ k lt nz. g.there k lt (λ e. nz (ap (ref s) e ∙ was));
    stays = still_used j s' g;
    others = λ b lt busy no_ref out.
        let apart : c ≢ b = λ e. false-ne-true (sym t.free ∙ ap (in_use sb s) e ∙ busy) in
        (
          g.cache b apart (λ e. no_ref n_direct (omega arith) (sym e)) out,
          λ k hk. elim (ℕ_discrete k j) [
            | yes at ↦ λ e. apart (sym g.here ∙ ap (ref s') (sym at) ∙ e)
            | no ne ↦ λ e. no_ref k hk (sym (g.there k hk ne) ∙ e)
          ],
        );
    shape = g.shape;
    mem = g.mem;
  }
