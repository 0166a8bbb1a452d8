-- ===== src/Fs/Map/Bmap.antt =====
-- `bmap`: the blocks that it gives to the file.
use os2_project.Base.{
  ℕ, ◌+◌, ◌-◌, ◌*◌, ◌^◌, ◌≤◌, ◌<◌, ◌≡◌, ◌≢◌, ◌⊎◌, inl, inr, refl, sym, ap, ◌∙◌, arith, Option, none,
  some, if◌then◌else◌, lt→ltb, le→ltb, ◌==◌, update, update_self, update-ne, ℕ_discrete, dec_lt,
  eq→==, ne→==,
}
use os2_project.Raid.Types.{Block}
use os2_project.Raid.Superblock.{word_at}
use os2_project.Log.{put_word}
use os2_project.Log.Header.{word_of_put, word_beside_put}
use os2_project.Fs.{Super, Fs, M, ◌>>=◌, n_direct, n_indirect}
use os2_project.Fs.Alloc.{IsValid, written, written-IsValid, written-in_use, bblock-le}
use os2_project.Fs.Alloc.Calls.{
  allocated, Takes, allocated-IsValid, allocated-in_use, allocated-cache, allocated-zero,
}
use os2_project.Fs.Map.{with_addrs, entry_of, ref, IsFile}
use os2_project.Fs.Map.Fill.{Filled, fresh, positive}

pub bind-some :
    {A B : Type 0} (m : M A) (g : A → M B) (s : Fs) (a : A) (s' : Fs)
    → m s ≡ some (a, s')
    → (m >>= g) s ≡ g a s'
bind-some {B} m g s a s' e =
    ap {B = Option (B × Fs)} (λ o. elim o [ none ↦ none | some (a, s') ↦ g a s' ]) e

module _ (sb : Super) (fits : sb.size < 2 ^ 32) where
  abbrev pub with_slot : Fs → ℕ → ℕ → Fs
  with_slot s j c = record s { inode = with_addrs s.inode (update s.inode.addrs j c) }

  pub ref_own : (s : Fs) (k : ℕ) → k < n_direct + 1 → ref s k ≡ s.inode.addrs k
  ref_own s k lt = rw (lt→ltb k (n_direct + 1) lt) refl

  pub ref_entry :
      (s : Fs) (k : ℕ)
      → n_direct + 1 ≤ k
      → ref s k ≡ entry_of s.cache (s.inode.addrs n_direct) (k - (n_direct + 1))
  ref_entry s k le = rw (le→ltb k (n_direct + 1) le) refl

  pub entry_zero : (cache : ℕ → Block) (b j : ℕ) → b ≡ 0 → entry_of cache b j ≡ 0
  entry_zero cache b j z = rw (eq→== b 0 z) refl

  pub entry_word :
      (cache : ℕ → Block) (b j : ℕ) → b ≢ 0 → entry_of cache b j ≡ word_at (cache b) (4 * j)
  entry_word cache b j nz = rw (ne→== b 0 nz) refl

  beside :
      (k n : ℕ)
      → n_direct + 1 ≤ k
      → k ≢ n_direct + 1 + n
      → (4 * (k - (n_direct + 1)) + 4 ≤ 4 * n) ⊎ (4 * n + 4 ≤ 4 * (k - (n_direct + 1)))
  beside k n le ne = elim (dec_lt (k - (n_direct + 1)) n) [
    | yes lt ↦ inl (omega arith)
    | no far ↦ inr (omega arith)
  ]

  module _ (s : Fs) (v : IsValid sb s) (f : IsFile sb s) where
    module _ (c : ℕ) (t : Takes sb s c) where
      -- The indirect block is no other block, and stays.
      indirect_stays :
          s.inode.addrs n_direct ≢ 0
          → (allocated sb s c).cache (s.inode.addrs n_direct) ≡ s.cache (s.inode.addrs n_direct)
      indirect_stays nz =
          let (behind, _) = f.owned n_direct (omega arith) nz in
          allocated-cache sb s c (s.inode.addrs n_direct) t
            (λ e. fresh sb s v f c t n_direct (omega arith) (sym e)) (inr behind.0)

      entries_stay :
          (j : ℕ)
          → j < n_direct + 1
          → s.inode.addrs j ≡ 0
          → (k : ℕ)
          → entry_of (allocated sb s c).cache (update s.inode.addrs j c n_direct) k
            ≡ entry_of s.cache (s.inode.addrs n_direct) k
      entries_stay j low z k = elim (ℕ_discrete j n_direct) [
        | yes e ↦ rw (eq→== j n_direct e) (
            entry_word (allocated sb s c).cache c k (positive sb s v f c t)
            ∙ ap (λ x. word_at x (4 * k)) (allocated-zero sb s c)
            ∙ sym (entry_zero s.cache (s.inode.addrs n_direct) k (ap s.inode.addrs (sym e) ∙ z)))
        | no ne ↦ rw (ne→== j n_direct ne) (elim (ℕ_discrete (s.inode.addrs n_direct) 0) [
          | yes none_yet ↦
              entry_zero (allocated sb s c).cache (s.inode.addrs n_direct) k none_yet
              ∙ sym (entry_zero s.cache (s.inode.addrs n_direct) k none_yet)
          | no nz ↦
              ap (λ x. if s.inode.addrs n_direct == 0 then 0 else word_at x (4 * k))
                (indirect_stays nz)
        ])
      ]

      pub slot-Filled :
          (j : ℕ)
          → j < n_direct + 1
          → s.inode.addrs j ≡ 0
          → Filled sb s v f c t j (with_slot (allocated sb s c) j c)
      slot-Filled j low z =
          let v' = allocated-IsValid sb s c v t in
          let s' = with_slot (allocated sb s c) j c in
          record {
            valid = record { map = v'.map; meta = v'.meta; saved = v'.saved };
            here = ref_own s' j low ∙ update_self s.inode.addrs j c;
            there = λ k lt ne. elim (dec_lt k (n_direct + 1)) [
              | yes own ↦
                  ref_own s' k own
                  ∙ update-ne s.inode.addrs j k c (λ e. ne (sym e))
                  ∙ sym (ref_own s k own)
              | no far ↦
                  let le : n_direct + 1 ≤ k = omega arith in
                  ref_entry s' k le
                  ∙ entries_stay j low z (k - (n_direct + 1))
                  ∙ sym (ref_entry s k le)
            ];
            used = λ b lt. allocated-in_use sb s c b v t lt;
            zero_block = allocated-zero sb s c;
            cache = λ b ne _ out. allocated-cache sb s c b t ne out;
            shape = refl;
            mem = refl;
          }

      abbrev pub with_entry : ℕ → ℕ → Fs
      with_entry b n =
          written (allocated sb s c) b (put_word ((allocated sb s c).cache b) (4 * n) c)

      pub entry-Filled :
          (n : ℕ)
          → n < n_indirect
          → s.inode.addrs n_direct ≢ 0
          → Filled sb s v f c t (n_direct + 1 + n) (with_entry (s.inode.addrs n_direct) n)
      entry-Filled n low nz =
          let b = s.inode.addrs n_direct in
          let (behind, busy) = f.owned n_direct (omega arith) nz in
          let s1 = allocated sb s c in
          let s' = with_entry b n in
          let x = put_word (s1.cache b) (4 * n) c in
          let apart : b ≢ c = fresh sb s v f c t n_direct (omega arith) in
          let block : s'.cache b ≡ x = update_self s1.cache b x in
          let same : s1.cache b ≡ s.cache b = indirect_stays nz in
          let at : n_direct + 1 + n - (n_direct + 1) ≡ n = omega arith in
          record {
            valid = written-IsValid sb s1 b x (allocated-IsValid sb s c v t) behind.0;
            here =
                ref_entry s' (n_direct + 1 + n) (omega arith)
                ∙ ap (entry_of s'.cache b) at
                ∙ entry_word s'.cache b n nz
                ∙ ap (λ y. word_at y (4 * n)) block
                ∙ word_of_put (s1.cache b) (4 * n) c (omega (arith, fits, t.behind.1));
            there = λ k lt ne. elim (dec_lt k (n_direct + 1)) [
              | yes own ↦ ref_own s' k own ∙ sym (ref_own s k own)
              | no far ↦
                  let le : n_direct + 1 ≤ k = omega arith in
                  let m = k - (n_direct + 1) in
                  ref_entry s' k le
                  ∙ entry_word s'.cache b m nz
                  ∙ ap (λ y. word_at y (4 * m)) block
                  ∙ word_beside_put (s1.cache b) (4 * n) (4 * m) c (beside k n le ne)
                  ∙ ap (λ y. word_at y (4 * m)) same
                  ∙ sym (entry_word s.cache b m nz)
                  ∙ sym (ref_entry s k le)
            ];
            used = λ d lt.
                written-in_use sb s1 b d x (omega (arith, bblock-le sb d lt, behind.0))
                ∙ allocated-in_use sb s c d v t lt;
            zero_block = update-ne s1.cache b c x apart ∙ allocated-zero sb s c;
            cache = λ d ne ni out.
                update-ne s1.cache b d x (λ e. ni (sym e)) ∙ allocated-cache sb s c d t ne out;
            shape = refl;
            mem = refl;
          }
