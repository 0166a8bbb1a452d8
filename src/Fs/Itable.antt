-- ===== src/Fs/Itable.antt =====
-- `iget` of kernel/fs.c: the table of inodes in memory, by number of the entry.
use os2_project.Base.{
  ℕ, zero, suc, ◌+◌, ◌≤◌, ◌<◌, ◌≡◌, ◌≢◌, inl, inr, refl, sym, ap, subst, ◌∙◌, Bool, true, false,
  ◌&&◌, Bool-cases, Option, some, none, if◌then◌else◌, ltb, ◌==◌, arith, ℕ_discrete, eq→==, ne→==,
  update, update_self, update-ne,
}
use os2_project.Fs.{Inode}

-- NINODE
abbrev pub n_inode : ℕ
n_inode = 50

-- An entry whose inode is the one looked for.
abbrev pub is_wanted : Inode → ℕ → ℕ → Bool
is_wanted ip dev inum = ltb 0 ip.ref && (ip.dev == dev) && (ip.inum == inum)

-- The first empty entry that has been seen.
abbrev note : Option ℕ → ℕ → Inode → Option ℕ
note none i ip = if ip.ref == 0 then some i else none
note (some e) i ip = some e

abbrev recycled : Inode → ℕ → ℕ → Inode
recycled ip dev inum = record ip { dev = dev; inum = inum; ref = 1; valid = false }

-- The loop of `iget` from entry `i` on, and what follows it. `none`: it panics.
unfoldable pub iget_from : ℕ → ℕ → Option ℕ → ℕ → ℕ → (ℕ → Inode) → Option (ℕ × (ℕ → Inode))
iget_from zero i none dev inum t = none
iget_from zero i (some e) dev inum t = some (e, update t e (recycled (t e) dev inum))
iget_from (suc k) i empty dev inum t =
    let rest = iget_from k (i + 1) (note empty i (t i)) dev inum t in
    if is_wanted (t i) dev inum
    then some (i, update t i (record (t i) { ref = (t i).ref + 1 }))
    else rest

unfoldable pub iget : ℕ → ℕ → (ℕ → Inode) → Option (ℕ × (ℕ → Inode))
unfolding iget_from
iget dev inum t = iget_from n_inode 0 none dev inum t

-- The entry has a reference to this inode.
abbrev pub Holds : Inode → ℕ → ℕ → Type 0
Holds ip dev inum = (ip.ref ≢ 0) × (ip.dev ≡ dev) × (ip.inum ≡ inum)

-- Entry `j` is the inode, with one more reference than before, or the first one.
pub record IsGot (dev inum : ℕ) (t : ℕ → Inode) (j : ℕ) (t' : ℕ → Inode) : Type 0 where
  pub inside : j < n_inode
  pub others : (l : ℕ) → l ≢ j → t' l ≡ t l
  pub device : (t' j).dev ≡ dev
  pub number : (t' j).inum ≡ inum
  pub more : (t' j).ref ≡ (t j).ref + 1
  pub known : (t j).ref ≢ 0 → Holds (t j) dev inum × ((t' j).valid ≡ (t j).valid)
  pub fresh :
      (t j).ref ≡ 0 → ((t' j).valid ≡ false) × ((l : ℕ) → l < n_inode → Holds (t l) dev inum → ⊥)

-- An empty entry has been seen, or is still to come.
abbrev Room : (ℕ → Inode) → ℕ → Option ℕ → Type 0
Room t i none = (e : ℕ) × (i ≤ e) × (e < n_inode) × ((t e).ref ≡ 0)
Room t i (some e) = (e < n_inode) × ((t e).ref ≡ 0)

module _ (dev inum : ℕ) (t : ℕ → Inode) where
  Room-note : (i : ℕ) (empty : Option ℕ) → Room t i empty → Room t (i + 1) (note empty i (t i))
  Room-note i none (e, low, lt, free) = elim (ℕ_discrete (t i).ref 0) [
    | yes z ↦ rw (eq→== (t i).ref 0 z) (omega arith, z)
    | no nz ↦ rw (ne→== (t i).ref 0 nz) (
      e,
      (elim (ℕ_discrete i e) [
        | yes same ↦ absurd (nz (ap (λ l. (t l).ref) same ∙ free))
        | no ne ↦ omega arith
      ]),
      lt,
      free,
    )
  ]
  Room-note i (some e) r = r

  unmatched : (i : ℕ) → is_wanted (t i) dev inum ≡ false → Holds (t i) dev inum → ⊥
  unmatched i no_match (used, d, n) = absurd (ground (arith, used, d, n))

  matched : (i : ℕ) → is_wanted (t i) dev inum ≡ true → Holds (t i) dev inum
  matched i match = (ground arith, ground arith, ground arith)

  Got-known :
      (i : ℕ)
      → i < n_inode
      → Holds (t i) dev inum
      → IsGot dev inum t i (update t i (record (t i) { ref = (t i).ref + 1 }))
  Got-known i lt h =
      let x : Inode = record (t i) { ref = (t i).ref + 1 } in
      let at = update_self t i x in
      record {
        inside = lt;
        others = λ l ne. update-ne t i l x (λ e. ne (sym e));
        device = ap (λ (y : Inode). y.dev) at ∙ h.1;
        number = ap (λ (y : Inode). y.inum) at ∙ h.2;
        more = ap (λ (y : Inode). y.ref) at;
        known = λ _. (h, ap (λ (y : Inode). y.valid) at);
        fresh = λ z. absurd (h.0 z);
      }

  Got-fresh :
      (e : ℕ)
      → e < n_inode
      → (t e).ref ≡ 0
      → ((l : ℕ) → l < n_inode → Holds (t l) dev inum → ⊥)
      → IsGot dev inum t e (update t e (recycled (t e) dev inum))
  Got-fresh e lt z all =
      let x : Inode = recycled (t e) dev inum in
      let at = update_self t e x in
      record {
        inside = lt;
        others = λ l ne. update-ne t e l x (λ same. ne (sym same));
        device = ap (λ (y : Inode). y.dev) at;
        number = ap (λ (y : Inode). y.inum) at;
        more = ap (λ (y : Inode). y.ref) at ∙ omega (arith, z);
        known = λ nz. absurd (nz z);
        fresh = λ _. (ap (λ (y : Inode). y.valid) at, all);
      }

  iget_from_lem :
      (k i : ℕ) (empty : Option ℕ)
      → i + k ≡ n_inode
      → ((l : ℕ) → l < i → Holds (t l) dev inum → ⊥)
      → Room t i empty
      → (j : ℕ) × (t' : ℕ → Inode) × (iget_from k i empty dev inum t ≡ some (j, t'))
        × IsGot dev inum t j t'
  unfolding iget_from
  iget_from_lem zero i none e all (f, low, lt, free) = absurd (omega arith)
  iget_from_lem zero i (some f) e all r = (
    f,
    update t f (recycled (t f) dev inum),
    refl,
    Got-fresh f r.0 r.1 (λ l lt. all l (omega arith)),
  )
  iget_from_lem (suc k) i empty e all r = elim (Bool-cases (is_wanted (t i) dev inum)) [
    | inl match ↦ (
      i,
      update t i (record (t i) { ref = (t i).ref + 1 }),
      rw match refl,
      Got-known i (omega arith) (matched i match),
    )
    | inr no_match ↦
        let (j, t', run, got) =
          iget_from_lem k (i + 1) (note empty i (t i)) (omega arith)
            (λ l lt. elim (ℕ_discrete i l) [
              | yes same ↦
                  λ h. unmatched i no_match (subst (λ l. Holds (t l) dev inum) (sym same) h)
              | no ne ↦ all l (omega arith)
            ])
            (Room-note i empty r) in
        (j, t', rw no_match run, got)
  ]

  -- While the table has an empty entry `iget` returns the inode.
  pub iget_lem :
      (e : ℕ)
      → e < n_inode
      → (t e).ref ≡ 0
      → (j : ℕ) × (t' : ℕ → Inode) × (iget dev inum t ≡ some (j, t')) × IsGot dev inum t j t'
  unfolding iget
  iget_lem e lt z =
      iget_from_lem n_inode 0 none refl (λ l low. absurd (omega arith)) (e, omega arith, lt, z)
