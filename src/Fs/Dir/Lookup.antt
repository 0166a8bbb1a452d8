-- ===== src/Fs/Dir/Lookup.antt =====
-- What `dirlookup` finds.
use os2_project.Base.{
  ℕ, zero, suc, ◌+◌, ◌-◌, ◌*◌, ◌/◌, ◌^◌, ◌≤◌, ◌<◌, ◌≡◌, ◌≢◌, ◌⊎◌, inl, inr, ◌↔◌, true, false,
  Bool-cases, Option, some, none, if◌then◌else◌, ◌==◌, u32, refl, sym, ap, ap₂, subst, ◌∙◌, arith,
  ℕ_discrete, eq→==, ne→==, lt→ltb,
}
use os2_project.Base.Int.{is_zero}
use os2_project.KernelString.Text.{strncmp_iff}
use os2_project.PathName.{namecmp}
use os2_project.UserCopy.Bytes.{stored}
use os2_project.UserCopy.In.{stored_at, stored_beside}
use os2_project.Kalloc.{page_size}
use os2_project.Fs.Itable.{n_inode, iget, IsGot, iget_lem}
use os2_project.Fs.{Super, Inode, Fs, M, pure, ◌>>=◌, panic}
use os2_project.Fs.Alloc.{IsValid}
use os2_project.Fs.Map.{byte_at, IsFile}
use os2_project.Fs.Map.Bmap.{bind-some}
use os2_project.Fs.Rw.{readi}
use os2_project.Fs.Rw.Read.{IsWhole, with_mem, readable, readi_lem}
use os2_project.Fs.Dir.{
  directory, entry_size, get_mem, de_inum, de_name, lookup_from, get_found, dirlookup,
}

-- Entry `i` of a directory: its inode number, and its name.
abbrev pub entry_inum : Fs → ℕ → ℕ
entry_inum s i = byte_at s (entry_size * i + 0) + 256 * byte_at s (entry_size * i + 1)

abbrev pub entry_name : Fs → ℕ → ℕ → ℕ
entry_name s i m = byte_at s (entry_size * i + (2 + m))

-- Two names of at most 14 bytes, up to the first 0.
abbrev pub SameName : (ℕ → ℕ) → (ℕ → ℕ) → Type 0
SameName p q = (m : ℕ) → m < 14 → ((l : ℕ) → l < m → p l ≢ 0) → p m ≡ q m

-- Entry `i` is in use, and has the name.
abbrev pub Names : Fs → (ℕ → ℕ) → ℕ → Type 0
Names s name i = (entry_inum s i ≢ 0) × SameName name (entry_name s i)

namecmp_iff : (p q : ℕ → ℕ) → (is_zero (namecmp p q) ≡ true) ↔ SameName p q
unfolding namecmp
namecmp_iff p q = strncmp_iff p q 14

module _ (page : ℕ → ℕ) (sb : Super) (fits : sb.size < 2 ^ 32) (de : ℕ)
    (room : de + entry_size + page_size ≤ 2 ^ 64) (name : ℕ → ℕ) (n : ℕ) (s : Fs) (v : IsValid sb s)
    (f : IsFile sb s) (w : IsWhole s) (whole : s.inode.size ≡ entry_size * n) where
  -- The memory with entry `j` in it.
  abbrev with_entry : ℕ → (ℕ → ℕ) → ℕ → ℕ
  with_entry j mem = stored entry_size (λ i. de + i) (λ i. byte_at s (entry_size * j + i)) mem

  read_entry :
      (j : ℕ) (mem : ℕ → ℕ)
      → j < n
      → readi page sb false de (entry_size * j) entry_size (with_mem s mem)
        ≡ some (entry_size, with_mem s (with_entry j mem))
  read_entry j mem lt =
      let sv : IsValid sb (with_mem s mem) = record {
        map = v.map;
        meta = v.meta;
        saved = v.saved;
      } in
      let sf : IsFile sb (with_mem s mem) = record { distinct = f.distinct; owned = f.owned } in
      let sw : IsWhole (with_mem s mem) = record { small = w.small; blocks = w.blocks } in
      let inside : entry_size * j + entry_size ≤ s.inode.size = omega (arith, lt, whole) in
      let all : readable (with_mem s mem) (entry_size * j) entry_size ≡ entry_size =
        ground (arith, inside, w.small) in
      readi_lem page sb fits false (with_mem s mem) sv sf sw de (entry_size * j) entry_size
        (omega arith) (omega (arith, inside, w.small)) (omega (arith, room, all), λ h. absurd cc)
      ∙ ap
          (λ l.
            some (l, with_mem s (stored l (λ i. de + i) (λ i. byte_at s (entry_size * j + i)) mem)))
          all

  -- Only the bytes of the entry differ.
  abbrev Around : (ℕ → ℕ) → (ℕ → ℕ) → Type 0
  Around mem mem' = (a : ℕ) → (a < de) ⊎ (de + entry_size ≤ a) → mem' a ≡ mem a

  with_entry-Around : (j : ℕ) (mem : ℕ → ℕ) → Around mem (with_entry j mem)
  with_entry-Around j mem a out =
      stored_beside entry_size (λ i. de + i) (λ i. byte_at s (entry_size * j + i)) mem a
        (λ i lt e. elim out [
          | inl low ↦ absurd (omega (arith, e))
          | inr high ↦ absurd (omega (arith, e))
        ])

  entry_byte :
      (j : ℕ) (mem : ℕ → ℕ) (i : ℕ)
      → i < entry_size
      → with_entry j mem (de + i) ≡ byte_at s (entry_size * j + i)
  entry_byte j mem i lt =
      stored_at entry_size (λ i. de + i) (λ i. byte_at s (entry_size * j + i)) mem
        (λ a b _ _ e. omega (arith, e)) i lt

  read_inum : (j : ℕ) (mem : ℕ → ℕ) → de_inum de (with_entry j mem) ≡ entry_inum s j
  read_inum j mem =
      let first : de ≡ de + 0 = omega arith in
      ap₂ (λ a b. a + 256 * b) (ap (with_entry j mem) first ∙ entry_byte j mem 0 (omega arith))
        (entry_byte j mem 1 (omega arith))

  same_name :
      (j : ℕ) (mem : ℕ → ℕ)
      → SameName name (de_name de (with_entry j mem)) ↔ SameName name (entry_name s j)
  same_name j mem = (
    λ h m lt before. h m lt before ∙ entry_byte j mem (2 + m) (omega arith),
    λ h m lt before. h m lt before ∙ sym (entry_byte j mem (2 + m) (omega arith)),
  )

  -- The loop from entry `j` on.
  abbrev search : ℕ → ℕ → (ℕ → ℕ) → Option (Option (ℕ × ℕ) × Fs)
  search k j mem = lookup_from page sb de k (entry_size * j) name (with_mem s mem)

  -- What the loop does with entry `j` in memory.
  abbrev decided : ℕ → ℕ → (ℕ → ℕ) → M (Option (ℕ × ℕ))
  decided k j mem =
      if entry_inum s j == 0
      then lookup_from page sb de k (entry_size * (j + 1)) name
      else if is_zero (namecmp name (de_name de mem))
      then pure (some (entry_inum s j, entry_size * j))
      else lookup_from page sb de k (entry_size * (j + 1)) name

  turn :
      (k j : ℕ) (mem : ℕ → ℕ)
      → j < n
      → search (suc k) j mem ≡ decided k j (with_entry j mem) (with_mem s (with_entry j mem))
  unfolding lookup_from
  turn k j mem lt =
      let mem1 = with_entry j mem in
      let off = entry_size * j in
      let inside : off < s.inode.size = omega (arith, lt, whole) in
      let next : u32 (off + entry_size) ≡ entry_size * (j + 1) = omega (arith, inside, w.small) in
      let go = λ (r : ℕ).
        if r == entry_size
        then (do
          mem ← get_mem
          if de_inum de mem == 0
              then lookup_from page sb de k (u32 (off + entry_size)) name
              else if is_zero (namecmp name (de_name de mem))
              then pure (some (de_inum de mem, off))
              else lookup_from page sb de k (u32 (off + entry_size)) name)
        else panic in
      rw (lt→ltb off s.inode.size inside) (
        bind-some (readi page sb false de off entry_size) go (with_mem s mem) entry_size
          (with_mem s mem1) (read_entry j mem lt)
        ∙ (ap₂ {C = Option (Option (ℕ × ℕ) × Fs)}
            (λ c o.
              (if c == 0
                  then lookup_from page sb de k o name
                  else if is_zero (namecmp name (de_name de mem1))
                  then pure (some (c, off))
                  else lookup_from page sb de k o name)
                (with_mem s mem1))
            (read_inum j mem) next))

  -- The two results of the loop from entry `j` on.
  abbrev Missing : ℕ → ℕ → (ℕ → ℕ) → Type 0
  Missing k j mem =
      (mem' : ℕ → ℕ) × (search k j mem ≡ some (none, with_mem s mem'))
      × Around mem mem'
      × ((i : ℕ) → j ≤ i → i < n → Names s name i → ⊥)

  abbrev Found : ℕ → ℕ → (ℕ → ℕ) → Type 0
  Found k j mem =
      (i : ℕ) × (mem' : ℕ → ℕ) × (search k j mem
        ≡ some (some (entry_inum s i, entry_size * i), with_mem s mem'))
      × Around mem mem'
      × (i < n)
      × Names s name i
      × ((l : ℕ) → j ≤ l → l < i → Names s name l → ⊥)

  -- An entry passed over.
  skip :
      (k j : ℕ) (mem mem1 : ℕ → ℕ)
      → search (suc k) j mem ≡ search k (j + 1) mem1
      → Around mem mem1
      → (Names s name j → ⊥)
      → Missing k (j + 1) mem1 ⊎ Found k (j + 1) mem1
      → Missing (suc k) j mem ⊎ Found (suc k) j mem
  skip k j mem mem1 e round other either = elim either [
    | inl (mem', ran, out, all) ↦ inl (
      mem',
      e ∙ ran,
      (λ a h. out a h ∙ round a h),
      λ i low lt. elim (ℕ_discrete j i) [
        | yes at ↦ λ here. other (subst (Names s name) (sym at) here)
        | no ne ↦ all i (omega arith) lt
      ],
    )
    | inr (i, mem', ran, out, lt, here, all) ↦ inr (
      i,
      mem',
      e ∙ ran,
      (λ a h. out a h ∙ round a h),
      lt,
      here,
      λ l low lt. elim (ℕ_discrete j l) [
        | yes at ↦ λ there. other (subst (Names s name) (sym at) there)
        | no ne ↦ all l (omega arith) lt
      ],
    )
  ]

  lookup_from-cases : (k j : ℕ) (mem : ℕ → ℕ) → j + k ≡ n → Missing k j mem ⊎ Found k j mem
  unfolding lookup_from
  lookup_from-cases zero j mem e = inl (mem, refl, (λ a h. refl), λ i low lt. absurd (omega arith))
  lookup_from-cases (suc k) j mem e =
      let mem1 = with_entry j mem in
      let ran = turn k j mem (omega arith) in
      let rest = lookup_from-cases k (j + 1) mem1 (omega arith) in
      elim (ℕ_discrete (entry_inum s j) 0) [
        | yes z ↦
            skip k j mem mem1 (ran ∙ rw (eq→== (entry_inum s j) 0 z) refl) (with_entry-Around j mem)
              (λ here. here.0 z) rest
        | no nz ↦ elim (Bool-cases (is_zero (namecmp name (de_name de mem1)))) [
          | inl same ↦ inr (
            j,
            mem1,
            ran ∙ rw (ne→== (entry_inum s j) 0 nz, same) refl,
            with_entry-Around j mem,
            omega arith,
            (nz, (same_name j mem).0 ((namecmp_iff name (de_name de mem1)).0 same)),
            λ l low lt. absurd (omega arith),
          )
          | inr differs ↦
              skip k j mem mem1 (ran ∙ rw (ne→== (entry_inum s j) 0 nz, differs) refl)
                (with_entry-Around j mem)
                (λ here.
                  cc (differs, (namecmp_iff name (de_name de mem1)).1 ((same_name j mem).1 here.1)))
                rest
        ]
      ]

  -- The loop of `dirlookup`, and the `iget` behind it.
  enter :
      (t : ℕ → Inode)
      → s.inode.type ≡ directory
      → dirlookup page sb de t name s
        ≡ (lookup_from page sb de n 0 name >>= get_found page sb de s.inode.dev t) s
  unfolding dirlookup
  enter t dir =
      let count : (s.inode.size + (entry_size - 1)) / entry_size ≡ n = omega (arith, whole) in
      rw (eq→== s.inode.type directory dir)
        (ap (λ k. (lookup_from page sb de k 0 name >>= get_found page sb de s.inode.dev t) s) count)

  get_found-some :
      (dev inum off j : ℕ) (t t' : ℕ → Inode) (u : Fs)
      → iget dev inum t ≡ some (j, t')
      → get_found page sb de dev t (some (inum, off)) u ≡ some ((some (j, off), t'), u)
  get_found-some dev inum off j t t' u h = cc h

  module _ (t : ℕ → Inode) (e : ℕ) (low : e < n_inode) (free : (t e).ref ≡ 0) where
    -- For a consistent file that is a directory of `n` whole entries, while the table of inodes has
    -- an empty entry, `dirlookup` returns without a panic. Where no entry in use has the name
    -- looked for, up to 14 bytes or the first 0, it returns a null pointer and leaves the table as
    -- it was; else it gives the offset of the first such entry, and the entry of the table that is
    -- the inode of its number on the device of the directory: the one that was there, with one more
    -- reference, or an empty one with its first reference, not yet read, where none was there. It
    -- changes no other entry of the table, and nothing else but the bytes of its own directory
    -- entry in memory.
    pub dirlookup_lem :
        s.inode.type ≡ directory
        → ((mem' : ℕ → ℕ) × (dirlookup page sb de t name s ≡ some ((none, t), with_mem s mem'))
            × Around s.mem mem'
            × ((i : ℕ) → i < n → Names s name i → ⊥))
          ⊎ ((i j : ℕ) × (t' : ℕ → Inode) × (mem' : ℕ → ℕ) × (dirlookup page sb de t name s
                ≡ some ((some (j, entry_size * i), t'), with_mem s mem'))
              × IsGot s.inode.dev (entry_inum s i) t j t'
              × Around s.mem mem'
              × (i < n)
              × Names s name i
              × ((l : ℕ) → l < i → Names s name l → ⊥))
    dirlookup_lem dir = elim (lookup_from-cases n 0 s.mem (omega arith)) [
      | inl (mem', there, out, all) ↦ inl (
        mem',
        enter t dir
            ∙ bind-some (lookup_from page sb de n 0 name) (get_found page sb de s.inode.dev t) s
                none (with_mem s mem') there,
        out,
        λ i lt. all i (omega arith) lt,
      )
      | inr (i, mem', there, out, lt, here, all) ↦
          let (j, t', took, is_got) = iget_lem s.inode.dev (entry_inum s i) t e low free in
          inr (
            i,
            j,
            t',
            mem',
            enter t dir
                ∙ bind-some (lookup_from page sb de n 0 name) (get_found page sb de s.inode.dev t) s
                    (some (entry_inum s i, entry_size * i)) (with_mem s mem') there
                ∙ get_found-some s.inode.dev (entry_inum s i) (entry_size * i) j t t'
                    (with_mem s mem') took,
            is_got,
            out,
            lt,
            here,
            λ l below. all l (omega arith) below,
          )
    ]
