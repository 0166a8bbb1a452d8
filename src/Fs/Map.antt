-- ===== src/Fs/Map.antt =====
-- The blocks of the locked inode, and the bytes of its file.
pub mod Fill
pub mod Bmap
pub mod Gets
pub mod Free
pub mod Trunc
use os2_project.Base.{
  ℕ, ◌+◌, ◌-◌, ◌*◌, ◌/◌, ◌%◌, ◌≤◌, ◌<◌, ◌≡◌, ◌≢◌, ◌⊎◌, inl, inr, refl, sym, ap, subst, ◌∙◌, arith,
  true, false, if◌then◌else◌, ltb, ◌==◌,
}
use os2_project.Raid.Types.{Block}
use os2_project.Raid.Superblock.{word_at}
use os2_project.Fs.{Super, Inode, Fs, n_direct, max_file, block_size}
use os2_project.Fs.Alloc.{map_end, IsData, in_use, IsValid}

abbrev pub with_addrs : Inode → (ℕ → ℕ) → Inode
with_addrs ip addrs = record ip { addrs = addrs }

-- Entry `j` of an indirect block, 0 where there is no such block.
abbrev pub entry_of : (ℕ → Block) → ℕ → ℕ → ℕ
entry_of cache b j = if b == 0 then 0 else word_at (cache b) (4 * j)

-- All the addresses that an inode holds, by one number: its own, the last of which is that of the
-- indirect block, and then those in the indirect block.
abbrev pub ref : Fs → ℕ → ℕ
ref s k =
    if ltb k (n_direct + 1)
    then s.inode.addrs k
    else entry_of s.cache (s.inode.addrs n_direct) (k - (n_direct + 1))

abbrev pub n_refs : ℕ
n_refs = max_file + 1

-- The number of the address of block `bn` of the file.
abbrev pub slot : ℕ → ℕ
slot bn = if ltb bn n_direct then bn else bn + 1

abbrev pub contents_at : (ℕ → Block) → ℕ → ℕ → ℕ
contents_at cache a o = if a == 0 then 0 else cache a o

-- Byte `i` of the file, 0 where the file has no block.
abbrev pub byte_at : Fs → ℕ → ℕ
byte_at s i = contents_at s.cache (ref s (slot (i / block_size))) (i % block_size)

module _ (sb : Super) where
  -- A block that is not of the map.
  abbrev pub Beside : ℕ → Type 0
  Beside b = (b < sb.bmapstart) ⊎ (map_end sb < b)

  -- The blocks of the file are data blocks in use, each with one address.
  pub record IsFile (s : Fs) : Type 0 where
    pub distinct : (j k : ℕ) → j < n_refs → k < n_refs → ref s j ≢ 0 → ref s j ≡ ref s k → j ≡ k
    pub owned :
        (k : ℕ) → k < n_refs → ref s k ≢ 0 → IsData sb (ref s k) × (in_use sb s (ref s k) ≡ true)

  -- What may change when the file gets blocks: its bytes stay, and so do its addresses, all blocks in
  -- use that are not of the file, and all fields of the inode but the addresses.
  pub record Grows (s s' : Fs) : Type 0 where
    pub valid : IsValid sb s'
    pub file : IsFile s'
    pub bytes : (i : ℕ) → i < max_file * block_size → byte_at s' i ≡ byte_at s i
    pub keeps : (k : ℕ) → k < n_refs → ref s k ≢ 0 → ref s' k ≡ ref s k
    pub stays : (b : ℕ) → b < sb.size → in_use sb s b ≡ true → in_use sb s' b ≡ true
    pub others :
        (b : ℕ)
        → b < sb.size
        → in_use sb s b ≡ true
        → ((k : ℕ) → k < n_refs → ref s k ≢ b)
        → Beside b
        → (s'.cache b ≡ s.cache b) × ((k : ℕ) → k < n_refs → ref s' k ≢ b)
    pub shape : s'.inode ≡ with_addrs s.inode s'.inode.addrs
    pub mem : s'.mem ≡ s.mem

  pub Grows-refl : (s : Fs) → IsValid sb s → IsFile s → Grows s s
  Grows-refl s v f = record {
    valid = v;
    file = f;
    bytes = λ i lt. refl;
    keeps = λ k lt ne. refl;
    stays = λ b lt h. h;
    others = λ b lt h no_ref out. (refl, no_ref);
    shape = refl;
    mem = refl;
  }

  pub Grows-trans : (s t u : Fs) → Grows s t → Grows t u → Grows s u
  Grows-trans s t u g h = record {
    valid = h.valid;
    file = h.file;
    bytes = λ i lt. h.bytes i lt ∙ g.bytes i lt;
    keeps = λ k lt ne.
        let e : ref t k ≡ ref s k = g.keeps k lt ne in h.keeps k lt (λ z. ne (sym e ∙ z)) ∙ e;
    stays = λ b lt used. h.stays b lt (g.stays b lt used);
    others = λ b lt used no_ref out.
        let (same, still) = g.others b lt used no_ref out in
        let (same', still') = h.others b lt (g.stays b lt used) still out in (same' ∙ same, still');
    shape = h.shape ∙ ap (λ ip. with_addrs ip u.inode.addrs) g.shape;
    mem = h.mem ∙ g.mem;
  }
