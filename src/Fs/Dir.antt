-- ===== src/Fs/Dir.antt =====
-- `dirlookup` of kernel/fs.c. The entry of a directory that it looks at is at the address `de`.
pub mod Lookup
use os2_project.Base.{
  ℕ, zero, suc, ◌+◌, ◌-◌, ◌*◌, ◌/◌, Bool, true, false, Option, some, none, if◌then◌else◌, ltb, ◌==◌,
  u32,
}
use os2_project.Base.Int.{is_zero}
use os2_project.PathName.{namecmp}
use os2_project.Fs.{Super, Inode, Fs, M, pure, ◌>>=◌, panic, get_inode}
use os2_project.Fs.Itable.{iget}
use os2_project.Fs.Rw.{readi}

-- T_DIR, and `sizeof(struct dirent)`
abbrev pub directory : ℕ
directory = 1

abbrev pub entry_size : ℕ
entry_size = 16

abbrev pub get_mem : M (ℕ → ℕ)
get_mem s = some (s.mem, s)

-- `de.inum` and `de.name`
abbrev pub de_inum : ℕ → (ℕ → ℕ) → ℕ
de_inum de mem = mem de + 256 * mem (de + 1)

abbrev pub de_name : ℕ → (ℕ → ℕ) → ℕ → ℕ
de_name de mem i = mem (de + (2 + i))

module _ (page : ℕ → ℕ) (sb : Super) (de : ℕ) where
  -- The loop of `dirlookup`: the inode number found, and the offset of its entry.
  unfoldable pub lookup_from : ℕ → ℕ → (ℕ → ℕ) → M (Option (ℕ × ℕ))
  lookup_from zero off name = pure none
  lookup_from (suc k) off name = do
    dp ← get_inode
    if ltb off dp.size
        then (do
          r ← readi page sb false de off entry_size
          if r == entry_size
              then (do
                mem ← get_mem
                if de_inum de mem == 0
                    then lookup_from k (u32 (off + entry_size)) name
                    else if is_zero (namecmp name (de_name de mem))
                    then pure (some (de_inum de mem, off))
                    else lookup_from k (u32 (off + entry_size)) name)
              else panic)
        else pure none

  -- `iget` for what the loop has found, in the table of inodes.
  abbrev pub get_found : ℕ → (ℕ → Inode) → Option (ℕ × ℕ) → M (Option (ℕ × ℕ) × (ℕ → Inode))
  get_found dev t none = pure (none, t)
  get_found dev t (some (inum, off)) = elim (iget dev inum t) [
    | none ↦ panic
    | some (j, t') ↦ pure (some (j, off), t')
  ]

  -- The table of inodes goes in and comes out; the results are the entry of the inode in the table,
  -- and `*poff`.
  unfoldable pub dirlookup : (ℕ → Inode) → (ℕ → ℕ) → M (Option (ℕ × ℕ) × (ℕ → Inode))
  dirlookup t name = do
    dp ← get_inode
    if dp.type == directory
        then (do
          found ← lookup_from ((dp.size + (entry_size - 1)) / entry_size) 0 name
          get_found dp.dev t found)
        else panic
