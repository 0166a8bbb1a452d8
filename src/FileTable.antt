-- ===== src/FileTable.antt =====
-- kernel/file.c: the table of open files, and the counts of their references.
pub mod Counts
pub mod Calls
mod Tests
use os2_project.Base.{
  ℕ, zero, suc, ◌+◌, ◌-◌, ◌^◌, Bool, true, false, ◌||◌, Option, none, some, if◌then◌else◌, leb,
  ◌==◌, update, u32,
}

-- NFILE
abbrev pub n_file : ℕ
n_file = 100

pub data FileType : Type 0 where
  fd_none : FileType
  fd_pipe : FileType
  fd_inode : FileType
  fd_device : FileType

-- `struct file`; a pointer is its address.
pub record File : Type 0 where
  pub type : FileType
  pub ref : ℕ
  pub readable : Bool
  pub writable : Bool
  pub pipe : ℕ
  pub ip : ℕ
  pub off : ℕ
  pub major : ℕ

-- What `fileclose` calls at its end: `pipeclose`, or `iput` in a transaction.
pub data Closing : Type 0 where
  nothing : Closing
  closes_pipe : ℕ → Bool → Closing
  puts_inode : ℕ → Closing

-- An int below 1, by its pattern.
abbrev pub below_one : ℕ → Bool
below_one r = r == 0 || leb (2 ^ 31) r

-- The loop of `filealloc` from file `i` on.
unfoldable pub find_free : ℕ → ℕ → (ℕ → File) → Option ℕ
find_free zero i file = none
find_free (suc k) i file =
    let rest = find_free k (i + 1) file in if (file i).ref == 0 then some i else rest

-- `filealloc`, and the table: the files by number.
unfoldable pub filealloc : (ℕ → File) → Option ℕ × (ℕ → File)
filealloc file = elim (find_free n_file 0 file) [
  | none ↦ (none, file)
  | some f ↦ (some f, update file f (record (file f) { ref = 1 }))
]

-- `filedup`, or `none` where it panics.
unfoldable pub filedup : ℕ → (ℕ → File) → Option (ℕ → File)
filedup f file =
    if below_one (file f).ref
    then none
    else some (update file f (record (file f) { ref = u32 ((file f).ref + 1) }))

-- The last lines of `fileclose`.
abbrev pub close_last : FileType → File → Closing
close_last fd_pipe ff = closes_pipe ff.pipe ff.writable
close_last fd_inode ff = puts_inode ff.ip
close_last fd_device ff = puts_inode ff.ip
close_last fd_none ff = nothing

-- `fileclose`, or `none` where it panics.
unfoldable pub fileclose : ℕ → (ℕ → File) → Option (Closing × (ℕ → File))
fileclose f file =
    let left = u32 ((file f).ref + 2 ^ 32 - 1) in
    if below_one (file f).ref
    then none
    else if below_one left
    then some (
      close_last (file f).type (file f),
      update file f (record (file f) { ref = 0; type = fd_none }),
    )
    else some (nothing, update file f (record (file f) { ref = left }))
