-- ===== src/Fs/Tests.antt =====
-- A small disk with one file: the inode on block 1, the map on block 2, the contents on block 3.
use os2_project.Base.{
  ◌*◌, ℕ, zero, suc, ◌+◌, ◌/◌, ◌%◌, ◌≤◌, ◌<◌, ◌≡◌, ◌≢◌, ◌⊎◌, refl, sym, ap, subst, ◌∙◌, arith, true,
  false, Option, none, some, if◌then◌else◌, ◌==◌, eq→==,
}
use os2_project.Raid.Types.{Block}
use os2_project.Fs.{
  Super, Fs, balloc, bmap, itrunc, find_free, balloc_from, slot_addr, bzero, iupdate,
}
use os2_project.Fs.Alloc.{IsData, in_use, IsValid}
use os2_project.Fs.Map.{ref, slot, byte_at, IsFile}
use os2_project.Fs.Rw.Read.{IsWhole}
use os2_project.Fs.Rw.Finish.{HasInode, Written}
use os2_project.Fs.Rw.{readi, writei, write_from}
use os2_project.UserCopy.{either_copyin}
use os2_project.Fs.Rw.Read.{with_mem, readi_lem}
use os2_project.Fs.Rw.Calls.{writei_lem, readi-writei}
use os2_project.Fs.Alloc.Cases.{Marks, balloc_lem}
use os2_project.Fs.Map.Gets.{Gets}
use os2_project.Fs.Map.Gets.Calls.{bmap_lem}
use os2_project.Fs.Map.Trunc.Calls.{Truncated, itrunc_lem}
use os2_project.UserCopy.Bytes.{stored}
use os2_project.Fs.Dir.{dirlookup, lookup_from}
use os2_project.Fs.Dir.Lookup.{Names, entry_inum, dirlookup_lem}
use os2_project.PathName.{namecmp}
use os2_project.KernelString.Text.{strncmp, strncmp_from}
use os2_project.UserCopy.{either_copyout}
use os2_project.Fs.Rw.{read_from}
use os2_project.Fs.{Inode, iupdate}
use os2_project.Fs.Itable.{iget, iget_from, IsGot}
use os2_project.Fs.Ilock.{ilock}
use os2_project.Fs.Ilock.Update.{IsSmall, held, ilock-iupdate}

abbrev disk : Super
disk = record {
  magic = 0x10203040;
  size = 6;
  nblocks = 3;
  ninodes = 16;
  nlog = 0;
  logstart = 1;
  inodestart = 1;
  bmapstart = 2;
}

abbrev map_block : Block
map_block k = if k == 0 then 15 else 0

abbrev blocks : ℕ → Block
blocks b = if b == 2 then map_block else if b == 3 then (λ k. k % 256) else λ k. 0

abbrev own : ℕ → ℕ
own k = if k == 0 then 3 else 0

-- The file has 1022 bytes.
abbrev state : Fs
state = record {
  cache = blocks;
  saved = blocks;
  inode = record {
    dev = 1;
    inum = 1;
    ref = 1;
    locked = true;
    valid = true;
    type = 2;
    major = 0;
    minor = 0;
    nlink = 1;
    size = 1022;
    addrs = own;
  };
  mem = λ a. a % 251;
}

own_ref : (k : ℕ) → ref state k ≡ own k
own_ref k = ground arith

state-meta : (b : ℕ) → b ≤ 2 → in_use disk state b ≡ true
state-meta zero le = refl
state-meta (suc zero) le = refl
state-meta (suc (suc zero)) le = refl
state-meta (suc (suc (suc b))) le = absurd (omega arith)

state-IsValid : IsValid disk state
state-IsValid = record {
  map = λ b lt j. let e : b / 8192 + 2 ≡ 2 = omega arith in rw (eq→== (b / 8192 + 2) 2 e) (small j);
  meta = λ b le lt. state-meta b (omega arith);
  saved = λ b. refl;
}
  where
    small : (j : ℕ) → map_block j < 256
    small j = ground arith

state-IsFile : IsFile disk state
state-IsFile = record {
  distinct = λ j k hj hk nz e. only j k (λ z. nz (own_ref j ∙ z)) (sym (own_ref j) ∙ e ∙ own_ref k);
  owned = λ k hk nz.
      let at : k ≡ 0 = first k (λ z. nz (own_ref k ∙ z)) in
      subst (λ k. IsData disk (ref state k) × (in_use disk state (ref state k) ≡ true)) (sym at)
        ((omega arith, omega arith), refl);
}
  where
    first : (k : ℕ) → own k ≢ 0 → k ≡ 0
    first k nz = ground arith

    only : (j k : ℕ) → own j ≢ 0 → own j ≡ own k → j ≡ k
    only j k nz e = ground arith

state-IsWhole : IsWhole state
state-IsWhole = record {
  small = omega arith;
  blocks = λ bn lt z.
      let at : bn ≡ 0 = omega arith in
      absurd (three (sym (own_ref 0) ∙ sym (ap (λ b. ref state (slot b)) at) ∙ z));
}
  where
    three : own 0 ≡ 0 → ⊥
    three e = cc

state-HasInode : HasInode disk state
state-HasInode = record { start = omega arith; before = omega arith; within = omega arith }

balloc_lem_example :
    ((balloc disk state ≡ some (0, state)) × ((c : ℕ) → c < 6 → in_use disk state c ≡ true))
    ⊎ ((c : ℕ) × (s' : Fs) × (balloc disk state ≡ some (c, s'))
        × (in_use disk state c ≡ false)
        × Marks disk state s' c true
        × (s'.cache c ≡ (λ k. 0)))
balloc_lem_example = balloc_lem disk state state-IsValid

bmap_lem_example :
    (a : ℕ) × (s' : Fs) × (bmap disk 13 state ≡ some (a, s'))
    × Gets disk (omega arith) state 14 a s'
bmap_lem_example = bmap_lem disk (omega arith) state 13 state-IsValid state-IsFile (omega arith)

-- The last bytes of the file, up to its end.
readi_lem_example :
    readi (λ va. 0) disk false 5000 1000 100 state
    ≡ some
        (22, with_mem state (stored 22 (λ i. 5000 + i) (λ i. byte_at state (1000 + i)) state.mem))
readi_lem_example =
    readi_lem (λ va. 0) disk (omega arith) false state state-IsValid state-IsFile state-IsWhole 5000
      1000 100 (omega arith) (omega arith) (omega arith, λ h. absurd cc)

-- Five bytes, the last three of which go to a new block.
writei_lem_example :
    (m : ℕ) × (s' : Fs) × (writei (λ va. 0) disk false 7000 1022 5 state ≡ some (m, s'))
    × Written disk state s' 1022 m (λ i. state.mem (7000 + i))
    × (m ≤ 5)
    × (m < 5 → (c : ℕ) → c < 6 → in_use disk s' c ≡ true)
writei_lem_example =
    writei_lem (λ va. 0) disk (omega arith) false state 7000 1022 5 state-IsValid state-IsFile
      state-HasInode (omega arith) (omega arith) (omega arith) (omega arith, λ h. absurd cc)

readi-writei_example :
    (m : ℕ) × (s' : Fs) × (writei (λ va. 0) disk false 7000 1022 5 state ≡ some (m, s'))
    × (readi (λ va. 0) disk false 9000 1022 m s'
        ≡ some (m, with_mem s' (stored m (λ i. 9000 + i) (λ i. state.mem (7000 + i)) state.mem)))
    × (m < 5 → (c : ℕ) → c < 6 → in_use disk s' c ≡ true)
readi-writei_example =
    readi-writei (λ va. 0) disk (omega arith) false false state 7000 9000 1022 5 state-IsValid
      state-IsFile state-HasInode state-IsWhole (omega arith) (omega arith) (omega arith)
      (omega arith, λ h. absurd cc) (omega arith, λ h. absurd cc)

abbrev count : Option (ℕ × Fs) → Option ℕ
count r = elim r [ none ↦ none | some (m, s) ↦ some m ]

-- All five bytes are written.
five : count (writei (λ va. 0) disk false 7000 1022 5 state) ≡ some 5
unfolding writei write_from bmap slot_addr balloc balloc_from find_free bzero iupdate either_copyin
five = refl

itrunc_lem_example :
    (s' : Fs) × (itrunc disk state ≡ some (tt, s'))
    × Truncated disk (omega arith) state state-IsValid state-IsFile s'
itrunc_lem_example = itrunc_lem disk (omega arith) state state-IsValid state-IsFile state-HasInode

-- The same blocks as a directory of two entries.
abbrev folder : Fs
folder = record state { inode = record state.inode { type = 1; size = 32 } }

folder-IsValid : IsValid disk folder
folder-IsValid = record {
  map = state-IsValid.map;
  meta = state-IsValid.meta;
  saved = state-IsValid.saved;
}

folder-IsFile : IsFile disk folder
folder-IsFile = record { distinct = state-IsFile.distinct; owned = state-IsFile.owned }

folder-IsWhole : IsWhole folder
folder-IsWhole = record {
  small = omega arith;
  blocks = λ bn lt. state-IsWhole.blocks bn (omega (arith, lt));
}

abbrev second_name : ℕ → ℕ
second_name m = 18 + m

-- A table of inodes whose last entry is empty.
abbrev inodes : ℕ → Inode
inodes e = record state.inode { ref = if e == 49 then 0 else 1; inum = 100 + e }

dirlookup_lem_example :
    ((mem' : ℕ → ℕ) × (dirlookup (λ va. 0) disk 5000 inodes second_name folder
        ≡ some ((none, inodes), with_mem folder mem'))
      × ((a : ℕ) → (a < 5000) ⊎ (5016 ≤ a) → mem' a ≡ folder.mem a)
      × ((i : ℕ) → i < 2 → Names folder second_name i → ⊥))
    ⊎ ((i j : ℕ) × (t' : ℕ → Inode) × (mem' : ℕ → ℕ) × (dirlookup
            (λ va. 0)
            disk
            5000
            inodes
            second_name
            folder
          ≡ some ((some (j, 16 * i), t'), with_mem folder mem'))
        × IsGot folder.inode.dev (entry_inum folder i) inodes j t'
        × ((a : ℕ) → (a < 5000) ⊎ (5016 ≤ a) → mem' a ≡ folder.mem a)
        × (i < 2)
        × Names folder second_name i
        × ((l : ℕ) → l < i → Names folder second_name l → ⊥))
dirlookup_lem_example =
    dirlookup_lem (λ va. 0) disk (omega arith) 5000 (omega arith) second_name 2 folder
      folder-IsValid folder-IsFile folder-IsWhole refl inodes 49 (omega arith) refl refl

abbrev found : Option ((Option (ℕ × ℕ) × (ℕ → Inode)) × Fs) → Option (Option (ℕ × ℕ))
found r = elim r [ none ↦ none | some ((e, t), s) ↦ some e ]

-- The second directory entry, whose inode takes the last entry of the table.
second : found (dirlookup (λ va. 0) disk 5000 inodes second_name folder) ≡ some (some (49, 16))
unfolding dirlookup lookup_from readi read_from bmap slot_addr either_copyout namecmp strncmp
    strncmp_from iget iget_from
second = refl

inode-IsSmall : IsSmall state.inode
inode-IsSmall = record {
  type = omega arith;
  major = omega arith;
  minor = omega arith;
  nlink = omega arith;
  size = omega arith;
  addrs = λ j lt. own_small j;
}
  where
    own_small : (j : ℕ) → own j < 4294967296
    own_small j = ground arith

-- An inode in memory that has not been read yet.
abbrev fresh : Inode
fresh = record state.inode { locked = false; valid = false; type = 0; size = 0; addrs = λ j. 7 }

ilock-iupdate_example :
    (s' : Fs) × (iupdate disk state ≡ some (tt, s'))
    × (ilock disk (record s' { inode = fresh })
        ≡ some (tt, record s' { inode = record state.inode { addrs = held own (λ j. 7) } }))
ilock-iupdate_example =
    ilock-iupdate disk state fresh inode-IsSmall (λ z. absurd (omega (arith, z))) refl refl
      (λ z. absurd (omega (arith, z))) refl refl
