-- ===== src/Fs.antt =====
-- kernel/fs.c: the blocks of the file system, and the inode that a call has locked.
pub mod Bits
pub mod Alloc
pub mod Map
pub mod Rw
pub mod Dir
pub mod Ilock
pub mod Itable
mod Tests
use os2_project.Base.{
  ℕ, zero, suc, ◌+◌, ◌-◌, ◌*◌, ◌/◌, ◌%◌, ◌^◌, Bool, true, false, ◌||◌, ◌&&◌, Option, none, some,
  if◌then◌else◌, ltb, leb, ◌==◌, update, u32, minus_one, bit_and, bit_or,
}
use os2_project.Raid.Types.{Block}
use os2_project.Raid.Superblock.{word_at, byte_of}
use os2_project.Log.{put_word}

-- BSIZE, NDIRECT, NINDIRECT, MAXFILE, IPB, BPB
abbrev pub block_size : ℕ
block_size = 1024

abbrev pub n_direct : ℕ
n_direct = 12

abbrev pub n_indirect : ℕ
n_indirect = block_size / 4

abbrev pub max_file : ℕ
max_file = n_direct + n_indirect

abbrev pub inodes_per_block : ℕ
inodes_per_block = block_size / 64

abbrev pub bits_per_block : ℕ
bits_per_block = block_size * 8

-- `struct superblock`
pub record Super : Type 0 where
  pub magic : ℕ
  pub size : ℕ
  pub nblocks : ℕ
  pub ninodes : ℕ
  pub nlog : ℕ
  pub logstart : ℕ
  pub inodestart : ℕ
  pub bmapstart : ℕ

-- `struct inode`
pub record Inode : Type 0 where
  pub dev : ℕ
  pub inum : ℕ
  pub ref : ℕ
  pub locked : Bool
  pub valid : Bool
  pub type : ℕ
  pub major : ℕ
  pub minor : ℕ
  pub nlink : ℕ
  pub size : ℕ
  pub addrs : ℕ → ℕ

-- `cache` has the contents of the buffers, `saved` those that the transaction will commit; `inode` is
-- the one that the caller has locked, and `mem` the memory that it copies from or to.
pub record Fs : Type 0 where
  pub cache : ℕ → Block
  pub saved : ℕ → Block
  pub inode : Inode
  pub mem : ℕ → ℕ

-- A call: a result with the new state, or `none` where it panics.
abbrev pub M : Type 0 → Type 0
M A = Fs → Option (A × Fs)

abbrev pub pure : {A : Type 0} → A → M A
pure a s = some (a, s)

infixl 5 ◌>>=◌ ◌>>◌
abbrev pub ◌>>=◌ : {A B : Type 0} → M A → (A → M B) → M B
◌>>=◌ f g s = elim (f s) [ none ↦ none | some (a, s') ↦ g a s' ]

abbrev pub ◌>>◌ : {B : Type 0} → M (Unit {0}) → M B → M B
f >> g = f >>= λ _. g

abbrev pub panic : {A : Type 0} → M A
panic s = none

abbrev pub get_inode : M Inode
get_inode s = some (s.inode, s)

abbrev pub set_inode : Inode → M (Unit {0})
set_inode ip s = some (tt, record s { inode = ip })

abbrev pub bread : ℕ → M Block
bread b s = some (s.cache b, s)

-- An assignment to bytes of a buffer.
abbrev pub set_buf : ℕ → Block → M (Unit {0})
set_buf b x s = some (tt, record s { cache = update s.cache b x })

-- `log_write`: the transaction takes the buffer as it is. The call stands between `begin_op` and
-- `end_op` and has room left in the log (`log_write` of kernel/log.c panics without), which what is
-- proved of `writei` asks for.
abbrev pub log_write : ℕ → M (Unit {0})
log_write b s = some (tt, record s { saved = update s.saved b (s.cache b) })

unfoldable pub bzero : ℕ → M (Unit {0})
bzero bno = do set_buf bno (λ k. 0); log_write bno

-- The test, the setting and the clearing of bit `bi` in a block of the map.
abbrev pub is_free : Block → ℕ → Bool
is_free x bi = bit_and (x (bi / 8)) (2 ^ (bi % 8)) == 0

abbrev pub set_bit : Block → ℕ → Block
set_bit x bi = update x (bi / 8) (bit_or (x (bi / 8)) (2 ^ (bi % 8)))

abbrev pub clear_bit : Block → ℕ → Block
clear_bit x bi = update x (bi / 8) (bit_and (x (bi / 8)) (255 - 2 ^ (bi % 8)))

-- The inner loop of `balloc` from bit `bi` on.
unfoldable pub find_free : ℕ → ℕ → Block → Option ℕ
find_free zero bi x = none
find_free (suc k) bi x = let rest = find_free k (bi + 1) x in if is_free x bi then some bi else rest

-- The on-disk inode at offset `o` of a block: four short words, the size, and the addresses.
abbrev pub put_half : Block → ℕ → ℕ → Block
put_half x o v i = if leb o i && ltb i (o + 2) then byte_of v (i - o) else x i

unfoldable pub put_addrs : ℕ → ℕ → (ℕ → ℕ) → ℕ → Block → Block
put_addrs zero j addrs o x = x
put_addrs (suc k) j addrs o x = put_addrs k (j + 1) addrs o (put_word x (o + 12 + 4 * j) (addrs j))

unfoldable pub put_inode : Inode → ℕ → Block → Block
put_inode ip o x = put_addrs (n_direct + 1) 0 ip.addrs o (
    put_word
      (put_half (put_half (put_half (put_half x o ip.type) (o + 2) ip.major) (o + 4) ip.minor)
        (o + 6) ip.nlink)
      (o + 8) ip.size)

abbrev pub set_addr : ℕ → ℕ → M (Unit {0})
set_addr j a = do ip ← get_inode; set_inode (record ip { addrs = update ip.addrs j a })

module _ (sb : Super) where
  -- BBLOCK and IBLOCK
  abbrev pub bblock : ℕ → ℕ
  bblock b = b / bits_per_block + sb.bmapstart

  abbrev pub iblock : ℕ → ℕ
  iblock i = i / inodes_per_block + sb.inodestart

  -- What `balloc` does with the bit found in the block `x` of the map, or goes on with.
  abbrev pub balloc_in : ℕ → Block → M ℕ → Option ℕ → M ℕ
  balloc_in b x rest none = rest
  balloc_in b x rest (some bi) = do
    set_buf (bblock b) (set_bit x bi)
    log_write (bblock b)
    bzero (b + bi)
    pure (b + bi)

  abbrev pub bits_from : ℕ → ℕ
  bits_from b = if ltb (sb.size - b) bits_per_block then sb.size - b else bits_per_block

  -- The outer loop of `balloc`.
  unfoldable pub balloc_from : ℕ → ℕ → M ℕ
  balloc_from zero b = pure 0
  balloc_from (suc k) b = do
    x ← bread (bblock b)
    let rest = balloc_from k (b + bits_per_block)
    balloc_in b x rest (find_free (bits_from b) 0 x)

  unfoldable pub balloc : M ℕ
  balloc = balloc_from ((sb.size + bits_per_block - 1) / bits_per_block) 0

  unfoldable pub bfree : ℕ → M (Unit {0})
  bfree b = do
    x ← bread (bblock b)
    let bi = b % bits_per_block
    if is_free x bi then panic else (do set_buf (bblock b) (clear_bit x bi); log_write (bblock b))

  unfoldable pub iupdate : M (Unit {0})
  iupdate = do
    ip ← get_inode
    x ← bread (iblock ip.inum)
    set_buf (iblock ip.inum) (put_inode ip (ip.inum % inodes_per_block * 64) x)
    log_write (iblock ip.inum)

  -- The parts of `bmap`: an address of the inode, and one of the indirect block, allocated if there
  -- is none.
  unfoldable pub slot_addr : ℕ → M ℕ
  slot_addr j = do
    ip ← get_inode
    if ip.addrs j == 0
        then (do a ← balloc; (if a == 0 then pure tt else set_addr j a); pure a)
        else pure (ip.addrs j)

  unfoldable pub entry_addr : ℕ → ℕ → M ℕ
  entry_addr b bn = do
    x ← bread b
    if word_at x (4 * bn) == 0
        then (do
          a ← balloc
          y ← bread b
          (if a == 0 then pure tt else (do set_buf b (put_word y (4 * bn) a); log_write b))
          pure a)
        else pure (word_at x (4 * bn))

  unfoldable pub bmap : ℕ → M ℕ
  bmap bn =
      if ltb bn n_direct
      then slot_addr bn
      else if ltb (bn - n_direct) n_indirect
      then (do b ← slot_addr n_direct; if b == 0 then pure 0 else entry_addr b (bn - n_direct))
      else panic

  -- The loops of `itrunc`.
  unfoldable pub free_direct : ℕ → ℕ → M (Unit {0})
  free_direct zero i = pure tt
  free_direct (suc k) i = do
    ip ← get_inode
    (if ip.addrs i == 0 then pure tt else (do bfree (ip.addrs i); set_addr i 0))
    free_direct k (i + 1)

  unfoldable pub free_entries : ℕ → ℕ → ℕ → M (Unit {0})
  free_entries b zero j = pure tt
  free_entries b (suc k) j = do
    x ← bread b
    (if word_at x (4 * j) == 0 then pure tt else bfree (word_at x (4 * j)))
    free_entries b k (j + 1)

  unfoldable pub itrunc : M (Unit {0})
  itrunc = do
    free_direct n_direct 0
    ip ← get_inode
    (if ip.addrs n_direct == 0 then pure tt else (do
      free_entries (ip.addrs n_direct) n_indirect 0
      bfree (ip.addrs n_direct)
      set_addr n_direct 0))
    ip ← get_inode
    set_inode (record ip { size = 0 })
    iupdate
