-- ===== src/Log.antt =====
-- kernel/log.c: the redo log of the file system, down to the single writes of disk blocks.
pub mod Header
pub mod Redo
pub mod Install
pub mod Partly
pub mod Recover
pub mod Commit
pub mod Ops
mod Tests
use os2_project.Base.{
  ℕ, zero, suc, ◌+◌, ◌-◌, ◌*◌, ◌/◌, ◌%◌, ◌^◌, Bool, true, false, ◌||◌, ◌&&◌, if◌then◌else◌, ltb,
  leb, ◌==◌, update, u32,
}
use os2_project.Raid.Types.{Block}
use os2_project.Raid.Superblock.{word_at, byte_of}

-- MAXOPBLOCKS and LOGSIZE
abbrev pub max_op_blocks : ℕ
max_op_blocks = 10

abbrev pub log_size : ℕ
log_size = max_op_blocks * 3

-- `struct log` and what it works on. `disk` is the disk itself; `buf` is what a buffer has for a
-- block, which is what the disk has where the block is not cached; `pins` counts the calls of `bpin`
-- less those of `bunpin`. `power` is the number of blocks that can be written before the power fails.
pub record Log : Type 0 where
  pub n : ℕ
  pub block : ℕ → ℕ
  pub outstanding : ℕ
  pub committing : Bool
  pub disk : ℕ → Block
  pub buf : ℕ → Block
  pub pins : ℕ → ℕ
  pub power : ℕ

-- How a call ends: it returns, or the power fails and the disk is left, or it sleeps or panics.
pub data Outcome (A : Type 0) : Type 0 where
  done : A → Log → Outcome A
  crash : (ℕ → Block) → Outcome A
  sleeps : Outcome A
  panics : Outcome A

abbrev pub M : Type 0 → Type 0
M A = Log → Outcome A

abbrev pub bind : {A B : Type 0} → Outcome A → (A → M B) → Outcome B
bind (done a s) g = g a s
bind (crash d) g = crash d
bind sleeps g = sleeps
bind panics g = panics

infixl 5 ◌>>=◌ ◌>>◌
abbrev pub ◌>>=◌ : {A B : Type 0} → M A → (A → M B) → M B
◌>>=◌ f g s = bind (f s) g

abbrev pub ◌>>◌ : {B : Type 0} → M (Unit {0}) → M B → M B
f >> g = f >>= λ _. g

abbrev pub pure : {A : Type 0} → A → M A
pure a s = done a s

abbrev pub get : M Log
get s = done s s

abbrev pub bread : ℕ → M Block
bread b s = done (s.buf b) s

-- An assignment to the bytes of a buffer.
abbrev pub set_buf : ℕ → Block → M (Unit {0})
set_buf b x s = done tt (record s { buf = update s.buf b x })

-- One block is written whole or not at all.
unfoldable pub bwrite : ℕ → M (Unit {0})
bwrite b s =
    if s.power == 0
    then crash s.disk
    else done tt (record s { disk = update s.disk b (s.buf b); power = s.power - 1 })

abbrev pub bpin : ℕ → M (Unit {0})
bpin b s = done tt (record s { pins = update s.pins b (s.pins b + 1) })

abbrev pub bunpin : ℕ → M (Unit {0})
bunpin b s = done tt (record s { pins = update s.pins b (s.pins b - 1) })

abbrev pub set_n : ℕ → M (Unit {0})
set_n n s = done tt (record s { n = n })

-- A word put into a block.
abbrev pub put_word : Block → ℕ → ℕ → Block
put_word x o v i = if leb o i && ltb i (o + 4) then byte_of v (i - o) else x i

-- The loops of `read_head` and `write_head` from entry `i` on.
unfoldable pub read_entries : ℕ → ℕ → Block → (ℕ → ℕ) → ℕ → ℕ
read_entries zero i x block = block
read_entries (suc k) i x block = read_entries k (i + 1) x (update block i (word_at x (4 + 4 * i)))

unfoldable pub write_entries : ℕ → ℕ → (ℕ → ℕ) → Block → Block
write_entries zero i block x = x
write_entries (suc k) i block x = write_entries k (i + 1) block (put_word x (4 + 4 * i) (block i))

-- A start after the power has failed: the buffers are empty, so that a block reads as on the disk.
abbrev pub boot : (ℕ → Block) → ℕ → Log
boot disk power = record {
  n = 0;
  block = λ _. 0;
  outstanding = 0;
  committing = false;
  disk = disk;
  buf = disk;
  pins = λ _. 0;
  power = power;
}

-- One round of the loop of `begin_op`: it sleeps, or the call is counted.
unfoldable pub begin_op : M (Unit {0})
begin_op s =
    if s.committing
    then sleeps
    else if ltb log_size (s.n + (s.outstanding + 1) * max_op_blocks)
    then sleeps
    else done tt (record s { outstanding = s.outstanding + 1 })

-- The loop of `log_write`: the entry with the block, or `n`.
unfoldable pub find_from : ℕ → ℕ → (ℕ → ℕ) → ℕ → ℕ
find_from zero i block b = i
find_from (suc k) i block b =
    let rest = find_from k (i + 1) block b in if block i == b then i else rest

-- `log.start` and `log.size`, which `initlog` takes from the superblock of the file system.
module _ (start size : ℕ) where
  -- The loop of `install_trans` from entry `tail` on.
  unfoldable pub install_from : ℕ → ℕ → Bool → M (Unit {0})
  install_from zero tail recovering = pure tt
  install_from (suc k) tail recovering = do
    x ← bread (start + tail + 1)
    s ← get
    set_buf (s.block tail) x
    bwrite (s.block tail)
    (if recovering then pure tt else bunpin (s.block tail))
    install_from k (tail + 1) recovering

  unfoldable pub install_trans : Bool → M (Unit {0})
  install_trans recovering = do s ← get; install_from s.n 0 recovering

  unfoldable pub read_head : M (Unit {0})
  read_head = do
    x ← bread start
    λ s. done tt (record s { n = word_at x 0; block = read_entries (word_at x 0) 0 x s.block })

  unfoldable pub write_head : M (Unit {0})
  write_head = do
    x ← bread start
    s ← get
    set_buf start (write_entries s.n 0 s.block (put_word x 0 s.n))
    bwrite start

  unfoldable pub recover_from_log : M (Unit {0})
  recover_from_log = do read_head; install_trans true; set_n 0; write_head

  -- The loop of `write_log` from entry `tail` on.
  unfoldable pub write_log_from : ℕ → ℕ → M (Unit {0})
  write_log_from zero tail = pure tt
  write_log_from (suc k) tail = do
    s ← get
    x ← bread (s.block tail)
    set_buf (start + tail + 1) x
    bwrite (start + tail + 1)
    write_log_from k (tail + 1)

  unfoldable pub write_log : M (Unit {0})
  write_log = do s ← get; write_log_from s.n 0

  unfoldable pub commit : M (Unit {0})
  commit = do
    s ← get
    if ltb 0 s.n
        then (do write_log; write_head; install_trans false; set_n 0; write_head)
        else pure tt

  -- `initlog`: a header of LOGSIZE + 1 words is smaller than a block, so it does not panic.
  unfoldable pub initlog : M (Unit {0})
  initlog = recover_from_log

  unfoldable pub end_op : M (Unit {0})
  end_op = do
    s ← get
    let left = u32 (s.outstanding + 2 ^ 32 - 1)
    if s.committing
        then (λ _. panics)
        else if left == 0
        then (do
          (λ t. done tt (record t { outstanding = left; committing = true }))
          commit
          (λ t. done tt (record t { committing = false })))
        else (λ t. done tt (record t { outstanding = left }))

  unfoldable pub log_write : ℕ → M (Unit {0})
  log_write b = do
    s ← get
    if leb log_size s.n || leb (size - 1) s.n
        then (λ _. panics)
        else if ltb s.outstanding 1
        then (λ _. panics)
        else (do
          let i = find_from s.n 0 s.block b
          (λ t. done tt (record t { block = update t.block i b }))
          if i == s.n then (do bpin b; set_n (s.n + 1)) else pure tt)
