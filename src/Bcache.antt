-- ===== src/Bcache.antt =====
-- kernel/bio.c: the cache of disk blocks.
pub mod Lookup
pub mod Calls
mod Tests
use os2_project.Base.{
  ℕ, ◌+◌, ◌-◌, ◌%◌, ◌^◌, Bool, true, false, ◌&&◌, not, Option, none, some, List, [], ◌∷◌, ◌++◌,
  if◌then◌else◌, ◌==◌, update, u32,
}
use os2_project.Raid.Types.{Block}

-- `struct buf`. A sleep lock is held or free.
pub record Buf : Type 0 where
  pub valid : Bool
  pub dev : ℕ
  pub blockno : ℕ
  pub locked : Bool
  pub refcnt : ℕ
  pub bytes : Block

-- The array of buffers, their order in the list from `head.next` on, the most recently used first,
-- and the blocks of the disk VIRTIO0_ID.
pub record Bcache : Type 0 where
  pub buf : ℕ → Buf
  pub order : List ℕ
  pub disk : ℕ → Block

-- A call: a result with the new state, or `none` where it panics or waits for ever.
abbrev pub M : Type 0 → Type 0
M A = Bcache → Option (A × Bcache)

abbrev pub pure : {A : Type 0} → A → M A
pure a c = some (a, c)

infixl 5 ◌>>=◌ ◌>>◌
abbrev pub ◌>>=◌ : {A B : Type 0} → M A → (A → M B) → M B
◌>>=◌ f g c = elim (f c) [ none ↦ none | some (a, c') ↦ g a c' ]

abbrev pub ◌>>◌ : {B : Type 0} → M (Unit {0}) → M B → M B
f >> g = f >>= λ _. g

abbrev pub get_buf : ℕ → M Buf
get_buf i c = some (c.buf i, c)

abbrev pub set_buf : ℕ → Buf → M (Unit {0})
set_buf i b c = some (tt, record c { buf = update c.buf i b })

-- `binit`: each of the NBUF buffers goes to the front, the static ones all zero.
unfoldable pub binit_from : ℕ → ℕ → List ℕ → List ℕ
binit_from ℕ.zero i order = order
binit_from (ℕ.suc n) i order = binit_from n (i + 1) (i ∷ order)

abbrev pub n_buf : ℕ
n_buf = 30

unfoldable pub binit : (ℕ → Block) → Bcache
unfolding binit_from
binit disk = record {
  buf = λ i. record {
    valid = false;
    dev = 0;
    blockno = 0;
    locked = false;
    refcnt = 0;
    bytes = λ k. 0;
  };
  order = binit_from n_buf 0 [];
  disk = disk;
}

abbrev pub matches : Buf → ℕ → ℕ → Bool
matches b dev blockno = b.dev == dev && b.blockno == blockno

-- The first loop of `bget`, from the front.
unfoldable pub find_cached : (ℕ → Buf) → ℕ → ℕ → List ℕ → Option ℕ
find_cached buf dev blockno [] = none
find_cached buf dev blockno (i ∷ is) =
    let rest = find_cached buf dev blockno is in
    if matches (buf i) dev blockno then some i else rest

-- The second loop, from the back: a buffer that comes later in the list goes first.
unfoldable pub find_unused : (ℕ → Buf) → List ℕ → Option ℕ
find_unused buf [] = none
find_unused buf (i ∷ is) = elim (find_unused buf is) [
  | some j ↦ some j
  | none ↦ if (buf i).refcnt == 0 then some i else none
]

-- `acquiresleep`: a lock that is held is never given back while the one process runs.
unfoldable pub acquire : ℕ → M (Unit {0})
acquire i = do
  b ← get_buf i
  if b.locked then (λ _. none) else set_buf i (record b { locked = true })

abbrev pub add_ref : ℕ → M (Unit {0})
add_ref i = do b ← get_buf i; set_buf i (record b { refcnt = u32 (b.refcnt + 1) })

-- The buffer becomes one for the block.
abbrev pub recycle : ℕ → ℕ → ℕ → M (Unit {0})
recycle i dev blockno = do
  b ← get_buf i
  set_buf i (record b { dev = dev; blockno = blockno; valid = false; refcnt = 1 })

unfoldable pub bget : ℕ → ℕ → M ℕ
bget dev blockno c = elim (find_cached c.buf dev blockno c.order) [
  | some i ↦ (do add_ref i; acquire i; pure i) c
  | none ↦ elim (find_unused c.buf c.order) [
    | some i ↦ (do recycle i dev blockno; acquire i; pure i) c
    | none ↦ none
  ]
]

-- `virtio_disk_rw` from the disk and to it.
abbrev pub disk_read : ℕ → M (Unit {0})
disk_read i c =
    let b = c.buf i in
    some (tt, record c { buf = update c.buf i (record b { bytes = c.disk b.blockno }) })

abbrev pub disk_write : ℕ → M (Unit {0})
disk_write i c = let b = c.buf i in some (tt, record c { disk = update c.disk b.blockno b.bytes })

abbrev pub fill : ℕ → M (Unit {0})
fill i = do disk_read i; b ← get_buf i; set_buf i (record b { valid = true })

unfoldable pub bread : ℕ → ℕ → M ℕ
bread dev blockno = do
  i ← bget dev blockno
  b ← get_buf i
  (if b.valid then pure tt else fill i)
  pure i

unfoldable pub bwrite : ℕ → M (Unit {0})
bwrite i = do b ← get_buf i; if b.locked then disk_write i else (λ _. none)

-- A number taken out of a list.
unfoldable pub without : ℕ → List ℕ → List ℕ
without i [] = []
without i (j ∷ js) = if i == j then js else j ∷ without i js

unfoldable pub brelse : ℕ → M (Unit {0})
unfolding without
brelse i = do
  b ← get_buf i
  let left = u32 (b.refcnt + 2 ^ 32 - 1)
  if b.locked
      then (do
        set_buf i (record b { locked = false; refcnt = left })
        (λ c. some (tt, if left == 0 then record c { order = i ∷ without i c.order } else c)))
      else (λ _. none)

unfoldable pub bpin : ℕ → M (Unit {0})
bpin i = add_ref i

unfoldable pub bunpin : ℕ → M (Unit {0})
bunpin i = do b ← get_buf i; set_buf i (record b { refcnt = u32 (b.refcnt + 2 ^ 32 - 1) })
