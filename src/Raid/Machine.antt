-- ===== src/Raid/Machine.antt =====
-- The operations of the kernel that kernel/raid.c calls, over the state that the RAID layer sees:
-- kernel/virtio_disk.c (`read_block`, `write_block`), kernel/kalloc.c, kernel/sleeplock.c,
-- kernel/spinlock.c and `walkaddr` of kernel/vm.c.
pub mod Laws
pub mod Buffer
use os2_project.Base.{
  ℕ, suc, zero, ◌+◌, ◌-◌, ◌*◌, ◌/◌, ◌%◌, ◌^◌, Bool, true, false, ◌||◌, ◌&&◌, not, Option, none,
  some, bit_or, if◌then◌else◌, ltb, leb, ◌==◌, u32, update,
}
use os2_project.Raid.Types.{Block, block_size, Config, Superblock, RaidDevice, Machine}

-- A call of the kernel: a result with the new state, or `none` where it does not return, because
-- the kernel panics, faults on a null pointer or past an array, or waits for ever.
abbrev pub M : Type 0 → Type 0
M A = Machine → Option (A × Machine)

abbrev pub pure : {A : Type 0} → A → M A
pure a m = some (a, m)

infixl 5 ◌>>=◌ ◌>>◌
abbrev pub ◌>>=◌ : {A B : Type 0} → M A → (A → M B) → M B
◌>>=◌ f g m = elim (f m) [ none ↦ none | some (a, m') ↦ g a m' ]

abbrev pub ◌>>◌ : {B : Type 0} → M (Unit {0}) → M B → M B
f >> g = f >>= λ _. g

-- A call that does not return.
abbrev pub fault : {A : Type 0} → M A
fault m = none

abbrev pub set_device : RaidDevice → M (Unit {0})
set_device d m = some (tt, record m { device = d })

-- The kernel has no page at address 0, so that the first access through a null result faults.
unfoldable pub kalloc : M (Unit {0})
kalloc m = if m.free_pages == 0 then none else some (tt, record m { free_pages = m.free_pages - 1 })

unfoldable pub kfree : M (Unit {0})
kfree m = some (tt, record m { free_pages = m.free_pages + 1 })

module _ (c : Config) where
  -- `virtio_disk_init` makes a transfer buffer for each disk from VIRTIO_RAID_DISK_START to DISKS, so
  -- that the call faults on a null pointer for disk 0; and the drive refuses a block past its end:
  -- `virtio_disk_intr` panics on the status.
  abbrev pub in_reach : ℕ → ℕ → Bool
  in_reach d b = leb 1 d && leb d c.disks && ltb b (c.capacity d)

  unfoldable pub read_block : ℕ → ℕ → M Block
  read_block d b m = if in_reach (u32 d) (u32 b) then some (m.disk (u32 d) (u32 b), m) else none

  unfoldable pub write_block : ℕ → ℕ → Block → M (Unit {0})
  write_block d b x m =
      if in_reach (u32 d) (u32 b)
      then some (tt, record m { disk = update m.disk (u32 d) (update (m.disk (u32 d)) (u32 b) x) })
      else none

  -- `acquiresleep(&raid_device.disks[d].disk_lock)`. There is no lock past DISKS; a lock that is
  -- held is never released while the one process runs.
  unfoldable pub acquire_disk : ℕ → M (Unit {0})
  acquire_disk d m =
      if leb d c.disks && not (m.device.disk_locked d)
      then (let dev = m.device in
          some
            (tt, record m { device = record dev { disk_locked = update dev.disk_locked d true } }))
      else none

  unfoldable pub release_disk : ℕ → M (Unit {0})
  release_disk d m =
      if leb d c.disks
      then (let dev = m.device in
          some
            (tt, record m { device = record dev { disk_locked = update dev.disk_locked d false } }))
      else none

-- `acquire(&raid_device.metadata_lock)` panics where this processor holds the lock.
unfoldable pub acquire_metadata : M (Unit {0})
acquire_metadata m =
    let dev = m.device in
    if dev.metadata_locked
    then none
    else some (tt, record m { device = record dev { metadata_locked = true } })

unfoldable pub release_metadata : M (Unit {0})
release_metadata m =
    let dev = m.device in
    if dev.metadata_locked
    then some (tt, record m { device = record dev { metadata_locked = false } })
    else none

-- `walkaddr`: the physical address of the page of a user address, or 0. The flags PTE_V and PTE_U
-- are bits 0 and 4 of the entry.
unfoldable pub walkaddr : Machine → ℕ → ℕ
walkaddr m va = if leb (2 ^ 38) va then 0 else elim (m.walk va) [
  | none ↦ 0
  | some pte ↦ if (pte % 2 == 0) || (pte / 16 % 2 == 0) then 0 else pte / 2 ^ 10 * 2 ^ 12
]

-- `walkaddr(p->pagetable, va) | (va & OFFSET_MASK)`
unfoldable pub user_address : Machine → ℕ → ℕ
unfolding walkaddr
user_address m va = bit_or (walkaddr m va) (va % 4096)

-- `kvmmake` maps nothing in the first page: an access there faults. It is where `walkaddr` leads for
-- an address that is not mapped.
abbrev pub null_page : ℕ → Bool
null_page p = ltb p 4096

-- The block at a physical address, and the memory with a block copied there.
abbrev pub load_block : (ℕ → ℕ) → ℕ → Block
load_block mem a i = mem (a + i)

abbrev pub store_block : (ℕ → ℕ) → ℕ → Block → ℕ → ℕ
store_block mem a x p = if leb a p && ltb p (a + block_size) then x (p - a) else mem p

abbrev pub store_word : (ℕ → ℕ) → ℕ → ℕ → ℕ → ℕ
store_word mem a x p = if leb a p && ltb p (a + 4) then x / 256 ^ (p - a) % 256 else mem p
