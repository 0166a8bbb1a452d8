-- ===== src/Kalloc.antt =====
-- kernel/kalloc.c: the free pages, a list whose links stand in the pages themselves.
pub mod Free
pub mod Calls
pub mod Init
mod Tests
use os2_project.Base.{
  ℕ, zero, suc, ◌+◌, ◌-◌, ◌*◌, ◌/◌, ◌%◌, Bool, ◌||◌, ◌&&◌, not, Option, none, some, if◌then◌else◌,
  ltb, leb, ◌==◌, update,
}

-- PGSIZE and KERNBASE
abbrev pub page_size : ℕ
page_size = 4096

abbrev pub kern_base : ℕ
kern_base = 2147483648

-- PHYSTOP, with the MEM megabytes that the build gives: fewer than 2048, so that the product fits an
-- int.
abbrev pub phys_stop : ℕ → ℕ
phys_stop mem = kern_base + mem * 1024 * 1024

-- `kmem`, and the memory by the 64-bit word at each address that is a multiple of 8. A null pointer
-- is 0.
pub record Kmem : Type 0 where
  pub freelist : ℕ
  pub word : ℕ → ℕ

-- `memset` of a page, by the word that eight of the bytes make.
abbrev pub fill_page : ℕ → ℕ → (ℕ → ℕ) → ℕ → ℕ
fill_page pa v word a = if leb pa a && ltb a (pa + page_size) then v else word a

-- Eight bytes that are 1.
abbrev pub junk : ℕ
junk = 72340172838076673

abbrev pub round_up : ℕ → ℕ
round_up a = (a + page_size - 1) / page_size * page_size

-- `kalloc`: the page, or 0.
unfoldable pub kalloc : Kmem → ℕ × Kmem
kalloc s = if s.freelist == 0 then (0, s) else (
  s.freelist,
  record { freelist = s.word s.freelist; word = fill_page s.freelist (5 * junk) s.word },
)

-- `end`, the first address after the kernel, is that of the linker.
module _ (kernel_end mem : ℕ) where
  -- `kfree`, or `none` where it panics. The link to the next page is at the address of the page.
  unfoldable pub kfree : ℕ → Kmem → Option Kmem
  kfree pa s =
      if not (pa % page_size == 0) || ltb pa kernel_end || leb (phys_stop mem) pa
      then none
      else some (record { freelist = pa; word = update (fill_page pa junk s.word) pa s.freelist })

  -- The loop of `freerange`.
  unfoldable pub free_from : ℕ → ℕ → Kmem → Option Kmem
  free_from zero p s = some s
  free_from (suc k) p s = elim (kfree p s) [
    | none ↦ none
    | some s' ↦ free_from k (p + page_size) s'
  ]

  unfoldable pub freerange : ℕ → ℕ → Kmem → Option Kmem
  freerange pa_start pa_end s =
      let p = round_up pa_start in free_from ((pa_end - p) / page_size) p s

  unfoldable pub kinit : Kmem → Option Kmem
  kinit s = freerange kernel_end (phys_stop mem) s
