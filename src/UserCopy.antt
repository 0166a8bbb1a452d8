-- ===== src/UserCopy.antt =====
-- `copyin` and `copyout` of kernel/vm.c, and `either_copyin` and `either_copyout` of kernel/proc.c.
pub mod Bytes
pub mod In
pub mod Either
mod Tests
use os2_project.Base.{
  ℕ, zero, suc, ◌+◌, ◌-◌, ◌*◌, ◌/◌, ◌^◌, Bool, true, false, ◌&&◌, if◌then◌else◌, ltb, leb, ◌==◌,
  u64,
}
use os2_project.Kalloc.{page_size}

-- PGROUNDDOWN
abbrev pub round_down : ℕ → ℕ
round_down va = va / page_size * page_size

-- What `memmove` does from one object to another: `n` bytes of `src` put into `mem` from `dst` on.
abbrev pub put_bytes : ℕ → (ℕ → ℕ) → ℕ → (ℕ → ℕ) → ℕ → ℕ
put_bytes dst src n mem a = if leb dst a && ltb a (dst + n) then src (a - dst) else mem a

-- The bytes of the page that a copy of `len` bytes from `va` on takes.
abbrev pub piece : ℕ → ℕ → ℕ
piece va len =
    if ltb len (page_size - (va - round_down va)) then len else page_size - (va - round_down va)

-- `page` is `walkaddr` on the page table of the process: the physical address of a page, or 0.
module _ (page : ℕ → ℕ) where
  -- The loop of `copyout` into the memory `mem`, from the bytes `src` of an object of the kernel.
  unfoldable pub copyout_from : ℕ → ℕ → (ℕ → ℕ) → ℕ → (ℕ → ℕ) → Bool × (ℕ → ℕ)
  copyout_from zero dstva src len mem = (true, mem)
  copyout_from (suc k) dstva src len mem =
      let va0 = round_down dstva in
      let n = piece dstva len in
      let rest =
        copyout_from k (u64 (va0 + page_size)) (λ i. src (n + i)) (len - n)
          (put_bytes (page va0 + (dstva - va0)) src n mem) in
      if len == 0 then (true, mem) else if page va0 == 0 then (false, mem) else rest

  -- Each turn copies a byte or more.
  unfoldable pub copyout : ℕ → (ℕ → ℕ) → ℕ → (ℕ → ℕ) → Bool × (ℕ → ℕ)
  copyout dstva src len mem = copyout_from len dstva src len mem

  -- The loop of `copyin` from the memory `mem`, to the bytes of `x` from `dst` on.
  unfoldable pub copyin_from : ℕ → ℕ → ℕ → ℕ → (ℕ → ℕ) → (ℕ → ℕ) → Bool × (ℕ → ℕ)
  copyin_from zero dst srcva len mem x = (true, x)
  copyin_from (suc k) dst srcva len mem x =
      let va0 = round_down srcva in
      let n = piece srcva len in
      let rest =
        copyin_from k (dst + n) (u64 (va0 + page_size)) (len - n) mem
          (put_bytes dst (λ i. mem (page va0 + (srcva - va0) + i)) n x) in
      if len == 0 then (true, x) else if page va0 == 0 then (false, x) else rest

  unfoldable pub copyin : ℕ → ℕ → ℕ → (ℕ → ℕ) → (ℕ → ℕ) → Bool × (ℕ → ℕ)
  copyin dst srcva len mem x = copyin_from len dst srcva len mem x

  -- A user address goes by the page table, one of the kernel by itself.
  unfoldable pub either_copyout : Bool → ℕ → (ℕ → ℕ) → ℕ → (ℕ → ℕ) → Bool × (ℕ → ℕ)
  either_copyout user dst src len mem =
      if user then copyout dst src len mem else (true, put_bytes dst src len mem)

  unfoldable pub either_copyin : ℕ → Bool → ℕ → ℕ → (ℕ → ℕ) → (ℕ → ℕ) → Bool × (ℕ → ℕ)
  either_copyin dst user src len mem x =
      if user then copyin dst src len mem x else (true, put_bytes dst (λ i. mem (src + i)) len x)
