-- ===== src/Raid/Machine/Buffer.antt =====
-- Where a buffer of the caller lies in memory.
use os2_project.Base.{ℕ, ◌+◌, ◌*◌, ◌/◌, ◌%◌, ◌^◌, ◌≤◌, ◌<◌, ◌≡◌, arith, Option, some, lt→leb, ne→==}
use os2_project.Base.Bits.{bit_or-shifted}
use os2_project.Raid.Types.{block_size, Machine}
use os2_project.Raid.Machine.{walkaddr, user_address}

-- The user address `a` of a block is the physical address `p`: the process has the page, and it has
-- the whole block; `pte` is the entry of the page table, with the number of its frame from bit 10 on.
pub record Buffer (walk : ℕ → Option ℕ) (a p : ℕ) : Type 0 where
  pub pte : ℕ
  pub entry : walk a ≡ some pte
  pub low : a < 2 ^ 38
  pub valid : pte % 2 ≡ 1
  pub user : pte / 16 % 2 ≡ 1
  pub frame : 0 < pte / 1024
  pub within : a % 4096 + block_size ≤ 4096
  pub place : p ≡ 4096 * (pte / 1024) + a % 4096

pub Buffer-mapped : (walk : ℕ → Option ℕ) (a p : ℕ) → Buffer walk a p → 4096 ≤ p
Buffer-mapped walk a p u = omega (arith, u.place, u.frame)

pub user_address-Buffer : (m : Machine) (a p : ℕ) → Buffer m.walk a p → user_address m a ≡ p
unfolding user_address walkaddr
user_address-Buffer m a p u =
    let f : u.pte / 2 ^ 10 * 2 ^ 12 ≡ 4096 * (u.pte / 1024) = omega arith in
    cc (
      lt→leb a (2 ^ 38) u.low,
      u.entry,
      ne→== (u.pte % 2) 0 (omega (arith, u.valid)),
      ne→== (u.pte / 16 % 2) 0 (omega (arith, u.user)),
      f,
      bit_or-shifted (u.pte / 1024) (a % 4096) (omega arith),
      u.place,
    )
