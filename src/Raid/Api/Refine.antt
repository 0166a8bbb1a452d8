-- ===== src/Raid/Api/Refine.antt =====
-- The array serves its volume: what `raid_read_block` and `raid_write_block` do, call by call and in
-- any sequence, against an array of blocks. This file has the statement, its children the proofs.
pub mod Calls
pub mod Sequences
use os2_project.Base.{
  ℕ, suc, ◌+◌, ◌-◌, ◌≤◌, ◌<◌, ◌≡◌, ◌≢◌, refl, ap, ap₂, subst, update_self, update-ne, Bool, true,
  false, not, Option, none, some, arith, ◌∙◌, sym, if◌then◌else◌, ltb, leb, ◌==◌, update, minus_one,
  minus_two, List, [], ◌∷◌, fun_ext, ℕ_discrete, lt→ltb, le→ltb, eq→==,
}
use os2_project.Raid.Types.{
  Block, block_size, Config, IsConfig, blocks_per_disk, RaidType, Superblock, Machine,
}
use os2_project.Raid.Geometry.{volume}
use os2_project.Raid.Superblock.{is_raid_uninitialized}
use os2_project.Raid.Machine.{load_block, store_block, user_address, walkaddr}
use os2_project.Raid.Rw.{load_metadata, load_slowly}
use os2_project.Raid.Rw.Locks.{on_disk}
use os2_project.Raid.Volume.{Describes, Online, view, written}
use os2_project.Raid.Volume.Access.{rw_block-read, rw_block-write}
use os2_project.Raid.Volume.Laws.{view-written_self, view-written_ne}
use os2_project.Raid.Api.{raid_rw_block, raid_read_block, raid_write_block}

-- An array of level `t` is up: its superblock is in memory, and its disks are healthy.
pub record Serves (c : Config) (t : RaidType) (sb : Superblock) (m : Machine) : Type 0 where
  pub describes : Describes c t sb
  pub filled : is_raid_uninitialized sb ≡ false
  pub on : m.device.is_init ≡ 1
  pub loaded : m.device.superblock ≡ some sb
  pub online : Online c m

-- A request of a process, by the block number and the address of its buffer.
pub data Request : Type 0 where
  read : ℕ → ℕ → Request
  write : ℕ → ℕ → Request

module _ (c : Config) where
  -- The requests one after another; `none` if one does not return 0.
  unfoldable pub perform : Request → Machine → Option (ℕ × Machine)
  perform (read b a) = raid_read_block c b a
  perform (write b a) = raid_write_block c b a

  unfoldable pub perform_all : List Request → Machine → Option Machine
  perform_all [] m = some m
  perform_all (r ∷ rs) m = elim (perform r m) [
    | none ↦ none
    | some (code, m') ↦ let rest = perform_all rs m' in if code == 0 then rest else none
  ]

-- The same requests on an array of blocks and a memory; `where_is` translates addresses.
pub record Store : Type 0 where
  pub blocks : ℕ → Block
  pub mem : ℕ → ℕ

unfoldable pub serve : (ℕ → ℕ) → Request → Store → Store
serve where_is (read b a) s = record s { mem = store_block s.mem (where_is a) (s.blocks b) }
serve where_is (write b a) s = record s {
  blocks = update s.blocks b (load_block s.mem (where_is a));
}

unfoldable pub serve_all : (ℕ → ℕ) → List Request → Store → Store
serve_all where_is [] s = s
serve_all where_is (r ∷ rs) s = serve_all where_is rs (serve where_is r s)

abbrev pub block_of : Request → ℕ
block_of (read b a) = b
block_of (write b a) = b

abbrev pub address_of : Request → ℕ
address_of (read b a) = a
address_of (write b a) = a

abbrev pub AllBelow : ℕ → List Request → Type 0
AllBelow n [] = Unit
AllBelow n (r ∷ rs) = (block_of r < n) × AllBelow n rs

-- The array holds the blocks of the store, and the memories agree.
pub record Agrees (c : Config) (t : RaidType) (m : Machine) (s : Store) : Type 0 where
  pub blocks : (b i : ℕ) → b < volume c t → i < block_size → view c t m.disk b i ≡ s.blocks b i
  pub mem : m.mem ≡ s.mem
