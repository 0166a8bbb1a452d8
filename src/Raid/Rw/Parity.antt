-- ===== src/Raid/Rw/Parity.antt =====
-- Reading and writing a block that has no mirror: plain (RAID0), or with a parity block.
use os2_project.Base.{
  le→ltb, ◌≤◌, ℕ, ◌+◌, ◌-◌, ◌<◌, ◌≡◌, ◌≢◌, refl, ap, Bool, true, false, Option, none, some, arith,
  bit_xor, if◌then◌else◌, minus_one, ◌∙◌, ne→==, Bool-cases, inl, inr,
}
use os2_project.Base.Int.{is_zero}
use os2_project.KernelString.{memcmp}
use os2_project.Raid.Types.{
  Block, block_size, Config, IsConfig, healthy, uninitialized, Machine, put,
}
use os2_project.Raid.Machine.{kfree, load_block, store_block}
use os2_project.Raid.Machine.Laws.{Reaches, read_block_lem, write_block_lem, kalloc_lem}
use os2_project.Raid.Rw.{
  get_disk_health, write_parrity_block, write_with_parity, write_raid45, rw_unmirrored,
}
use os2_project.Raid.Rw.Laws.{get_disk_health_known, transfer_read, transfer_write}
use os2_project.Raid.Rw.Locks.{Free, holding, acquire_pair_lem, release_pair_lem, on_disk}

-- The parity block after the data of one disk goes from `old` to `new`.
abbrev pub new_parity : Block → Block → Block → Block
new_parity old new parity i = bit_xor (bit_xor (new i) (old i)) (parity i)

-- The disks after a write with parity disk `q`: as they were where the data stays the same.
abbrev pub parity_write : ℕ → ℕ → ℕ → (ℕ → ℕ → Block) → Block → ℕ → ℕ → Block
parity_write q d b disk x =
    if is_zero (memcmp (disk d b) x block_size)
    then disk
    else put (put disk q b (new_parity (disk d b) x (disk q b))) d b x

module _ (c : Config) (ok : IsConfig c) (q d b : ℕ) where
  module _ (r : Reaches c ok d b) (rq : Reaches c ok q b) where
    write_parrity_block_lem :
        (old new : Block) (m : Machine)
        → 0 < m.free_pages
        → write_parrity_block c q b old new m
          ≡ some (tt, on_disk c (put m.disk q b (new_parity old new (m.disk q b))) m)
    unfolding write_parrity_block kfree
    write_parrity_block_lem old new m spare =
        let taken : Machine = record m { free_pages = m.free_pages - 1 } in
        let back : m.free_pages - 1 + 1 ≡ m.free_pages = omega arith in
        cc (
          read_block_lem c ok q b rq m,
          kalloc_lem m spare,
          write_block_lem c ok q b rq (new_parity old new (m.disk q b)) taken,
          back,
        )

    write_with_parity_lem :
        (x : Block) (m : Machine)
        → 0 < m.free_pages
        → write_with_parity c q d b x m ≡ some (tt, on_disk c (parity_write q d b m.disk x) m)
    unfolding write_with_parity
    write_with_parity_lem x m spare =
        let old = m.disk d b in
        let disk = put m.disk q b (new_parity old x (m.disk q b)) in
        elim (Bool-cases (is_zero (memcmp old x block_size))) [
          | inl same ↦ rw same (cc (read_block_lem c ok d b r m, same))
          | inr differ ↦ rw differ (
              cc (
                read_block_lem c ok d b r m,
                differ,
                write_parrity_block_lem old x m spare,
                write_block_lem c ok d b r x (on_disk c disk m),
              ))
        ]

    pub write_raid45_lem :
        (p : ℕ) (m : Machine)
        → Free c q d m
        → 0 < m.free_pages
        → 4096 ≤ p
        → write_raid45 c q d b p m
          ≡ some (tt, on_disk c (parity_write q d b m.disk (load_block m.mem p)) m)
    unfolding write_raid45
    write_raid45_lem p m f spare at =
        let disk = parity_write q d b m.disk (load_block m.mem p) in
        cc (
          acquire_pair_lem c q d m f,
          le→ltb p 4096 at,
          write_with_parity_lem (load_block m.mem p) (holding c q d m) spare,
          release_pair_lem c q d m f (on_disk c disk (holding c q d m)) refl,
        )

module _ (c : Config) (ok : IsConfig c) (d b p : ℕ) (r : Reaches c ok d b) (m : Machine) where
  open r use {first, last}

  -- A disk that is not healthy is neither read nor written.
  pub rw_unmirrored_dead :
      (parity : Option ℕ) (is_read : Bool)
      → m.device.disk_status d ≢ uninitialized
      → m.device.disk_status d ≢ healthy
      → rw_unmirrored c parity d b p is_read m ≡ some (minus_one, m)
  unfolding rw_unmirrored
  rw_unmirrored_dead parity is_read known dead =
      cc (get_disk_health_known c ok d m first last known, ne→== _ _ dead)

  module _ (good : m.device.disk_status d ≡ healthy) (at : 4096 ≤ p) where
    health : get_disk_health c d m ≡ some (healthy, m)
    health =
        get_disk_health_known c ok d m first last (ground (arith, good))
        ∙ ap (λ h. some (h, m)) good

    pub rw_unmirrored_read :
        (parity : Option ℕ)
        → rw_unmirrored c parity d b p true m
          ≡ some (0, record m { mem = store_block m.mem p (m.disk d b) })
    unfolding rw_unmirrored
    rw_unmirrored_read none = cc (health, transfer_read c ok d b p m r at)
    rw_unmirrored_read (some q) = cc (health, transfer_read c ok d b p m r at)

    pub rw_unmirrored_plain :
        rw_unmirrored c none d b p false m
        ≡ some (0, on_disk c (put m.disk d b (load_block m.mem p)) m)
    unfolding rw_unmirrored
    rw_unmirrored_plain = cc (health, transfer_write c ok d b p m r at)

    pub rw_unmirrored_parity :
        (q : ℕ)
        → Reaches c ok q b
        → Free c q d m
        → 0 < m.free_pages
        → rw_unmirrored c (some q) d b p false m
          ≡ some (0, on_disk c (parity_write q d b m.disk (load_block m.mem p)) m)
    unfolding rw_unmirrored
    rw_unmirrored_parity q rq f spare = cc (health, write_raid45_lem c ok q d b r rq p m f spare at)
