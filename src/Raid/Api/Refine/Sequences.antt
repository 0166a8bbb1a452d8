-- ===== src/Raid/Api/Refine/Sequences.antt =====
-- A sequence of reads and writes of the array, and the same on an array of blocks.
use os2_project.Base.{
  Option, ℕ, ◌+◌, ◌-◌, ◌<◌, ◌≡◌, refl, ap, subst, update_self, update-ne, some, arith, ◌∙◌, sym,
  update, List, [], ◌∷◌, fun_ext, ℕ_discrete,
}
use os2_project.Raid.Types.{Block, block_size, Config, IsConfig, RaidType, Superblock, Machine}
use os2_project.Raid.Geometry.{volume}
use os2_project.Raid.Machine.{load_block, store_block}
use os2_project.Raid.Machine.Buffer.{Buffer}
use os2_project.Raid.Rw.Locks.{on_disk}
use os2_project.Raid.Volume.{view, written}
use os2_project.Raid.Volume.Laws.{view-written_self, view-written_ne}
use os2_project.Raid.Api.Refine.{
  Serves, Request, read, write, perform, perform_all, Store, serve, serve_all, block_of, AllBelow,
  address_of, Agrees,
}
use os2_project.Raid.Api.Refine.Calls.{raid_read_block_lem, raid_write_block_lem}

module _ (c : Config) (ok : IsConfig c) (t : RaidType) (sb : Superblock) where
  -- A copy of a block to memory depends on its bytes only.
  store_block-ext :
      (mem : ℕ → ℕ) (p : ℕ) (x y : Block)
      → ((i : ℕ) → i < block_size → x i ≡ y i)
      → store_block mem p x ≡ store_block mem p y
  store_block-ext mem p x y h = fun_ext λ q. ground (arith, h (q - p))

  module _ (where_is : ℕ → ℕ) where
    -- The buffer of each request is at the place that `where_is` says.
    abbrev pub AllBuffers : (ℕ → Option ℕ) → List Request → Type 0
    AllBuffers walk [] = Unit
    AllBuffers walk (r ∷ rs) =
        Buffer walk (address_of r) (where_is (address_of r)) × AllBuffers walk rs

    -- What one request does, in step with the store.
    record Served (r : Request) (m : Machine) (s : Store) : Type 0 where
      last : Machine
      run : perform c r m ≡ some (0, last)
      serves : Serves c t sb last
      agrees : Agrees c t last (serve where_is r s)
      same : last.walk ≡ m.walk

    module _ (m : Machine) (s : Store) (b a : ℕ) (v : Serves c t sb m) (g : Agrees c t m s)
        (h : b < volume c t) (u : Buffer m.walk a (where_is a)) where
      read-Served : Served (read b a) m s
      unfolding perform serve
      read-Served = record {
        last = record m { mem = store_block m.mem (where_is a) (view c t m.disk b) };
        run = raid_read_block_lem c ok t sb m b a (where_is a) u v h;
        serves = record {
          describes = v.describes;
          filled = v.filled;
          on = v.on;
          loaded = v.loaded;
          online = record { good = v.online.good; free = v.online.free; spare = v.online.spare };
        };
        agrees = record {
          blocks = g.blocks;
          mem =
              store_block-ext m.mem (where_is a) (view c t m.disk b) (s.blocks b)
                (λ i. g.blocks b i h)
              ∙ ap (λ x. store_block x (where_is a) (s.blocks b)) g.mem;
        };
        same = refl;
      }

      write_agrees :
          (k i : ℕ)
          → k < volume c t
          → i < block_size
          → view c t (written c t m.disk b (load_block m.mem (where_is a))) k i
            ≡ update s.blocks b (load_block s.mem (where_is a)) k i
      write_agrees k i kv lt =
          let x = load_block m.mem (where_is a) in
          elim (ℕ_discrete b k) [
            | yes e ↦
                subst
                  (λ j.
                    view c t (written c t m.disk b x) j i
                    ≡ update s.blocks b (load_block s.mem (where_is a)) j i)
                  e
                  (view-written_self c ok m.disk b x t i lt
                    ∙ ap (λ f. f (where_is a + i)) g.mem
                    ∙ ap (λ y. y i) (sym (update_self s.blocks b (load_block s.mem (where_is a)))))
            | no ne ↦
                ap (λ y. y i) (view-written_ne c ok m.disk b x k ne t kv h)
                ∙ g.blocks k i kv lt
                ∙ ap (λ y. y i) (sym (update-ne s.blocks b k (load_block s.mem (where_is a)) ne))
          ]

      write-Served : Served (write b a) m s
      unfolding perform serve
      write-Served = record {
        last = on_disk c (written c t m.disk b (load_block m.mem (where_is a))) m;
        run = raid_write_block_lem c ok t sb m b a (where_is a) u v h;
        serves = record {
          describes = v.describes;
          filled = v.filled;
          on = v.on;
          loaded = v.loaded;
          online = record { good = v.online.good; free = v.online.free; spare = v.online.spare };
        };
        agrees = record { blocks = write_agrees; mem = g.mem };
        same = refl;
      }

    served :
        (r : Request) (m : Machine) (s : Store)
        → Serves c t sb m
        → Agrees c t m s
        → block_of r < volume c t
        → Buffer m.walk (address_of r) (where_is (address_of r))
        → Served r m s
    served (read b a) m s v g h u = read-Served m s b a v g h u
    served (write b a) m s v g h u = write-Served m s b a v g h u

    -- While an array of any level serves its volume and agrees with a store, every sequence of
    -- reads and writes of blocks within the volume, with buffers whose page the process has and
    -- which lie within the page, succeeds, keeps the array up, and leaves the memory and the blocks
    -- as the same requests leave those of the store, with each buffer at its offset in the frame of
    -- its page.
    pub perform_all_refines :
        (rs : List Request) (m : Machine) (s : Store)
        → Serves c t sb m
        → Agrees c t m s
        → AllBelow (volume c t) rs
        → AllBuffers m.walk rs
        → (m' : Machine) × (perform_all c rs m ≡ some m')
          × Serves c t sb m'
          × Agrees c t m' (serve_all where_is rs s)
    unfolding perform_all serve_all
    perform_all_refines [] m s v g h u = (m, refl, v, g)
    perform_all_refines (r ∷ rs) m s v g h u =
        let w = served r m s v g h.0 u.0 in
        let (m', run, v', g') =
          perform_all_refines rs w.last (serve where_is r s) w.serves w.agrees h.1
            (subst (λ walk. AllBuffers walk rs) (sym w.same) u.1) in
        (m', cc (w.run, run), v', g')
