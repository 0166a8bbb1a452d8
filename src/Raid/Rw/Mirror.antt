-- ===== src/Raid/Rw/Mirror.antt =====
-- Reading and writing a mirrored block, whichever of the two disks are healthy.
use os2_project.Base.{
  ◌≤◌, ℕ, ◌≡◌, ◌≢◌, refl, none, Option, some, ◌==◌, arith, if◌then◌else◌, minus_one,
}
use os2_project.Raid.Types.{Block, Config, IsConfig, healthy, uninitialized, Machine, put}
use os2_project.Raid.Machine.{load_block, store_block}
use os2_project.Raid.Machine.Laws.{Reaches}
use os2_project.Raid.Rw.{read_raid01, write_mirrored, write_raid01}
use os2_project.Raid.Rw.Laws.{get_disk_health_known, transfer_read, transfer_write}
use os2_project.Raid.Rw.Locks.{Free, holding, acquire_pair_lem, release_pair_lem, on_disk}

-- The status of a disk has been looked up.
abbrev pub Known : Machine → ℕ → Type 0
Known m d = m.device.disk_status d ≢ uninitialized

module _ (c : Config) (ok : IsConfig c) (d e b p : ℕ) where
  -- The disk that a mirrored read takes, if one is healthy.
  abbrev pub source : (ℕ → ℕ) → Option ℕ
  source status =
      if status d == healthy then some d else if status e == healthy then some e else none

  -- The disks after a mirrored write, if it is done.
  abbrev pub mirrored_write : (ℕ → ℕ) → (ℕ → ℕ → Block) → Block → Option (ℕ → ℕ → Block)
  mirrored_write status disk x =
      if status d == healthy
      then some (put (put disk d b x) e b x)
      else if status e == healthy
      then some (put disk e b x)
      else none

  -- What a call returns: 0 with the new state, or -1 with the old one.
  abbrev pub reply {ℓ} : {A : Type ℓ} → (A → Machine) → Machine → Option A → Option (ℕ × Machine)
  reply f m none = some (minus_one, m)
  reply f m (some a) = some (0, f a)

  module _ (r : Reaches c ok d b) (r' : Reaches c ok e b) (at : 4096 ≤ p) where
    -- With the statuses of the two disks known, a mirrored read takes the first disk if it is
    -- healthy, else the mirror if that is, and returns -1 where neither is.
    pub read_raid01_lem :
        (m : Machine)
        → Known m d
        → Known m e
        → read_raid01 c d e b p m
          ≡ reply
              (λ i. record m { mem = store_block m.mem p (m.disk i b) })
              m
              (source m.device.disk_status)
    unfolding read_raid01
    read_raid01_lem m known known' = ground (
      arith,
      get_disk_health_known c ok d m r.first r.last known,
      get_disk_health_known c ok e m r'.first r'.last known',
      transfer_read c ok d b p m r at,
      transfer_read c ok e b p m r' at,
    )

    write_mirrored_lem :
        (m : Machine)
        → Known m d
        → Known m e
        → write_mirrored c d e b p m
          ≡ reply
              (λ disk. on_disk c disk m)
              m
              (mirrored_write m.device.disk_status m.disk (load_block m.mem p))
    unfolding write_mirrored
    write_mirrored_lem m known known' = ground (
      arith,
      get_disk_health_known c ok d m r.first r.last known,
      get_disk_health_known c ok e m r'.first r'.last known',
      transfer_write c ok d b p m r at,
      transfer_write c ok e b p m r' at,
      transfer_write c ok e b p (on_disk c (put m.disk d b (load_block m.mem p)) m) r' at,
    )

    -- The locks go back on either outcome.
    write_locked :
        (m : Machine) (o : Option (ℕ → ℕ → Block))
        → Free c d e m
        → write_mirrored c d e b p (holding c d e m)
          ≡ reply (λ disk. on_disk c disk (holding c d e m)) (holding c d e m) o
        → write_raid01 c d e b p m ≡ reply (λ disk. on_disk c disk m) m o
    unfolding write_raid01
    write_locked m none f body =
        cc (acquire_pair_lem c d e m f, body, release_pair_lem c d e m f (holding c d e m) refl)
    write_locked m (some disk) f body = cc (
      acquire_pair_lem c d e m f,
      body,
      release_pair_lem c d e m f (on_disk c disk (holding c d e m)) refl,
    )

    -- With the locks of the two disks free and their statuses known, a mirrored write goes to both
    -- disks where the first is healthy, to the mirror alone where only that is, and returns -1 and
    -- changes nothing where neither is; the locks are free again.
    pub write_raid01_lem :
        (m : Machine)
        → Free c d e m
        → Known m d
        → Known m e
        → write_raid01 c d e b p m
          ≡ reply
              (λ disk. on_disk c disk m)
              m
              (mirrored_write m.device.disk_status m.disk (load_block m.mem p))
    write_raid01_lem m f known known' =
        write_locked m (mirrored_write m.device.disk_status m.disk (load_block m.mem p)) f
          (write_mirrored_lem (holding c d e m) known known')
