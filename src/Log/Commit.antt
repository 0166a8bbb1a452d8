-- ===== src/Log/Commit.antt =====
-- `commit`: what the disk stands for wherever the power fails. The children go through its stages.
pub mod Copy
pub mod Stages
use os2_project.Base.{ℕ, ◌+◌, ◌*◌, ◌^◌, ◌≤◌, ◌<◌, ◌≡◌, ◌≢◌, ◌⊎◌, if◌then◌else◌}
use os2_project.Raid.Types.{Block}
use os2_project.Log.{Log, log_size}
use os2_project.Log.Redo.{Homed, Outside, head_n, restored, IsLogged, logged}

module _ (start size : ℕ) where
  -- A transaction is in memory, and the log on the disk is empty.
  pub record Ready (s : Log) : Type 0 where
    pub few : s.n ≤ log_size
    pub fits : s.n + 1 ≤ size
    pub homes : (k : ℕ) → k < s.n → Outside start size (s.block k)
    pub small : (k : ℕ) → k < s.n → s.block k < 2 ^ 32
    pub empty : head_n start size s.disk ≡ 0
    pub clean : (b : ℕ) → (s.buf b ≡ s.disk b) ⊎ Homed s.n s.block b

  -- The disk that the transaction makes: the buffer of each block that has an entry.
  abbrev pub committed : Log → ℕ → Block
  committed s b = if logged start size s.n s.block b then s.buf b else s.disk b

  module _ (s : Log) where
    -- After a failure the log stands for the disk before the transaction, or for that after it.
    pub record Atomic (d' : ℕ → Block) : Type 0 where
      pub valid : IsLogged start size d'
      pub either :
          ((b : ℕ) → Outside start size b → restored start size d' b ≡ s.disk b)
          ⊎ ((b : ℕ) → Outside start size b → restored start size d' b ≡ committed s b)
      pub short : s.power ≤ 2 * s.n + 1

    -- The transaction is on the disk, and the log is empty.
    pub record Committed (s' : Log) : Type 0 where
      pub disk : (b : ℕ) → Outside start size b → s'.disk b ≡ committed s b
      pub empty : head_n start size s'.disk ≡ 0
      pub clean : (b : ℕ) → s'.buf b ≡ s'.disk b
      pub count : s'.n ≡ 0
