-- ===== src/Log/Tests.antt =====
-- Examples for the log: one of 31 blocks from block 2 on, with a transaction of one block.
use os2_project.Base.{
  ℕ, ◌%◌, ◌≡◌, ◌≢◌, ◌⊎◌, if◌then◌else◌, ◌==◌, inl, inr, refl, subst, ◌≤◌, arith, false, ℕ_discrete,
  update, [], ◌∷◌, ◌++◌, ne→==,
}
use os2_project.Raid.Types.{Block}
use os2_project.Log.{
  Log, done, crash, sleeps, max_op_blocks, boot, initlog, commit, begin_op, end_op, log_write,
  bwrite, write_log, write_log_from, write_head,
}
use os2_project.Log.Redo.{Outside, IsLogged, restored, head_n, head_block}
use os2_project.Log.Commit.{Ready, committed}
use os2_project.Log.Ops.Crash.{end_op-crash}
use os2_project.Log.Ops.Reserve.{Reserved, begin_op-Reserved, log_write-Reserved}
use os2_project.Log.Recover.Restarts.{restarts, initlog-restarts}

-- Each block of the disk has its number in every byte, but for the empty header.
abbrev blocks : ℕ → Block
blocks = update (λ b i. b % 256) 2 (λ i. 0)

-- Block 50 has been changed, and logged; `power` writes are left.
abbrev state : ℕ → Log
state power = record {
  n = 1;
  block = λ k. 50;
  outstanding = 1;
  committing = false;
  disk = blocks;
  buf = update blocks 50 (λ i. 7);
  pins = update (λ b. 0) 50 1;
  power = power;
}

state-Ready : (power : ℕ) → Ready 2 31 (state power)
state-Ready power = record {
  few = omega arith;
  fits = omega arith;
  homes = λ k lt. inr (omega arith);
  small = λ k lt. omega arith;
  empty = refl;
  clean = λ b. elim (ℕ_discrete 50 b) [
    | yes e ↦ inr (0, omega arith, e)
    | no ne ↦ inl (rw (ne→== 50 b ne) refl)
  ];
}

-- The power fails after the block has been copied to the log, before the header is written.
abbrev torn : ℕ → Block
torn = update blocks 3 (λ i. 7)

end_op-torn : end_op 2 31 (state 1) ≡ crash torn
unfolding end_op commit write_log write_log_from write_head bwrite
end_op-torn = refl

end_op-crash_example :
    (s' : Log) × (initlog 2 31 (boot (restarts 2 31 (0 ∷ []) torn) 31) ≡ done tt s')
    × (((b : ℕ) → Outside 2 31 b → s'.disk b ≡ blocks b)
        ⊎ ((b : ℕ) → Outside 2 31 b → s'.disk b ≡ committed 2 31 (state 1) b))
    × (head_n 2 31 s'.disk ≡ 0)
    × ((b : ℕ) → s'.buf b ≡ s'.disk b)
end_op-crash_example =
    end_op-crash 2 31 (state 1) (state-Ready 1) (omega arith) refl refl torn (0 ∷ []) 31 end_op-torn
      (omega arith)

-- A disk whose log has one entry, for block 50.
abbrev logged_disk : ℕ → Block
logged_disk = update blocks 2 (λ i. if i == 0 then 1 else if i == 4 then 50 else 0)

logged_disk-IsLogged : IsLogged 2 31 logged_disk
logged_disk-IsLogged = record {
  fits = omega arith;
  homes = λ k lt.
      let e : 0 ≡ k = omega arith in
      inr (subst (λ j. 33 ≤ head_block 2 31 logged_disk j) e (omega arith));
}

initlog-restarts_example :
    (s : Log) × (initlog 2 31 (boot (restarts 2 31 (1 ∷ 0 ∷ []) logged_disk) 2) ≡ done tt s)
    × ((b : ℕ) → b ≢ 2 → s.disk b ≡ restored 2 31 logged_disk b)
    × (head_n 2 31 s.disk ≡ 0)
    × ((b : ℕ) → s.buf b ≡ s.disk b)
initlog-restarts_example =
    initlog-restarts 2 31 (1 ∷ 0 ∷ []) logged_disk 2 logged_disk-IsLogged (omega arith)

state-Reserved : Reserved (state 9) (10 ∷ [])
state-Reserved = record {
  counted = refl;
  each = (omega arith, tt);
  room = omega arith;
  few = omega arith;
}

begin_op-Reserved_example :
    (begin_op (state 9) ≡ sleeps)
    ⊎ ((s' : Log) × (begin_op (state 9) ≡ done tt s') × Reserved s' (max_op_blocks ∷ 10 ∷ []))
begin_op-Reserved_example = begin_op-Reserved (state 9) (10 ∷ []) state-Reserved

log_write-Reserved_example :
    (s' : Log) × (log_write 2 31 60 (record (state 9) { buf = update (state 9).buf 60 (λ i. 9) })
      ≡ done tt s')
    × Ready 2 31 s'
    × Reserved s' ([] ++ (9 ∷ []))
log_write-Reserved_example =
    log_write-Reserved 2 31 (state 9) (state-Ready 9) [] [] 9 60 (λ i. 9) state-Reserved
      (inr (omega arith)) (omega arith) (omega arith)
