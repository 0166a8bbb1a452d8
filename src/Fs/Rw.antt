-- ===== src/Fs/Rw.antt =====
-- `readi` and `writei` of kernel/fs.c.
pub mod Read
pub mod Put
pub mod Wrote
pub mod Write
pub mod Finish
pub mod Calls
use os2_project.Base.{
  ℕ, zero, suc, ◌+◌, ◌-◌, ◌*◌, ◌/◌, ◌%◌, ◌^◌, Bool, true, false, ◌||◌, Option, some, none,
  if◌then◌else◌, ltb, leb, ◌==◌, u32, u64, update, minus_one,
}
use os2_project.UserCopy.{either_copyout, either_copyin}
use os2_project.Fs.{
  Super, Fs, M, pure, ◌>>=◌, ◌>>◌, get_inode, set_inode, bread, log_write, bmap, iupdate,
  block_size, max_file,
}

-- `min(n - tot, BSIZE - off%BSIZE)`
abbrev pub chunk : ℕ → ℕ → ℕ
chunk left off =
    if ltb left (block_size - off % block_size) then left else block_size - off % block_size

module _ (page : ℕ → ℕ) (sb : Super) where
  -- The copies, from and to a buffer.
  abbrev pub copy_out : Bool → ℕ → (ℕ → ℕ) → ℕ → M Bool
  copy_out user dst src m s =
      let r = either_copyout page user dst src m s.mem in some (r.0, record s { mem = r.1 })

  abbrev pub copy_in : ℕ → ℕ → Bool → ℕ → ℕ → M Bool
  copy_in b o user src m s =
      let r = either_copyin page o user src m s.mem (s.cache b) in
      some (r.0, record s { cache = update s.cache b r.1 })

  -- The loop of `readi`, with `tot` bytes done.
  unfoldable pub read_from : ℕ → Bool → ℕ → ℕ → ℕ → ℕ → M ℕ
  read_from zero user dst off n tot = pure tot
  read_from (suc k) user dst off n tot =
      if ltb tot n
      then (do
        addr ← bmap sb (off / block_size)
        if addr == 0 then pure tot else (do
          x ← bread addr
          let m = chunk (n - tot) off
          ok ← copy_out user dst (λ i. x (off % block_size + i)) m
          if ok
              then read_from k user (u64 (dst + m)) (u32 (off + m)) n (u32 (tot + m))
              else pure minus_one))
      else pure tot

  unfoldable pub readi : Bool → ℕ → ℕ → ℕ → M ℕ
  readi user dst off n = do
    ip ← get_inode
    if ltb ip.size off || ltb (u32 (off + n)) off
        then pure 0
        else (let n' = if ltb ip.size (u32 (off + n)) then ip.size - off else n in
            read_from n' user dst off n' 0)

  -- The loop of `writei`, with `tot` bytes done; the results are `off` and `tot` behind it.
  unfoldable pub write_from : ℕ → Bool → ℕ → ℕ → ℕ → ℕ → M (ℕ × ℕ)
  write_from zero user src off n tot = pure (off, tot)
  write_from (suc k) user src off n tot =
      if ltb tot n
      then (do
        addr ← bmap sb (off / block_size)
        if addr == 0 then pure (off, tot) else (do
          let m = chunk (n - tot) off
          ok ← copy_in addr (off % block_size) user src m
          if ok
              then (do
                log_write addr
                write_from k user (u64 (src + m)) (u32 (off + m)) n (u32 (tot + m)))
              else pure (off, tot)))
      else pure (off, tot)

  unfoldable pub writei : Bool → ℕ → ℕ → ℕ → M ℕ
  writei user src off n = do
    ip ← get_inode
    if ltb ip.size off || ltb (u32 (off + n)) off
        then pure minus_one
        else if ltb (max_file * block_size) (u32 (off + n))
        then pure minus_one
        else (do
          r ← write_from n user src off n 0
          ip ← get_inode
          (if ltb ip.size r.0 then set_inode (record ip { size = r.0 }) else pure tt)
          iupdate sb
          pure r.1)
