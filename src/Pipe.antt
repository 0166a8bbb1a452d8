-- ===== src/Pipe.antt =====
-- kernel/pipe.c: a pipe as a ring of bytes, with the points at which its users sleep.
pub mod Queue
pub mod Write
pub mod Read
mod Tests
use os2_project.Base.{
  ℕ, zero, suc, ◌+◌, ◌-◌, ◌%◌, ◌^◌, Bool, true, false, ◌||◌, ◌&&◌, not, Option, none, some, List,
  [], ◌∷◌, if◌then◌else◌, ◌==◌, update, u32, minus_one,
}

-- PIPESIZE
abbrev pub pipe_size : ℕ
pipe_size = 512

-- `struct pipe` without its lock, which a call holds but while it sleeps.
pub record Pipe : Type 0 where
  pub bytes : ℕ → ℕ
  pub nread : ℕ
  pub nwrite : ℕ
  pub readopen : Bool
  pub writeopen : Bool

-- A stretch of a call up to where it returns, or sleeps with so many bytes done.
pub data Ended : Type 0 where
  returns : ℕ → Ended
  sleeps : ℕ → Ended

-- The pipe that `pipealloc` sets up.
abbrev pub new_pipe : (ℕ → ℕ) → Pipe
new_pipe bytes = record { bytes = bytes; nread = 0; nwrite = 0; readopen = true; writeopen = true }

-- `pipeclose`, and whether the page of the pipe is freed.
unfoldable pub pipeclose : Pipe → Bool → Pipe × Bool
pipeclose pi writable =
    let pi' : Pipe =
      if writable then record pi { writeopen = false } else record pi { readopen = false } in
    (pi', not pi'.readopen && not pi'.writeopen)

-- pi->data[pi->nwrite++ % PIPESIZE] = ch
abbrev pub push : Pipe → ℕ → Pipe
push pi ch = record pi {
  bytes = update pi.bytes (pi.nwrite % pipe_size) ch;
  nwrite = u32 (pi.nwrite + 1);
}

-- pi->nread++
abbrev pub pop : Pipe → Pipe
pop pi = record pi { nread = u32 (pi.nread + 1) }

-- The loop of `pipewrite` from byte `i` on, `k` bytes in all. `copyin i` is byte `i` of the caller's
-- buffer, or `none` where it cannot be read.
unfoldable pub write_from : (ℕ → Option ℕ) → Bool → ℕ → ℕ → Pipe → Pipe × Ended
write_from copyin killed zero i pi = (pi, returns i)
write_from copyin killed (suc k) i pi =
    if not pi.readopen || killed
    then (pi, returns minus_one)
    else if pi.nwrite == u32 (pi.nread + pipe_size)
    then (pi, sleeps i)
    else elim (copyin i) [
      | none ↦ (pi, returns i)
      | some ch ↦ write_from copyin killed k (i + 1) (push pi ch)
    ]

unfoldable pub pipewrite : (ℕ → Option ℕ) → Bool → ℕ → Pipe → Pipe × Ended
pipewrite copyin killed n pi = write_from copyin killed n 0 pi

-- The copying loop of `piperead`, with the bytes that it has copied out. `copyout i` tells whether
-- byte `i` of the caller's buffer can be written.
unfoldable pub read_from : (ℕ → Bool) → ℕ → ℕ → Pipe → List ℕ × Pipe × Ended
read_from copyout zero i pi = ([], pi, returns i)
read_from copyout (suc k) i pi =
    if pi.nread == pi.nwrite then ([], pi, returns i) else elim (copyout i) [
      | false ↦ ([], pop pi, returns i)
      | true ↦
          let (out, pi', end) = read_from copyout k (i + 1) (pop pi) in
          (pi.bytes (pi.nread % pipe_size) ∷ out, pi', end)
    ]

-- `piperead`, up to where it returns or sleeps.
unfoldable pub piperead : (ℕ → Bool) → Bool → ℕ → Pipe → List ℕ × Pipe × Ended
piperead copyout killed n pi =
    if pi.nread == pi.nwrite && pi.writeopen
    then ([], pi, if killed then returns minus_one else sleeps 0)
    else read_from copyout n 0 pi
