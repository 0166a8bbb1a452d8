-- ===== src/Pipe/Write.antt =====
-- `pipewrite` on the bytes that wait in a pipe.
use os2_project.Base.{
  ℕ, zero, suc, ◌+◌, ◌<◌, ◌≡◌, ◌⊎◌, inl, inr, refl, sym, ap, ◌∙◌, arith, Bool, true, ◌||◌, not,
  Option, none, some, List, [], ◌∷◌, ◌++◌, u32, minus_one, Bool-cases, ℕ_discrete, eq→==, ne→==,
}
use os2_project.Pipe.{Pipe, Ended, returns, sleeps, pipe_size, push, write_from, pipewrite}
use os2_project.Pipe.Queue.{
  contents, count, IsValid, room, full, push-contents, push-IsValid, length, Copied, snoc-append,
}

Option-cases : (o : Option ℕ) → (o ≡ none) ⊎ ((x : ℕ) × (o ≡ some x))
Option-cases none = inl refl
Option-cases (some x) = inr (x, refl)

add_zero : (i : ℕ) → i + 0 ≡ i
add_zero i = omega arith

module _ (copyin : ℕ → Option ℕ) (killed : Bool) where
  -- Why a write of `k` bytes from byte `i` on ends after `m` of them.
  pub data WriteEnd (k i m : ℕ) (pi : Pipe) : Ended → Type 0 where
    whole : m ≡ k → (e : ℕ) → e ≡ i + m → WriteEnd k i m pi (returns e)
    refused : m < k → (not pi.readopen || killed) ≡ true → WriteEnd k i m pi (returns minus_one)
    is_full : m < k → count pi ≡ pipe_size → (e : ℕ) → e ≡ i + m → WriteEnd k i m pi (sleeps e)
    fault : m < k → copyin (i + m) ≡ none → (e : ℕ) → e ≡ i + m → WriteEnd k i m pi (returns e)

  later_end :
      (k i m : ℕ) (pi : Pipe) (end : Ended)
      → WriteEnd k (i + 1) m pi end
      → WriteEnd (suc k) i (suc m) pi end
  later_end k i m pi _ (whole eq e at) = whole (omega arith) e (omega arith)
  later_end k i m pi _ (refused lt h) = refused (omega arith) h
  later_end k i m pi _ (is_full lt h e at) = is_full (omega arith) h e (omega arith)
  later_end k i m pi _ (fault lt h e at) =
      let next : i + 1 + m ≡ i + suc m = omega arith in
      fault (omega arith) (ap copyin (sym next) ∙ h) e (omega arith)

  -- A write that has put `xs` into the pipe.
  pub record Written (k i : ℕ) (pi pi' : Pipe) (xs : List ℕ) (end : Ended) : Type 0 where
    pub run : write_from copyin killed k i pi ≡ (pi', end)
    pub stream : contents pi' ≡ contents pi ++ xs
    pub copied : Copied copyin i xs
    pub valid : IsValid pi'
    pub same :
        (pi'.nread ≡ pi.nread) × (pi'.readopen ≡ pi.readopen) × (pi'.writeopen ≡ pi.writeopen)
    pub ends : WriteEnd k i (length xs) pi' end

  append_nil : (xs : List ℕ) → xs ≡ xs ++ []
  append_nil [] = refl
  append_nil (x ∷ xs) = ap (λ t. x ∷ t) (append_nil xs)

  stops :
      (k i : ℕ) (pi : Pipe) (end : Ended)
      → IsValid pi
      → write_from copyin killed k i pi ≡ (pi, end)
      → WriteEnd k i 0 pi end
      → (pi' : Pipe) × (xs : List ℕ) × (end : Ended) × Written k i pi pi' xs end
  stops k i pi end v run ends = (
    pi,
    [],
    end,
    record {
      run = run;
      stream = append_nil (contents pi);
      copied = tt;
      valid = v;
      same = (refl, refl, refl);
      ends = ends;
    },
  )

  write_from_lem :
      (k i : ℕ) (pi : Pipe)
      → IsValid pi
      → (pi' : Pipe) × (xs : List ℕ) × (end : Ended) × Written k i pi pi' xs end
  unfolding write_from
  write_from_lem zero i pi v = stops zero i pi (returns i) v refl (whole refl i (omega arith))
  write_from_lem (suc k) i pi v = elim (Bool-cases (not pi.readopen || killed)) [
    | inl shut ↦
        stops (suc k) i pi (returns minus_one) v (rw shut refl) (refused (omega arith) shut)
    | inr live ↦ elim (ℕ_discrete pi.nwrite (u32 (pi.nread + pipe_size))) [
      | yes e ↦
          stops (suc k) i pi (sleeps i) v
            (rw (live, eq→== pi.nwrite (u32 (pi.nread + pipe_size)) e) refl)
            (is_full (omega arith) (full pi v e) i (omega arith))
      | no ne ↦
          let full_no = ne→== pi.nwrite (u32 (pi.nread + pipe_size)) ne in
          elim (Option-cases (copyin i)) [
            | inl bad ↦
                stops (suc k) i pi (returns i) v (rw (live, full_no, bad) refl)
                  (fault (omega arith) (ap copyin (add_zero i) ∙ bad) i (omega arith))
            | inr (ch, good) ↦
                let lt = room pi v ne in
                let (pi', xs, end, w) =
                  write_from_lem k (i + 1) (push pi ch) (push-IsValid pi ch v lt) in
                (
                  pi',
                  ch ∷ xs,
                  end,
                  record {
                    run = rw (live, full_no, good) w.run;
                    stream =
                        w.stream
                        ∙ ap (λ t. t ++ xs) (push-contents pi ch v lt)
                        ∙ snoc-append (contents pi) xs ch;
                    copied = (good, w.copied);
                    valid = w.valid;
                    same = w.same;
                    ends = later_end k i (length xs) pi' end w.ends;
                  },
                )
          ]
    ]
  ]

  -- `pipewrite` up to where it returns or sleeps, in a pipe whose counters are in order, appends
  -- bytes of the caller in their order to those that wait, and the counters stay in order. It ends
  -- with all `n` of them written and returns `n`; or with fewer, and returns -1 where the pipe is
  -- closed for reading or the process killed, sleeps where the pipe is full, or returns how many it
  -- has written where the next byte cannot be read.
  pub pipewrite_lem :
      (n : ℕ) (pi : Pipe)
      → IsValid pi
      → (pi' : Pipe) × (xs : List ℕ) × (end : Ended) × (pipewrite copyin killed n pi ≡ (pi', end))
        × Written n 0 pi pi' xs end
  unfolding pipewrite
  pipewrite_lem n pi v = let (pi', xs, end, w) = write_from_lem n 0 pi v in (pi', xs, end, w.run, w)
