-- ===== src/Pipe/Read.antt =====
-- `piperead` on the bytes that wait in a pipe.
use os2_project.Base.{
  ℕ, zero, suc, ◌+◌, ◌%◌, ◌<◌, ◌≡◌, ◌⊎◌, inl, inr, refl, sym, ap, ◌∙◌, arith, Bool, true, false,
  ◌&&◌, List, [], ◌∷◌, ◌++◌, ◌==◌, minus_one, Bool-cases, ℕ_discrete, eq→==, ne→==, if◌then◌else◌,
}
use os2_project.Pipe.{Pipe, Ended, returns, sleeps, pipe_size, pop, read_from, piperead}
use os2_project.Pipe.Queue.{contents, IsValid, pop-contents, pop-IsValid, empty, length}

module _ (copyout : ℕ → Bool) where
  -- Why a read of `k` bytes to byte `i` on ends after it has copied out `xs`; `taken` is what it has
  -- taken from the pipe.
  pub data ReadEnd (k i : ℕ) (xs taken : List ℕ) (pi : Pipe) : Type 0 where
    whole : length xs ≡ k → taken ≡ xs → ReadEnd k i xs taken pi
    is_empty : length xs < k → taken ≡ xs → contents pi ≡ [] → ReadEnd k i xs taken pi
    fault :
        length xs < k
        → copyout (i + length xs) ≡ false
        → (lost : ℕ) → taken ≡ xs ++ (lost ∷ [])
        → ReadEnd k i xs taken pi

  later_end :
      (k i : ℕ) (xs taken : List ℕ) (pi : Pipe) (x : ℕ)
      → ReadEnd k (i + 1) xs taken pi
      → ReadEnd (suc k) i (x ∷ xs) (x ∷ taken) pi
  later_end k i xs taken pi x (whole eq same) = whole (omega arith) (ap (λ t. x ∷ t) same)
  later_end k i xs taken pi x (is_empty lt same none) =
      is_empty (omega arith) (ap (λ t. x ∷ t) same) none
  later_end k i xs taken pi x (fault lt h lost same) =
      let next : i + 1 + length xs ≡ i + suc (length xs) = omega arith in
      fault (omega arith) (ap copyout (sym next) ∙ h) lost (ap (λ t. x ∷ t) same)

  -- A read that has taken bytes from the front of the pipe.
  pub record Taken (k i : ℕ) (pi pi' : Pipe) (xs : List ℕ) (end : Ended) : Type 0 where
    pub run : read_from copyout k i pi ≡ (xs, pi', end)
    pub taken : List ℕ
    pub stream : contents pi ≡ taken ++ contents pi'
    pub result : end ≡ returns (i + length xs)
    pub valid : IsValid pi'
    pub same :
        (pi'.nwrite ≡ pi.nwrite) × (pi'.readopen ≡ pi.readopen) × (pi'.writeopen ≡ pi.writeopen)
    pub ends : ReadEnd k i xs taken pi'

  add_zero : (i : ℕ) → i ≡ i + 0
  add_zero i = omega arith

  add_suc : (i m : ℕ) → i + 1 + m ≡ i + suc m
  add_suc i m = omega arith

  read_from_lem :
      (k i : ℕ) (pi : Pipe)
      → IsValid pi
      → (pi' : Pipe) × (xs : List ℕ) × (end : Ended) × Taken k i pi pi' xs end
  unfolding read_from
  read_from_lem zero i pi v = (
    pi,
    [],
    returns i,
    record {
      run = refl;
      taken = [];
      stream = refl;
      result = ap returns (add_zero i);
      valid = v;
      same = (refl, refl, refl);
      ends = whole refl refl;
    },
  )
  read_from_lem (suc k) i pi v = elim (ℕ_discrete pi.nread pi.nwrite) [
    | yes e ↦ (
      pi,
      [],
      returns i,
      record {
        run = rw (eq→== pi.nread pi.nwrite e) refl;
        taken = [];
        stream = refl;
        result = ap returns (add_zero i);
        valid = v;
        same = (refl, refl, refl);
        ends = is_empty (omega arith) refl (empty pi v e);
      },
    )
    | no ne ↦
        let some_left = ne→== pi.nread pi.nwrite ne in
        let byte = pi.bytes (pi.nread % pipe_size) in
        elim (Bool-cases (copyout i)) [
          | inl good ↦
              let (pi', xs, end, t) = read_from_lem k (i + 1) (pop pi) (pop-IsValid pi v ne) in
              (
                pi',
                byte ∷ xs,
                end,
                record {
                  run = rw (some_left, good, t.run) refl;
                  taken = byte ∷ t.taken;
                  stream = pop-contents pi v ne ∙ ap (λ r. byte ∷ r) t.stream;
                  result = t.result ∙ ap returns (add_suc i (length xs));
                  valid = t.valid;
                  same = t.same;
                  ends = later_end k i xs t.taken pi' byte t.ends;
                },
              )
          | inr bad ↦ (
            pop pi,
            [],
            returns i,
            record {
              run = rw (some_left, bad) refl;
              taken = byte ∷ [];
              stream = pop-contents pi v ne;
              result = ap returns (add_zero i);
              valid = pop-IsValid pi v ne;
              same = (refl, refl, refl);
              ends = fault (omega arith) (ap copyout (sym (add_zero i)) ∙ bad) byte refl;
            },
          )
        ]
  ]

  goes_on :
      (killed : Bool) (n : ℕ) (pi : Pipe)
      → (pi.nread == pi.nwrite && pi.writeopen) ≡ false
      → piperead copyout killed n pi ≡ read_from copyout n 0 pi
  unfolding piperead
  goes_on killed n pi h = rw h refl

  -- `piperead` up to where it returns or sleeps, in a pipe whose counters are in order, waits only
  -- on an empty pipe that is open for writing, where a killed process gets -1. Else it takes bytes
  -- from the front, returns how many it has copied out in their order, and the counters stay in
  -- order: `n` bytes, or fewer where the pipe has become empty or the next byte cannot be copied
  -- out, which is then lost.
  pub piperead_lem :
      (killed : Bool) (n : ℕ) (pi : Pipe)
      → IsValid pi
      → ((contents pi ≡ [])
          × (pi.writeopen ≡ true)
          × (piperead copyout killed n pi
              ≡ ([], pi, if killed then returns minus_one else sleeps 0)))
        ⊎ ((pi' : Pipe) × (xs : List ℕ) × (end : Ended) × (piperead copyout killed n pi
              ≡ (xs, pi', end))
            × Taken n 0 pi pi' xs end)
  unfolding piperead
  piperead_lem killed n pi v =
      let (pi', xs, end, t) = read_from_lem n 0 pi v in
      elim (ℕ_discrete pi.nread pi.nwrite) [
        | yes e ↦ elim (Bool-cases pi.writeopen) [
          | inl waits ↦ inl (empty pi v e, waits, rw (eq→== pi.nread pi.nwrite e, waits) refl)
          | inr shut ↦
              let past = goes_on killed n pi (rw (eq→== pi.nread pi.nwrite e, shut) refl) in
              inr (pi', xs, end, past ∙ t.run, t)
        ]
        | no ne ↦
            let past = goes_on killed n pi (rw (ne→== pi.nread pi.nwrite ne) refl) in
            inr (pi', xs, end, past ∙ t.run, t)
      ]
