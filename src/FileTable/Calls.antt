-- ===== src/FileTable/Calls.antt =====
-- `filealloc`, `filedup` and `fileclose` keep the counts.
use os2_project.Base.{
  ℕ, zero, suc, ◌+◌, ◌-◌, ◌^◌, ◌≤◌, ◌<◌, ◌≡◌, ◌≢◌, ◌⊎◌, inl, inr, refl, sym, ap, subst, ◌∙◌, arith,
  none, some, List, ◌∷◌, ◌++◌, false, update, u32, ℕ_discrete, eq→==, ne→==, lt→leb,
}
use os2_project.FileTable.{
  File, fd_none, fd_pipe, fd_inode, fd_device, closes_pipe, puts_inode, n_file, Closing, nothing,
  below_one, find_free, filealloc, filedup, close_last, fileclose,
}
use os2_project.FileTable.Counts.{
  count, IsCounted, count-append, count_here, count_other, update-IsCounted,
}

find_free-cases :
    (k i : ℕ) (file : ℕ → File)
    → ((f : ℕ) × (find_free k i file ≡ some f) × (f < i + k) × ((file f).ref ≡ 0))
      ⊎ ((find_free k i file ≡ none) × ((f : ℕ) → i ≤ f → f < i + k → (file f).ref ≢ 0))
unfolding find_free
find_free-cases zero i file = inr (refl, λ f low high. absurd (omega arith))
find_free-cases (suc k) i file = elim (ℕ_discrete (file i).ref 0) [
  | yes e ↦ inl (i, rw (eq→== (file i).ref 0 e) refl, omega arith, e)
  | no ne ↦ elim (find_free-cases k (i + 1) file) [
    | inl (f, found, lt, free) ↦ inl (f, rw (ne→== (file i).ref 0 ne) found, omega arith, free)
    | inr (missing, used) ↦ inr (
      rw (ne→== (file i).ref 0 ne) missing,
      λ f low high. elim (ℕ_discrete i f) [
        | yes e ↦ subst (λ g. (file g).ref ≢ 0) e ne
        | no apart ↦ used f (omega arith) (omega arith)
      ],
    )
  ]
]

-- In a table whose files count the references to them, `filealloc` returns a file without a
-- reference, and the files count the references with the new one, or it returns none and changes
-- nothing where every file has a reference.
filealloc_lem :
    (file : ℕ → File) (refs : List ℕ)
    → IsCounted file refs
    → ((filealloc file ≡ (none, file)) × ((f : ℕ) → f < n_file → count f refs ≢ 0))
      ⊎ ((f : ℕ) × (file' : ℕ → File) × (filealloc file ≡ (some f, file'))
          × (f < n_file)
          × (count f refs ≡ 0)
          × IsCounted file' (f ∷ refs))
unfolding filealloc
filealloc_lem file refs c = elim (find_free-cases n_file 0 file) [
  | inl (f, found, lt, free) ↦
      let unused : count f refs ≡ 0 = sym (c.counts f lt) ∙ free in
      let one : count f (f ∷ refs) ≡ 1 = count_here f refs ∙ ap suc unused in
      inr (
        f,
        update file f (record (file f) { ref = 1 }),
        rw (found, filealloc) refl,
        lt,
        unused,
        update-IsCounted file refs (f ∷ refs) c f (record (file f) { ref = 1 }) (sym one)
            (omega (arith, one)) (λ g ne. count_other f g refs ne),
      )
  | inr (missing, used) ↦
      inl (rw (missing, filealloc) refl, λ f lt z. used f (omega arith) lt (c.counts f lt ∙ z))
]

above_zero : (r : ℕ) → r ≢ 0 → r < 2 ^ 31 → below_one r ≡ false
above_zero r nz lt = rw (ne→== r 0 nz, lt→leb r (2 ^ 31) lt) refl

pub filedup_lem :
    (file : ℕ → File) (refs : List ℕ)
    → IsCounted file refs
    → (f : ℕ) → f < n_file
    → count f refs ≢ 0
    → count f refs + 1 < 2 ^ 31
    → (file' : ℕ → File) × (filedup f file ≡ some file') × IsCounted file' (f ∷ refs)
unfolding filedup
filedup_lem file refs c f lt used small =
    let same : (file f).ref ≡ count f refs = c.counts f lt in
    let more : u32 ((file f).ref + 1) ≡ count f (f ∷ refs) =
      omega (arith, same, count_here f refs) in
    (
      update file f (record (file f) { ref = u32 ((file f).ref + 1) }),
      rw (above_zero (file f).ref (λ z. used (sym same ∙ z)) (omega (arith, same))) refl,
      update-IsCounted file refs (f ∷ refs) c f (record (file f) { ref = u32 ((file f).ref + 1) })
          more (omega (arith, count_here f refs)) (λ g ne. count_other f g refs ne),
    )

module _ (file : ℕ → File) (xs ys : List ℕ) (f : ℕ) (lt : f < n_file)
    (c : IsCounted file (xs ++ (f ∷ ys))) where
  -- What `fileclose` does with the reference between `xs` and `ys`.
  pub record Closed (done : Closing) (file' : ℕ → File) : Type 0 where
    pub run : fileclose f file ≡ some (done, file')
    pub counted : IsCounted file' (xs ++ ys)
    pub last_pipe :
        count f (xs ++ ys) ≡ 0
        → (file f).type ≡ fd_pipe
        → done ≡ closes_pipe (file f).pipe (file f).writable
    pub last_inode :
        count f (xs ++ ys) ≡ 0
        → ((file f).type ≡ fd_inode) ⊎ ((file f).type ≡ fd_device)
        → done ≡ puts_inode (file f).ip
    pub last_none : count f (xs ++ ys) ≡ 0 → (file f).type ≡ fd_none → done ≡ nothing
    pub not_last : count f (xs ++ ys) ≢ 0 → done ≡ nothing

  fewer : (file f).ref ≡ suc (count f (xs ++ ys))
  fewer =
      omega
        (arith, c.counts f lt, count-append f xs (f ∷ ys), count-append f xs ys, count_here f ys)

  others : (g : ℕ) → f ≢ g → count g (xs ++ ys) ≡ count g (xs ++ (f ∷ ys))
  others g ne =
      omega (arith, count-append g xs (f ∷ ys), count-append g xs ys, count_other f g ys ne)

  few : suc (count f (xs ++ ys)) < 2 ^ 31
  few = subst (λ n. n < 2 ^ 31) (sym (c.counts f lt) ∙ fewer) (c.few f lt)

  left : u32 ((file f).ref + 2 ^ 32 - 1) ≡ count f (xs ++ ys)
  left = omega (arith, fewer, few)

  open_file : below_one (file f).ref ≡ false
  open_file = above_zero (file f).ref (omega (arith, fewer)) (omega (arith, fewer, few))

  -- In a table whose files count the references to them, giving up a reference to a file returns:
  -- the files count the references that are left. When none is left to the file, the end of a pipe
  -- that it was is closed, or the inode of a file or a device is put back, and nothing is done for
  -- a file without a type; when one is left, nothing is done.
  pub fileclose_lem : (done : Closing) × (file' : ℕ → File) × Closed done file'
  unfolding fileclose
  fileclose_lem = elim (ℕ_discrete (count f (xs ++ ys)) 0) [
    | yes none_left ↦
        let x : File = record (file f) { ref = 0; type = fd_none } in
        (
          close_last (file f).type (file f),
          update file f x,
          record {
            run = rw (open_file, left ∙ none_left) refl;
            counted =
                update-IsCounted file (xs ++ (f ∷ ys)) (xs ++ ys) c f x (sym none_left)
                  (omega arith) others;
            last_pipe = λ z e. ap (λ t. close_last t (file f)) e;
            last_inode = λ z e. elim e [
              | inl e ↦ ap (λ t. close_last t (file f)) e
              | inr e ↦ ap (λ t. close_last t (file f)) e
            ];
            last_none = λ z e. ap (λ t. close_last t (file f)) e;
            not_last = λ nz. absurd (nz none_left);
          },
        )
    | no some_left ↦
        let x : File = record (file f) { ref = u32 ((file f).ref + 2 ^ 32 - 1) } in
        (
          nothing,
          update file f x,
          record {
            run =
                rw
                  (
                    open_file,
                    above_zero (u32 ((file f).ref + 2 ^ 32 - 1)) (λ z. some_left (sym left ∙ z))
                        (omega (arith, left, few)),
                  )
                  refl;
            counted =
                update-IsCounted file (xs ++ (f ∷ ys)) (xs ++ ys) c f x left (omega (arith, few))
                  others;
            last_pipe = λ z e. absurd (some_left z);
            last_inode = λ z e. absurd (some_left z);
            last_none = λ z e. absurd (some_left z);
            not_last = λ nz. refl;
          },
        )
  ]
