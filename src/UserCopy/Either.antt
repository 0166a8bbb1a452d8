-- ===== src/UserCopy/Either.antt =====
-- Copies to and from an address of the process or of the kernel.
use os2_project.Base.{
  ℕ, zero, suc, ◌+◌, ◌-◌, ◌^◌, ◌≤◌, ◌<◌, ◌≡◌, ◌≢◌, Bool, true, false, if◌then◌else◌, u64, refl, sym,
  ap, subst, ◌∙◌, ◌↔◌, arith, ℕ_discrete, dec_lt, eq→==, ne→==,
}
use os2_project.Kalloc.{page_size}
use os2_project.UserCopy.{
  round_down, put_bytes, piece, copyout_from, copyout, copyin, either_copyout, either_copyin,
}
use os2_project.UserCopy.Bytes.{
  stored, put_bytes_stored, physical, HasPage, piece_at, piece_le, piece_pos, next_page,
  copyout_lem,
}
use os2_project.UserCopy.In.{user_bytes, copyin_lem, stored_at}

module _ (page : ℕ → ℕ) where
  copyout_from-fails :
      (k va : ℕ) (src : ℕ → ℕ) (len : ℕ) (mem : ℕ → ℕ) (i : ℕ)
      → len ≤ k
      → va + len + page_size ≤ 2 ^ 64
      → i < len
      → page (round_down (va + i)) ≡ 0
      → (copyout_from page k va src len mem).0 ≡ false
  unfolding copyout_from
  copyout_from-fails zero va src len mem i le room lt none_there = absurd (omega arith)
  copyout_from-fails (suc k) va src len mem i le room lt none_there =
      let nz : len ≢ 0 = omega arith in
      elim (ℕ_discrete (page (round_down va)) 0) [
        | yes z ↦ rw (ne→== len 0 nz, eq→== (page (round_down va)) 0 z) refl
        | no here ↦
            let n = piece va len in
            let mem1 = put_bytes (page (round_down va) + (va - round_down va)) src n mem in
            let src1 = λ (i : ℕ). src (n + i) in
            let next = u64 (round_down va + page_size) in
            let far : n ≤ i = elim (dec_lt i n) [
              | yes near ↦ absurd (here (ap page (sym (piece_at page va len i near)) ∙ none_there))
              | no far ↦ omega arith
            ] in
            let some_bytes : 0 < n = piece_pos page va len nz in
            let fewer : n ≤ len = piece_le page va len in
            let at : next ≡ va + n =
              omega (arith, next_page page va len (omega (arith, far, lt)), room, fewer) in
            let there : va + i ≡ va + n + (i - n) = omega (arith, far) in
            rw (ne→== len 0 nz, ne→== (page (round_down va)) 0 here)
              (ap (λ v. (copyout_from page k v src1 (len - n) mem1).0) at
                ∙ copyout_from-fails k (va + n) src1 (len - n) mem1 (i - n)
                    (omega (arith, some_bytes, fewer, le)) (omega (arith, room, fewer))
                    (omega (arith, far, lt))
                    (ap (λ a. page (round_down a)) (sym there) ∙ none_there))
      ]

  true_ne_false : (b : Bool) → b ≡ true → b ≡ false → ⊥
  true_ne_false b h g = absurd cc

  -- `copyout` to a range that does not come near the end of the address space returns success
  -- exactly where the process has the page of every address in the range.
  pub copyout_iff :
      (va : ℕ) (src : ℕ → ℕ) (len : ℕ) (mem : ℕ → ℕ)
      → va + len + page_size ≤ 2 ^ 64
      → ((copyout page va src len mem).0 ≡ true) ↔ ((i : ℕ) → i < len → HasPage page (va + i))
  unfolding copyout
  copyout_iff va src len mem room = (
    λ ok i lt z.
        true_ne_false (copyout page va src len mem).0 ok
          (copyout_from-fails len va src len mem i (omega arith) room lt z),
    λ has. ap (λ r. r.0) (copyout_lem page va src len mem room has),
  )

  -- Where the process has all pages of a range, and no two addresses in it are one byte of memory,
  -- `copyin` from the range gives the bytes that `copyout` has put there.
  pub copyin-copyout :
      (va : ℕ) (src : ℕ → ℕ) (len : ℕ) (mem : ℕ → ℕ) (dst : ℕ) (x : ℕ → ℕ) (i : ℕ)
      → va + len + page_size ≤ 2 ^ 64
      → ((i : ℕ) → i < len → HasPage page (va + i))
      → ((i j : ℕ) → i < len → j < len → physical page (va + i) ≡ physical page (va + j) → i ≡ j)
      → i < len
      → (copyin page dst va len (copyout page va src len mem).1 x).1 (dst + i) ≡ src i
  copyin-copyout va src len mem dst x i room has apart lt =
      let at = λ (i : ℕ). physical page (va + i) in
      let mem1 = (copyout page va src len mem).1 in
      ap (λ r. r.1 (dst + i)) (copyin_lem page dst va len mem1 x room has)
      ∙ here (user_bytes page mem1 va) dst len x i lt
      ∙ ap (λ r. r.1 (at i)) (copyout_lem page va src len mem room has)
      ∙ stored_at len at src mem apart i lt
    where
      here :
          (f : ℕ → ℕ) (dst len : ℕ) (x : ℕ → ℕ) (i : ℕ)
          → i < len
          → put_bytes dst f len x (dst + i) ≡ f i
      here f dst len x i lt = let e : dst + i - dst ≡ i = omega arith in ground (arith, ap f e)

  abbrev pub translated : Bool → ℕ → ℕ
  translated user va = if user then physical page va else va

  -- The addresses of a copy can be used.
  abbrev pub CanUse : Bool → ℕ → ℕ → Type 0
  CanUse user va n =
      (va + n + page_size ≤ 2 ^ 64) × ((user ≡ true) → (i : ℕ) → i < n → HasPage page (va + i))

  pub CanUse-skip :
      (user : Bool) (va n m : ℕ) → m ≤ n → CanUse user va n → CanUse user (va + m) (n - m)
  CanUse-skip user va n m le can = (
    omega (arith, can.0, le),
    λ h i lt.
        let e : va + (m + i) ≡ va + m + i = omega arith in
        subst (HasPage page) e (can.1 h (m + i) (omega (arith, lt, le))),
  )

  pub CanUse-first : (user : Bool) (va n m : ℕ) → m ≤ n → CanUse user va n → CanUse user va m
  CanUse-first user va n m le can =
      (omega (arith, can.0, le), λ h i lt. can.1 h i (omega (arith, lt, le)))

  pub either_copyout_lem :
      (user : Bool) (va : ℕ) (src : ℕ → ℕ) (n : ℕ) (mem : ℕ → ℕ)
      → CanUse user va n
      → either_copyout page user va src n mem
        ≡ (true, stored n (λ i. translated user (va + i)) src mem)
  unfolding either_copyout
  either_copyout_lem true va src n mem can = copyout_lem page va src n mem can.0 (can.1 refl)
  either_copyout_lem false va src n mem can = ap (λ m. (true, m)) (put_bytes_stored n va src mem)

  pub either_copyin_lem :
      (dst : ℕ) (user : Bool) (va n : ℕ) (mem x : ℕ → ℕ)
      → CanUse user va n
      → either_copyin page dst user va n mem x
        ≡ (true, put_bytes dst (λ i. mem (translated user (va + i))) n x)
  unfolding either_copyin
  either_copyin_lem dst true va n mem x can = copyin_lem page dst va n mem x can.0 (can.1 refl)
  either_copyin_lem dst false va n mem x can = refl
