-- ===== src/UserCopy/Bytes.antt =====
-- The copies between the kernel and a process, byte by byte.
use os2_project.Base.{
  ℕ, zero, suc, ◌+◌, ◌-◌, ◌%◌, ◌^◌, ◌≤◌, ◌<◌, ◌≡◌, ◌≢◌, true, u64, refl, sym, ap, ap₂, subst,
  fun_ext, ◌∙◌, arith, update, ℕ_discrete, eq→==, ne→==,
}
use os2_project.Kalloc.{page_size}
use os2_project.UserCopy.{round_down, put_bytes, piece, copyout_from, copyout}

-- The `n` bytes of `src` stored one by one, byte `i` at the address `at i`.
unfoldable pub stored : ℕ → (ℕ → ℕ) → (ℕ → ℕ) → (ℕ → ℕ) → ℕ → ℕ
stored zero at src mem = mem
stored (suc n) at src mem =
    stored n (λ i. at (1 + i)) (λ i. src (1 + i)) (update mem (at 0) (src 0))

pub stored_ext :
    (n : ℕ) (at at' src src' mem : ℕ → ℕ)
    → ((i : ℕ) → i < n → at i ≡ at' i)
    → ((i : ℕ) → i < n → src i ≡ src' i)
    → stored n at src mem ≡ stored n at' src' mem
unfolding stored
stored_ext zero at at' src src' mem h g = refl
stored_ext (suc n) at at' src src' mem h g =
    ap₂ (λ a b. stored n (λ i. at (1 + i)) (λ i. src (1 + i)) (update mem a b)) (h 0 (omega arith))
      (g 0 (omega arith))
    ∙ stored_ext n (λ i. at (1 + i)) (λ i. at' (1 + i)) (λ i. src (1 + i)) (λ i. src' (1 + i))
        (update mem (at' 0) (src' 0)) (λ i lt. h (1 + i) (omega arith))
        (λ i lt. g (1 + i) (omega arith))

pub stored_add :
    (m n : ℕ) (at src mem : ℕ → ℕ)
    → stored (m + n) at src mem
      ≡ stored n (λ i. at (m + i)) (λ i. src (m + i)) (stored m at src mem)
unfolding stored
stored_add zero n at src mem =
    (let e : 0 + n ≡ n = omega arith in ap (λ k. stored k at src mem) e)
    ∙ stored_ext n at (λ i. at (0 + i)) src (λ i. src (0 + i)) mem (λ i lt. ap at (omega arith))
        (λ i lt. ap src (omega arith))
stored_add (suc m) n at src mem =
    let at1 = λ (i : ℕ). at (1 + i) in
    let src1 = λ (i : ℕ). src (1 + i) in
    let mem1 = update mem (at 0) (src 0) in
    (let e : suc m + n ≡ suc (m + n) = omega arith in ap (λ k. stored k at src mem) e)
    ∙ stored_add m n at1 src1 mem1
    ∙ stored_ext n (λ i. at (1 + (m + i))) (λ i. at (suc m + i)) (λ i. src (1 + (m + i)))
        (λ i. src (suc m + i)) (stored m at1 src1 mem1) (λ i lt. ap at (omega arith))
        (λ i lt. ap src (omega arith))

pub put_bytes_stored :
    (n dst : ℕ) (src mem : ℕ → ℕ) → put_bytes dst src n mem ≡ stored n (λ i. dst + i) src mem
unfolding stored
put_bytes_stored zero dst src mem = fun_ext λ a. ground arith
put_bytes_stored (suc n) dst src mem =
    let mem1 = update mem (dst + 0) (src 0) in
    fun_ext (λ a. put_bytes_step n dst src mem a)
    ∙ put_bytes_stored n (dst + 1) (λ i. src (1 + i)) mem1
    ∙ stored_ext n (λ i. dst + 1 + i) (λ i. dst + (1 + i)) (λ i. src (1 + i)) (λ i. src (1 + i))
        mem1 (λ i lt. omega arith) (λ i lt. refl)
  where
    put_bytes_step :
        (n dst : ℕ) (src mem : ℕ → ℕ) (a : ℕ)
        → put_bytes dst src (suc n) mem a
          ≡ put_bytes (dst + 1) (λ i. src (1 + i)) n (update mem (dst + 0) (src 0)) a
    put_bytes_step n dst src mem a = ground arith

module _ (page : ℕ → ℕ) where
  -- The physical address of a user address, and whether the process has its page.
  abbrev pub physical : ℕ → ℕ
  physical va = page (round_down va) + va % page_size

  abbrev pub HasPage : ℕ → Type 0
  HasPage va = page (round_down va) ≢ 0

  pub piece_at : (va len i : ℕ) → i < piece va len → round_down (va + i) ≡ round_down va
  piece_at va len i h = ground arith

  pub piece_le : (va len : ℕ) → piece va len ≤ len
  piece_le va len = ground arith

  pub piece_pos : (va len : ℕ) → len ≢ 0 → 0 < piece va len
  piece_pos va len h = ground arith

  pub next_page : (va len : ℕ) → piece va len ≢ len → round_down va + page_size ≡ va + piece va len
  next_page va len h = ground arith

  pub in_page :
      (va len i : ℕ)
      → i < piece va len
      → page (round_down va) + (va - round_down va) + i ≡ physical (va + i)
  in_page va len i lt =
      let e : (va + i) % page_size ≡ va - round_down va + i = ground arith in
      let p : page (round_down (va + i)) ≡ page (round_down va) = ap page (piece_at va len i lt) in
      omega (arith, e, p)

  -- One piece of `copyout`.
  stored_piece :
      (va len : ℕ) (src mem : ℕ → ℕ)
      → put_bytes (page (round_down va) + (va - round_down va)) src (piece va len) mem
        ≡ stored (piece va len) (λ i. physical (va + i)) src mem
  stored_piece va len src mem =
      put_bytes_stored (piece va len) (page (round_down va) + (va - round_down va)) src mem
      ∙ stored_ext (piece va len) (λ i. page (round_down va) + (va - round_down va) + i)
          (λ i. physical (va + i)) src src mem (λ i lt. in_page va len i lt) (λ i lt. refl)

  -- The pieces put together.
  stored_join :
      (va n len : ℕ) (src mem : ℕ → ℕ)
      → n ≤ len
      → stored
          (len - n)
          (λ i. physical (va + n + i))
          (λ i. src (n + i))
          (stored n (λ i. physical (va + i)) src mem)
        ≡ stored len (λ i. physical (va + i)) src mem
  stored_join va n len src mem le =
      let mem1 = stored n (λ i. physical (va + i)) src mem in
      let e : n + (len - n) ≡ len = omega arith in
      stored_ext (len - n) (λ i. physical (va + n + i)) (λ i. physical (va + (n + i)))
        (λ i. src (n + i)) (λ i. src (n + i)) mem1 (λ i lt. ap physical (omega arith))
        (λ i lt. refl)
      ∙ sym (stored_add n (len - n) (λ i. physical (va + i)) src mem)
      ∙ ap (λ l. stored l (λ i. physical (va + i)) src mem) e

  copyout_none :
      (k va : ℕ) (src mem : ℕ → ℕ) (len : ℕ)
      → len ≡ 0
      → copyout_from page k va src len mem ≡ (true, mem)
  unfolding copyout_from
  copyout_none zero va src mem len z = refl
  copyout_none (suc k) va src mem len z = rw (eq→== len 0 z) refl

  pub has_here : (va len : ℕ) → ((i : ℕ) → i < len → HasPage (va + i)) → len ≢ 0 → HasPage va
  has_here va len has nz =
      let e : va + 0 ≡ va = omega arith in subst HasPage e (has 0 (omega arith))

  copyout_from-stored :
      (k va : ℕ) (src : ℕ → ℕ) (len : ℕ) (mem : ℕ → ℕ)
      → len ≤ k
      → va + len + page_size ≤ 2 ^ 64
      → ((i : ℕ) → i < len → HasPage (va + i))
      → copyout_from page k va src len mem ≡ (true, stored len (λ i. physical (va + i)) src mem)
  unfolding copyout_from stored
  copyout_from-stored zero va src len mem le room has =
      let e : len ≡ 0 = omega arith in
      ap (λ l. (true, stored l (λ i. physical (va + i)) src mem)) (sym e)
  copyout_from-stored (suc k) va src len mem le room has = elim (ℕ_discrete len 0) [
    | yes z ↦
        rw (eq→== len 0 z) (ap (λ l. (true, stored l (λ i. physical (va + i)) src mem)) (sym z))
    | no nz ↦
        let n = piece va len in
        let src1 = λ (i : ℕ). src (n + i) in
        let mem1 = stored n (λ i. physical (va + i)) src mem in
        let next = u64 (round_down va + page_size) in
        let here : HasPage va = λ z. has_here va len has nz z in
        rw (ne→== len 0 nz, ne→== (page (round_down va)) 0 here)
          (ap (copyout_from page k next src1 (len - n)) (stored_piece va len src mem)
            ∙ (elim (ℕ_discrete n len) [
              | yes e ↦
                  copyout_none k next src1 mem1 (len - n) (omega (arith, e))
                  ∙ ap (λ l. (true, stored l (λ i. physical (va + i)) src mem)) e
              | no ne ↦
                  let some_bytes : 0 < n = piece_pos va len nz in
                  let fewer : n ≤ len = piece_le va len in
                  let at : next ≡ va + n = omega (arith, next_page va len ne, room, fewer) in
                  ap (λ v. copyout_from page k v src1 (len - n) mem1) at
                  ∙ copyout_from-stored k (va + n) src1 (len - n) mem1
                      (omega (arith, some_bytes, fewer, le)) (omega (arith, room, fewer))
                      (λ i lt.
                        let e : va + (n + i) ≡ va + n + i = omega arith in
                        subst HasPage e (has (n + i) (omega (arith, lt, fewer))))
                  ∙ ap (λ m. (true, m)) (stored_join va n len src mem fewer)
            ]))
  ]

  -- `copyout` stores each byte at the physical address of its user address.
  pub copyout_lem :
      (va : ℕ) (src : ℕ → ℕ) (len : ℕ) (mem : ℕ → ℕ)
      → va + len + page_size ≤ 2 ^ 64
      → ((i : ℕ) → i < len → HasPage (va + i))
      → copyout page va src len mem ≡ (true, stored len (λ i. physical (va + i)) src mem)
  unfolding copyout
  copyout_lem va src len mem room has =
      copyout_from-stored len va src len mem (omega arith) room has
