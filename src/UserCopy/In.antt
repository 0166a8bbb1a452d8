-- ===== src/UserCopy/In.antt =====
-- `copyin`, and what it reads of what `copyout` has stored.
use os2_project.Base.{
  ℕ, zero, suc, ◌+◌, ◌-◌, ◌^◌, ◌≤◌, ◌<◌, ◌≡◌, ◌≢◌, true, u64, refl, sym, ap, subst, fun_ext, ◌∙◌,
  arith, update, update_self, update-ne, ℕ_discrete, dec_lt, eq→==, ne→==,
}
use os2_project.Kalloc.{page_size}
use os2_project.UserCopy.{round_down, put_bytes, piece, copyin_from, copyin}
use os2_project.UserCopy.Bytes.{
  stored, physical, HasPage, piece_le, piece_pos, next_page, in_page, has_here,
}

put_bytes_ext :
    (dst n : ℕ) (f g x : ℕ → ℕ)
    → ((i : ℕ) → i < n → f i ≡ g i)
    → put_bytes dst f n x ≡ put_bytes dst g n x
put_bytes_ext dst n f g x h = fun_ext λ a. elim (dec_lt a dst) [
  | yes low ↦ ground arith
  | no far ↦ elim (dec_lt a (dst + n)) [
    | yes lt ↦ ground (arith, h (a - dst) (omega arith))
    | no out ↦ ground arith
  ]
]

pub put_bytes_join :
    (dst n len : ℕ) (f x : ℕ → ℕ)
    → n ≤ len
    → put_bytes (dst + n) (λ i. f (n + i)) (len - n) (put_bytes dst f n x) ≡ put_bytes dst f len x
put_bytes_join dst n len f x le = fun_ext λ a. elim (dec_lt a (dst + n)) [
  | yes low ↦ ground arith
  | no far ↦ let e : n + (a - (dst + n)) ≡ a - dst = omega arith in ground (arith, ap f e)
]

pub stored_beside :
    (n : ℕ) (at src mem : ℕ → ℕ) (a : ℕ)
    → ((i : ℕ) → i < n → at i ≢ a)
    → stored n at src mem a ≡ mem a
unfolding stored
stored_beside zero at src mem a h = refl
stored_beside (suc n) at src mem a h =
    stored_beside n (λ i. at (1 + i)) (λ i. src (1 + i)) (update mem (at 0) (src 0)) a
      (λ i lt. h (1 + i) (omega arith))
    ∙ update-ne mem (at 0) a (src 0) (h 0 (omega arith))

-- Distinct addresses each have the byte stored there.
pub stored_at :
    (n : ℕ) (at src mem : ℕ → ℕ)
    → ((i j : ℕ) → i < n → j < n → at i ≡ at j → i ≡ j)
    → (i : ℕ) → i < n
    → stored n at src mem (at i) ≡ src i
unfolding stored
stored_at zero at src mem inj i lt = absurd (omega arith)
stored_at (suc n) at src mem inj i lt =
    let at1 = λ (k : ℕ). at (1 + k) in
    let src1 = λ (k : ℕ). src (1 + k) in
    let mem1 = update mem (at 0) (src 0) in
    elim (ℕ_discrete i 0) [
      | yes z ↦
          ap (λ k. stored n at1 src1 mem1 (at k)) z
          ∙ stored_beside n at1 src1 mem1 (at 0)
              (λ k low e. absurd (omega (arith, inj (1 + k) 0 (omega arith) (omega arith) e)))
          ∙ update_self mem (at 0) (src 0)
          ∙ ap src (sym z)
      | no nz ↦
          let e : 1 + (i - 1) ≡ i = omega arith in
          ap (λ k. stored n at1 src1 mem1 (at k)) (sym e)
          ∙ stored_at n at1 src1 mem1
              (λ j k hj hk h. omega (arith, inj (1 + j) (1 + k) (omega arith) (omega arith) h))
              (i - 1) (omega arith)
          ∙ ap src e
    ]

module _ (page : ℕ → ℕ) where
  -- The bytes from a user address on.
  abbrev pub user_bytes : (ℕ → ℕ) → ℕ → ℕ → ℕ
  user_bytes mem va i = mem (physical page (va + i))

  copyin_none :
      (k dst va : ℕ) (mem x : ℕ → ℕ) (len : ℕ)
      → len ≡ 0
      → copyin_from page k dst va len mem x ≡ (true, x)
  unfolding copyin_from
  copyin_none zero dst va mem x len z = refl
  copyin_none (suc k) dst va mem x len z = rw (eq→== len 0 z) refl

  put_none : (dst : ℕ) (f : ℕ → ℕ) (len : ℕ) (x : ℕ → ℕ) → len ≡ 0 → put_bytes dst f len x ≡ x
  put_none dst f len x z = fun_ext λ a. ground arith

  copyin_from-bytes :
      (k dst va len : ℕ) (mem x : ℕ → ℕ)
      → len ≤ k
      → va + len + page_size ≤ 2 ^ 64
      → ((i : ℕ) → i < len → HasPage page (va + i))
      → copyin_from page k dst va len mem x ≡ (true, put_bytes dst (user_bytes mem va) len x)
  unfolding copyin_from
  copyin_from-bytes zero dst va len mem x le room has =
      ap (λ y. (true, y)) (sym (put_none dst (user_bytes mem va) len x (omega arith)))
  copyin_from-bytes (suc k) dst va len mem x le room has = elim (ℕ_discrete len 0) [
    | yes z ↦
        rw (eq→== len 0 z) (ap (λ y. (true, y)) (sym (put_none dst (user_bytes mem va) len x z)))
    | no nz ↦
        let n = piece va len in
        let f = user_bytes mem va in
        let x1 = put_bytes dst f n x in
        let next = u64 (round_down va + page_size) in
        let here : HasPage page va = λ z. has_here page va len has nz z in
        rw (ne→== len 0 nz, ne→== (page (round_down va)) 0 here)
          (ap (copyin_from page k (dst + n) next (len - n) mem) (
              put_bytes_ext dst n (λ i. mem (page (round_down va) + (va - round_down va) + i)) f x
                (λ i lt. ap mem (in_page page va len i lt)))
            ∙ (elim (ℕ_discrete n len) [
              | yes e ↦
                  copyin_none k (dst + n) next mem x1 (len - n) (omega (arith, e))
                  ∙ ap (λ l. (true, put_bytes dst f l x)) e
              | no ne ↦
                  let some_bytes : 0 < n = piece_pos page va len nz in
                  let fewer : n ≤ len = piece_le page va len in
                  let at : next ≡ va + n = omega (arith, next_page page va len ne, room, fewer) in
                  ap (λ v. copyin_from page k (dst + n) v (len - n) mem x1) at
                  ∙ copyin_from-bytes k (dst + n) (va + n) (len - n) mem x1
                      (omega (arith, some_bytes, fewer, le)) (omega (arith, room, fewer))
                      (λ i lt.
                        let e : va + (n + i) ≡ va + n + i = omega arith in
                        subst (HasPage page) e (has (n + i) (omega (arith, lt, fewer))))
                  ∙ ap (λ y. (true, y))
                      (put_bytes_ext (dst + n) (len - n) (user_bytes mem (va + n)) (λ i. f (n + i))
                          x1
                          (λ i lt.
                            let e : va + n + i ≡ va + (n + i) = omega arith in
                            ap (λ a. mem (physical page a)) e)
                        ∙ put_bytes_join dst n len f x fewer)
            ]))
  ]

  -- `copyin` reads each byte at the physical address of its user address.
  pub copyin_lem :
      (dst va len : ℕ) (mem x : ℕ → ℕ)
      → va + len + page_size ≤ 2 ^ 64
      → ((i : ℕ) → i < len → HasPage page (va + i))
      → copyin page dst va len mem x ≡ (true, put_bytes dst (user_bytes mem va) len x)
  unfolding copyin
  copyin_lem dst va len mem x room has =
      copyin_from-bytes len dst va len mem x (omega arith) room has
