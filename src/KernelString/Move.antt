-- ===== src/KernelString/Move.antt =====
-- kernel/string.c: filling and moving memory.
use os2_project.Base.{
  ℕ, zero, suc, ◌+◌, ◌-◌, ◌%◌, ◌≤◌, ◌<◌, ◌≡◌, ap, ◌∙◌, ◌⊎◌, inl, inr, ◌&&◌, if◌then◌else◌, ltb, leb,
  ◌==◌, update, arith, dec_lt, eq→==, ne→==, lt→ltb, le→ltb, ℕ_discrete,
}

-- The loop of `memset` from byte `i` on.
unfoldable pub memset_from : ℕ → ℕ → ℕ → ℕ → (ℕ → ℕ) → ℕ → ℕ
memset_from zero i dst c mem = mem
memset_from (suc n) i dst c mem = memset_from n (i + 1) dst c (update mem (dst + i) (c % 256))

unfoldable pub memset : ℕ → ℕ → ℕ → (ℕ → ℕ) → ℕ → ℕ
memset dst c n mem = memset_from n 0 dst c mem

-- while(n-- > 0) *d++ = *s++;
unfoldable pub copy_up : ℕ → ℕ → ℕ → (ℕ → ℕ) → ℕ → ℕ
copy_up zero d s mem = mem
copy_up (suc n) d s mem = copy_up n (d + 1) (s + 1) (update mem d (mem s))

-- while(n-- > 0) *--d = *--s;
unfoldable pub copy_down : ℕ → ℕ → ℕ → (ℕ → ℕ) → ℕ → ℕ
copy_down zero d s mem = mem
copy_down (suc n) d s mem = copy_down n (d - 1) (s - 1) (update mem (d - 1) (mem (s - 1)))

unfoldable pub memmove : ℕ → ℕ → ℕ → (ℕ → ℕ) → ℕ → ℕ
memmove dst src n mem =
    if n == 0
    then mem
    else if ltb src dst && ltb dst (src + n)
    then copy_down n (dst + n) (src + n) mem
    else copy_up n dst src mem

unfoldable pub memcpy : ℕ → ℕ → ℕ → (ℕ → ℕ) → ℕ → ℕ
memcpy dst src n mem = memmove dst src n mem

-- The memory with the `n` bytes from `src` on put from `dst` on, all of them as they were before.
abbrev pub moved : ℕ → ℕ → ℕ → (ℕ → ℕ) → ℕ → ℕ
moved dst src n mem p = if leb dst p && ltb p (dst + n) then mem (src + (p - dst)) else mem p

memset_from_lem :
    (n i dst c : ℕ) (mem : ℕ → ℕ) (p : ℕ)
    → memset_from n i dst c mem p
      ≡ (if leb (dst + i) p && ltb p (dst + i + n) then c % 256 else mem p)
unfolding memset_from
memset_from_lem zero i dst c mem p = ground arith
memset_from_lem (suc n) i dst c mem p =
    let mem' = update mem (dst + i) (c % 256) in
    memset_from_lem n (i + 1) dst c mem' p ∙ ground arith

-- `memset` fills `n` bytes with the low byte of `c`, and changes no other byte.
pub memset_lem :
    (dst c n : ℕ) (mem : ℕ → ℕ) (p : ℕ)
    → memset dst c n mem p ≡ (if leb dst p && ltb p (dst + n) then c % 256 else mem p)
unfolding memset
memset_lem dst c n mem p = memset_from_lem n 0 dst c mem p ∙ ground arith

copy_up-step :
    (n d s : ℕ) (mem : ℕ → ℕ) (p : ℕ)
    → (d ≤ s) ⊎ (s + suc n ≤ d)
    → moved (d + 1) (s + 1) n (update mem d (mem s)) p ≡ moved d s (suc n) mem p
copy_up-step n d s mem p h = elim (dec_lt d p) [
  | yes lt ↦
      let e : mem (s + 1 + (p - (d + 1))) ≡ mem (s + (p - d)) = ap mem (omega arith) in
      ground (arith, e, h)
  | no ge ↦ elim (ℕ_discrete d p) [
    | yes same ↦ let e : mem (s + (p - d)) ≡ mem s = ap mem (omega arith) in ground (arith, e)
    | no differ ↦ ground arith
  ]
]

copy_up_lem :
    (n d s : ℕ) (mem : ℕ → ℕ) (p : ℕ)
    → (d ≤ s) ⊎ (s + n ≤ d)
    → copy_up n d s mem p ≡ moved d s n mem p
unfolding copy_up
copy_up_lem zero d s mem p h = ground arith
copy_up_lem (suc n) d s mem p h =
    copy_up_lem n (d + 1) (s + 1) (update mem d (mem s)) p
      (elim h [ inl a ↦ inl (omega arith) | inr b ↦ inr (omega arith) ])
    ∙ copy_up-step n d s mem p h

copy_down-step :
    (n d s : ℕ) (mem : ℕ → ℕ) (p : ℕ)
    → s < d
    → moved d s n (update mem (d + n) (mem (s + n))) p ≡ moved d s (suc n) mem p
copy_down-step n d s mem p h = elim (ℕ_discrete (d + n) p) [
  | yes last ↦ let e : mem (s + (p - d)) ≡ mem (s + n) = ap mem (omega arith) in ground (arith, e)
  | no differ ↦ ground arith
]

copy_down_lem :
    (n d s : ℕ) (mem : ℕ → ℕ) (p : ℕ)
    → s < d
    → copy_down n (d + n) (s + n) mem p ≡ moved d s n mem p
unfolding copy_down
copy_down_lem zero d s mem p h = ground arith
copy_down_lem (suc n) d s mem p h =
    let mem' = update mem (d + n) (mem (s + n)) in
    let e : d + suc n - 1 ≡ d + n = omega arith in
    let f : s + suc n - 1 ≡ s + n = omega arith in
    rw (e, f) (copy_down_lem n d s mem' p h ∙ copy_down-step n d s mem p h)

-- `memmove` puts `n` bytes at their new place as they were before, also where the two ranges
-- overlap, and changes no other byte.
memmove_lem :
    (dst src n : ℕ) (mem : ℕ → ℕ) (p : ℕ) → memmove dst src n mem p ≡ moved dst src n mem p
unfolding memmove
memmove_lem dst src n mem p = elim (ℕ_discrete n 0) [
  | yes none_left ↦ rw (eq→== n 0 none_left) (ground arith)
  | no some_left ↦ elim (dec_lt src dst) [
    | yes below ↦ elim (dec_lt dst (src + n)) [
      | yes inside ↦
          rw (ne→== n 0 some_left, lt→ltb src dst below, lt→ltb dst (src + n) inside)
            (copy_down_lem n dst src mem p below)
      | no apart ↦
          rw (ne→== n 0 some_left, lt→ltb src dst below, le→ltb dst (src + n) (omega arith))
            (copy_up_lem n dst src mem p (inr (omega arith)))
    ]
    | no above ↦
        rw (ne→== n 0 some_left, le→ltb src dst (omega arith))
          (copy_up_lem n dst src mem p (inl (omega arith)))
  ]
]
