-- ===== src/KernelString/Copy.antt =====
-- kernel/string.c: copying a text into a room of a given size, and its length.
use os2_project.Base.{
  ℕ, zero, suc, ◌+◌, ◌-◌, ◌^◌, ◌<◌, ◌≤◌, ◌≡◌, ◌≢◌, ◌⊎◌, inl, inr, refl, sym, ap, ◌∙◌, arith, Option,
  none, some, if◌then◌else◌, leb, lt→leb, ◌==◌, ◌||◌, update, update_self, update-ne, ℕ_discrete,
  eq→==, ne→==,
}

-- The loop of `safestrcpy` with `k` rounds left at most, and the byte put behind it.
unfoldable pub safestrcpy_from : ℕ → ℕ → ℕ → (ℕ → ℕ) → ℕ → ℕ
safestrcpy_from zero s t mem = update mem s 0
safestrcpy_from (suc k) s t mem =
    let mem' = update mem s (mem t) in
    let rest = safestrcpy_from k (s + 1) (t + 1) mem' in
    if mem t == 0 then update mem' (s + 1) 0 else rest

-- `safestrcpy` on the memory, with the pattern of `n`.
unfoldable pub safestrcpy : ℕ → ℕ → ℕ → (ℕ → ℕ) → ℕ → ℕ
safestrcpy s t n mem = if n == 0 || leb (2 ^ 31) n then mem else safestrcpy_from (n - 1) s t mem

-- The loop of `strlen` from byte `i` on, or `none` where it goes on for more than `k` rounds.
unfoldable pub strlen_from : ℕ → ℕ → (ℕ → ℕ) → ℕ → Option ℕ
strlen_from zero i mem s = none
strlen_from (suc k) i mem s =
    let rest = strlen_from k (i + 1) mem s in if mem (s + i) == 0 then some i else rest

unfoldable pub strlen : ℕ → (ℕ → ℕ) → ℕ → Option ℕ
strlen k mem s = strlen_from k 0 mem s

-- What the memory has after `m` bytes of a text have been copied in the room of `k` + 1.
record Copied (k s t : ℕ) (mem mem' : ℕ → ℕ) : Type 0 where
  m : ℕ
  short : m ≤ k
  bytes : (i : ℕ) → i < m → mem' (s + i) ≡ mem (t + i)
  full : (i : ℕ) → i < m → mem (t + i) ≢ 0
  ended : mem' (s + m) ≡ 0
  all : (m ≡ k) ⊎ (mem (t + m) ≡ 0)
  outside : (p : ℕ) → (p < s) ⊎ (s + k < p) → mem' p ≡ mem p

below-suc :
    (P : ℕ → Type 0) (m : ℕ) → P 0 → ((i : ℕ) → i < m → P (suc i)) → (i : ℕ) → i < suc m → P i
below-suc P m here later zero lt = here
below-suc P m here later (suc i) lt = later i (omega arith)

add_next : (s i : ℕ) → s + suc i ≡ s + 1 + i
add_next s i = omega arith

safestrcpy_from_lem :
    (k s t : ℕ) (mem : ℕ → ℕ)
    → (t + k < s) ⊎ (s + k < t)
    → Copied k s t mem (safestrcpy_from k s t mem)
unfolding safestrcpy_from
safestrcpy_from_lem zero s t mem apart =
    let here : s + 0 ≡ s = omega arith in
    record {
      m = 0;
      short = omega arith;
      bytes = λ i lt. absurd (omega arith);
      full = λ i lt. absurd (omega arith);
      ended = ap (update mem s 0) here ∙ update_self mem s 0;
      all = inl refl;
      outside = λ p out. update-ne mem s p 0 (ground arith);
    }
safestrcpy_from_lem (suc k) s t mem apart =
    let mem' = update mem s (mem t) in
    let s0 : s + 0 ≡ s = omega arith in
    let t0 : t + 0 ≡ t = omega arith in
    elim (ℕ_discrete (mem t) 0) [
      | yes z ↦ rw (eq→== (mem t) 0 z) (record {
        m = 0;
        short = omega arith;
        bytes = λ i lt. absurd (omega arith);
        full = λ i lt. absurd (omega arith);
        ended =
            ap (update mem' (s + 1) 0) s0
            ∙ update-ne mem' (s + 1) s 0 (omega arith)
            ∙ update_self mem s (mem t)
            ∙ z;
        all = inr (ap mem t0 ∙ z);
        outside = λ p out.
            update-ne mem' (s + 1) p 0 (ground arith) ∙ update-ne mem s p (mem t) (ground arith);
      })
      | no nz ↦
          let c = safestrcpy_from_lem k (s + 1) (t + 1) mem' (ground arith) in
          let after = safestrcpy_from k (s + 1) (t + 1) mem' in
          let same : (i : ℕ) → i ≤ k → mem' (t + 1 + i) ≡ mem (t + 1 + i) =
            λ i le. update-ne mem s (t + 1 + i) (mem t) (ground arith) in
          rw (ne→== (mem t) 0 nz) (record {
            m = suc c.m;
            short = omega (arith, c.short);
            bytes =
                below-suc (λ i. after (s + i) ≡ mem (t + i)) c.m
                  (ap after s0
                    ∙ c.outside s (ground arith)
                    ∙ update_self mem s (mem t)
                    ∙ sym (ap mem t0))
                  (λ i lt.
                    ap after (add_next s i)
                    ∙ c.bytes i lt
                    ∙ same i (omega (arith, c.short))
                    ∙ sym (ap mem (add_next t i)));
            full =
                below-suc (λ i. mem (t + i) ≢ 0) c.m (λ z. nz (sym (ap mem t0) ∙ z))
                  (λ i lt z.
                    c.full i lt
                      (same i (omega (arith, c.short)) ∙ sym (ap mem (add_next t i)) ∙ z));
            ended = ap after (add_next s c.m) ∙ c.ended;
            all = elim c.all [
              | inl e ↦ inl (ap suc e)
              | inr z ↦ inr (ap mem (add_next t c.m) ∙ sym (same c.m c.short) ∙ z)
            ];
            outside =
                λ p out. c.outside p (ground arith) ∙ update-ne mem s p (mem t) (ground arith);
          })
    ]

strlen_from_lem :
    (k i : ℕ) (mem : ℕ → ℕ) (s j : ℕ)
    → i ≤ j
    → j < i + k
    → mem (s + j) ≡ 0
    → ((h : ℕ) → i ≤ h → h < j → mem (s + h) ≢ 0)
    → strlen_from k i mem s ≡ some j
unfolding strlen_from
strlen_from_lem zero i mem s j low high z before = absurd (omega arith)
strlen_from_lem (suc k) i mem s j low high z before = elim (ℕ_discrete i j) [
  | yes e ↦ rw (eq→== (mem (s + i)) 0 (ap (λ h. mem (s + h)) e ∙ z)) (ap some e)
  | no ne ↦ rw (ne→== (mem (s + i)) 0 (before i (omega arith) (omega arith))) (
      strlen_from_lem k (i + 1) mem s j (omega arith) (omega arith) z
        (λ h l g. before h (omega arith) g))
]

-- A text in a room of `n` bytes: `m` bytes of the source, all of it or as many as fit, and a 0.
pub record Held (s t n : ℕ) (mem mem' : ℕ → ℕ) (m : ℕ) : Type 0 where
  pub length : (k : ℕ) → m < k → strlen k mem' s ≡ some m
  pub short : m < n
  pub bytes : (i : ℕ) → i < m → mem' (s + i) ≡ mem (t + i)
  pub all : (m + 1 ≡ n) ⊎ (mem (t + m) ≡ 0)
  pub outside : (p : ℕ) → (p < s) ⊎ (s + n ≤ p) → mem' p ≡ mem p

-- `safestrcpy` into a room of `n` bytes, n > 0, that does not meet the first `n` of the source
-- leaves a text there whose length `strlen` finds, below `n`: the bytes of the source up to its 0,
-- or as many as fit. No byte outside the room changes.
safestrcpy_lem :
    (s t n : ℕ) (mem : ℕ → ℕ)
    → 0 < n
    → n < 2 ^ 31
    → (t + n ≤ s) ⊎ (s + n ≤ t)
    → (m : ℕ) × Held s t n mem (safestrcpy s t n mem) m
unfolding safestrcpy strlen
safestrcpy_lem s t n mem positive small apart =
    let c = safestrcpy_from_lem (n - 1) s t mem (ground arith) in
    rw (ne→== n 0 (omega arith), lt→leb n (2 ^ 31) small)
      (
        c.m,
        record {
          length = λ k lt.
              strlen_from_lem k 0 (safestrcpy_from (n - 1) s t mem) s c.m (omega arith)
                (omega arith) c.ended (λ h l g z. c.full h g (sym (c.bytes h g) ∙ z));
          short = omega (arith, c.short);
          bytes = c.bytes;
          all = elim c.all [ inl e ↦ inl (omega (arith, e)) | inr z ↦ inr z ];
          outside = λ p out. c.outside p (ground arith);
        },
      )
