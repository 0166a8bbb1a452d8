-- ===== src/Fs/Bits.antt =====
-- The bits of a byte under the operations of the free map.
use os2_project.Base.{
  ℕ, zero, suc, ◌-◌, ◌/◌, ◌%◌, ◌^◌, ◌<◌, ◌≡◌, refl, ap, ◌∙◌, arith, Bool, true, false, ◌&&◌, not,
  if◌then◌else◌, ◌==◌, ltb, bit_and, bit_or, update, ℕ_discrete, eq→==, ne→==,
}
use os2_project.Raid.Types.{Block}
use os2_project.Fs.{is_free, set_bit, clear_bit}

ltb→lt : (a b : ℕ) → ltb a b ≡ true → a < b
ltb→lt a b h = ground arith

abbrev pub has_bit : ℕ → ℕ → Bool
has_bit v k = v / 2 ^ k % 2 == 1

both : (a b : Bool) → (a && b) ≡ true → (a ≡ true) × (b ≡ true)
both true true h = (refl, refl)
both true false h = cc
both false b h = cc

-- A test that each number below a bound passes.
passes : (ℕ → Bool) → ℕ → Bool
passes check zero = true
passes check (suc top) = passes check top && check top

passes-check : (top v : ℕ) (check : ℕ → Bool) → v < top → passes check top ≡ true → check v ≡ true
unfolding passes
passes-check zero v check low ok = absurd (omega arith)
passes-check (suc top) v check low ok = elim (ℕ_discrete v top) [
  | yes at ↦ ap check at ∙ (both (passes check top) (check top) ok).1
  | no ne ↦ passes-check top v check (omega arith) (both (passes check top) (check top) ok).0
]

abbrev same : Bool → Bool → Bool
same true b = b
same false b = not b

same-eq : (a b : Bool) → same a b ≡ true → a ≡ b
same-eq true true h = refl
same-eq true false h = cc
same-eq false true h = cc
same-eq false false h = refl

-- For all bytes and two of their bits.
bytes_sound :
    (p : ℕ → ℕ → ℕ → Bool)
    → passes (λ v. passes (λ k. passes (p v k) 8) 8) 256 ≡ true
    → (v k j : ℕ) → v < 256
    → k < 8
    → j < 8
    → p v k j ≡ true
bytes_sound p table v k j hv hk hj = passes-check 8 j (p v k) hj (
    passes-check 8 k (λ k. passes (p v k) 8) hk
      (passes-check 256 v (λ v. passes (λ k. passes (p v k) 8) 8) hv table))

abbrev test : ℕ → ℕ → ℕ → Bool
test v k j = same (bit_and v (2 ^ k) == 0) (not (has_bit v k))

abbrev setting : ℕ → ℕ → ℕ → Bool
setting v k j = same (has_bit (bit_or v (2 ^ k)) j) (if k == j then true else has_bit v j)

abbrev clearing : ℕ → ℕ → ℕ → Bool
clearing v k j = same (has_bit (bit_and v (255 - 2 ^ k)) j) (if k == j then false else has_bit v j)

abbrev small : ℕ → ℕ → ℕ → Bool
small v k j = ltb (bit_or v (2 ^ k)) 256 && ltb (bit_and v (255 - 2 ^ k)) 256

test_table : passes (λ v. passes (λ k. passes (test v k) 8) 8) 256 ≡ true
unfolding passes
test_table = refl

setting_table : passes (λ v. passes (λ k. passes (setting v k) 8) 8) 256 ≡ true
unfolding passes
setting_table = refl

clearing_table : passes (λ v. passes (λ k. passes (clearing v k) 8) 8) 256 ≡ true
unfolding passes
clearing_table = refl

small_table : passes (λ v. passes (λ k. passes (small v k) 8) 8) 256 ≡ true
unfolding passes
small_table = refl

-- Bit `i` of a block of the map.
abbrev pub used : Block → ℕ → Bool
used x i = has_bit (x (i / 8)) (i % 8)

abbrev pub AllBytes : Block → Type 0
AllBytes x = (j : ℕ) → x j < 256

pub is_free-used : (x : Block) (i : ℕ) → AllBytes x → is_free x i ≡ not (used x i)
is_free-used x i h =
    same-eq (is_free x i) (not (used x i))
      (bytes_sound test test_table (x (i / 8)) (i % 8) 0 (h (i / 8)) (omega arith) (omega arith))

-- A change of one bit by a function of its byte.
module _ (op : ℕ → ℕ → ℕ) (r : Bool)
    (law : (v k j : ℕ)
      → v < 256
      → k < 8
      → j < 8
      → has_bit (op v k) j ≡ (if k == j then r else has_bit v j)) where
  used_put :
      (x : Block) (i j : ℕ)
      → AllBytes x
      → used (update x (i / 8) (op (x (i / 8)) (i % 8))) j ≡ (if i == j then r else used x j)
  used_put x i j h = elim (ℕ_discrete (i / 8) (j / 8)) [
    | yes e ↦
        let b : has_bit (op (x (i / 8)) (i % 8)) (j % 8)
            ≡ (if i % 8 == j % 8 then r else has_bit (x (i / 8)) (j % 8)) =
          law (x (i / 8)) (i % 8) (j % 8) (h (i / 8)) (omega arith) (omega arith) in
        rw (eq→== (i / 8) (j / 8) e) (elim (ℕ_discrete i j) [
          | yes f ↦ rw (eq→== i j f) (b ∙ rw (eq→== (i % 8) (j % 8) (ap (λ n. n % 8) f)) refl)
          | no ne ↦
              rw (ne→== i j ne)
                (b ∙ rw (ne→== (i % 8) (j % 8) (omega arith)) (ap (λ n. has_bit (x n) (j % 8)) e))
        ])
    | no ne ↦ rw (ne→== (i / 8) (j / 8) ne, ne→== i j (omega arith)) refl
  ]

pub set_bit-used :
    (x : Block) (i j : ℕ) → AllBytes x → used (set_bit x i) j ≡ (if i == j then true else used x j)
set_bit-used =
    used_put (λ v k. bit_or v (2 ^ k)) true
      (λ v k j hv hk hj.
        same-eq (has_bit (bit_or v (2 ^ k)) j) (if k == j then true else has_bit v j)
          (bytes_sound setting setting_table v k j hv hk hj))

pub clear_bit-used :
    (x : Block) (i j : ℕ)
    → AllBytes x
    → used (clear_bit x i) j ≡ (if i == j then false else used x j)
clear_bit-used =
    used_put (λ v k. bit_and v (255 - 2 ^ k)) false
      (λ v k j hv hk hj.
        same-eq (has_bit (bit_and v (255 - 2 ^ k)) j) (if k == j then false else has_bit v j)
          (bytes_sound clearing clearing_table v k j hv hk hj))

small_lem : (v k : ℕ) → v < 256 → k < 8 → (bit_or v (2 ^ k) < 256) × (bit_and v (255 - 2 ^ k) < 256)
small_lem v k hv hk =
    let (a, b) =
      both (ltb (bit_or v (2 ^ k)) 256) (ltb (bit_and v (255 - 2 ^ k)) 256)
        (bytes_sound small small_table v k 0 hv hk (omega arith)) in
    (ltb→lt (bit_or v (2 ^ k)) 256 a, ltb→lt (bit_and v (255 - 2 ^ k)) 256 b)

update-AllBytes : (x : Block) (i v : ℕ) → AllBytes x → v < 256 → AllBytes (update x i v)
update-AllBytes x i v h lt j = elim (ℕ_discrete i j) [
  | yes e ↦ rw (eq→== i j e) lt
  | no ne ↦ rw (ne→== i j ne) (h j)
]

pub set_bit-AllBytes : (x : Block) (i : ℕ) → AllBytes x → AllBytes (set_bit x i)
set_bit-AllBytes x i h =
    update-AllBytes x (i / 8) (bit_or (x (i / 8)) (2 ^ (i % 8))) h
      (small_lem (x (i / 8)) (i % 8) (h (i / 8)) (omega arith)).0

pub clear_bit-AllBytes : (x : Block) (i : ℕ) → AllBytes x → AllBytes (clear_bit x i)
clear_bit-AllBytes x i h =
    update-AllBytes x (i / 8) (bit_and (x (i / 8)) (255 - 2 ^ (i % 8))) h
      (small_lem (x (i / 8)) (i % 8) (h (i / 8)) (omega arith)).1
