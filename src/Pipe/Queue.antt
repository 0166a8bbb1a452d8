-- ===== src/Pipe/Queue.antt =====
-- The bytes that wait in a pipe, as a list.
use os2_project.Base.{
  ℕ, zero, suc, ◌+◌, ◌-◌, ◌%◌, ◌^◌, ◌≤◌, ◌<◌, ◌≡◌, ◌≢◌, refl, ap, ap₂, ◌∙◌, arith, List, [], ◌∷◌,
  ◌++◌, update, update_self, update-ne, u32, Option, some,
}
use os2_project.Pipe.{Pipe, pipe_size, push, pop}

-- `k` bytes of the ring from position `r` on.
abbrev pub items : ℕ → ℕ → (ℕ → ℕ) → List ℕ
items zero r f = []
items (suc k) r f = f (r % pipe_size) ∷ items k (u32 (r + 1)) f

abbrev pub count : Pipe → ℕ
count pi = u32 (pi.nwrite + 2 ^ 32 - pi.nread)

abbrev pub contents : Pipe → List ℕ
contents pi = items (count pi) pi.nread pi.bytes

pub record IsValid (pi : Pipe) : Type 0 where
  pub read_word : pi.nread < 2 ^ 32
  pub write_word : pi.nwrite < 2 ^ 32
  pub fits : count pi ≤ pipe_size

word_same : (r : ℕ) → r % pipe_size ≡ u32 (r + 0) % pipe_size
word_same r = omega arith

word_next : (r k : ℕ) → u32 (r + suc k) ≡ u32 (u32 (r + 1) + k)
word_next r k = omega arith

-- A byte put right behind `k` others.
items_snoc :
    (k r ch : ℕ) (f : ℕ → ℕ)
    → k < pipe_size
    → items (suc k) r (update f (u32 (r + k) % pipe_size) ch) ≡ items k r f ++ (ch ∷ [])
items_snoc zero r ch f h =
    ap (λ x. x ∷ [])
      (ap (update f (u32 (r + 0) % pipe_size) ch) (word_same r)
        ∙ update_self f (u32 (r + 0) % pipe_size) ch)
items_snoc (suc k) r ch f h =
    ap₂ ◌∷◌ (update-ne f (u32 (r + suc k) % pipe_size) (r % pipe_size) ch (omega arith)) (
      ap (λ j. items (suc k) (u32 (r + 1)) (update f (j % pipe_size) ch)) (word_next r k)
      ∙ items_snoc k (u32 (r + 1)) ch f (omega arith))

-- There is room where `nwrite` is not `PIPESIZE` ahead.
pub room : (pi : Pipe) → IsValid pi → pi.nwrite ≢ u32 (pi.nread + pipe_size) → count pi < pipe_size
room pi v ne =
    let a : pi.nread < 2 ^ 32 = v.read_word in
    let b : pi.nwrite < 2 ^ 32 = v.write_word in
    let d : count pi ≤ pipe_size = v.fits in omega arith

pub full : (pi : Pipe) → IsValid pi → pi.nwrite ≡ u32 (pi.nread + pipe_size) → count pi ≡ pipe_size
full pi v eq =
    let a : pi.nread < 2 ^ 32 = v.read_word in
    let b : pi.nwrite < 2 ^ 32 = v.write_word in omega arith

count-push :
    (pi : Pipe) (ch : ℕ) → IsValid pi → count pi < pipe_size → count (push pi ch) ≡ suc (count pi)
count-push pi ch v h =
    let a : pi.nread < 2 ^ 32 = v.read_word in
    let b : pi.nwrite < 2 ^ 32 = v.write_word in omega arith

-- Where `nwrite` is.
write_place : (pi : Pipe) → IsValid pi → pi.nwrite ≡ u32 (pi.nread + count pi)
write_place pi v =
    let a : pi.nread < 2 ^ 32 = v.read_word in
    let b : pi.nwrite < 2 ^ 32 = v.write_word in omega arith

pub push-contents :
    (pi : Pipe) (ch : ℕ)
    → IsValid pi
    → count pi < pipe_size
    → contents (push pi ch) ≡ contents pi ++ (ch ∷ [])
push-contents pi ch v h =
    ap (λ k. items k pi.nread (push pi ch).bytes) (count-push pi ch v h)
    ∙ ap (λ j. items (suc (count pi)) pi.nread (update pi.bytes (j % pipe_size) ch))
        (write_place pi v)
    ∙ items_snoc (count pi) pi.nread ch pi.bytes h

pub push-IsValid : (pi : Pipe) (ch : ℕ) → IsValid pi → count pi < pipe_size → IsValid (push pi ch)
push-IsValid pi ch v h =
    let e : count (push pi ch) ≡ suc (count pi) = count-push pi ch v h in
    record { read_word = v.read_word; write_word = omega arith; fits = omega arith }

count-pop : (pi : Pipe) → IsValid pi → pi.nread ≢ pi.nwrite → count pi ≡ suc (count (pop pi))
count-pop pi v ne =
    let a : pi.nread < 2 ^ 32 = v.read_word in
    let b : pi.nwrite < 2 ^ 32 = v.write_word in omega arith

pub pop-contents :
    (pi : Pipe)
    → IsValid pi
    → pi.nread ≢ pi.nwrite
    → contents pi ≡ pi.bytes (pi.nread % pipe_size) ∷ contents (pop pi)
pop-contents pi v ne = ap (λ k. items k pi.nread pi.bytes) (count-pop pi v ne)

pub pop-IsValid : (pi : Pipe) → IsValid pi → pi.nread ≢ pi.nwrite → IsValid (pop pi)
pop-IsValid pi v ne =
    let e : count pi ≡ suc (count (pop pi)) = count-pop pi v ne in
    let d : count pi ≤ pipe_size = v.fits in
    record { read_word = omega arith; write_word = v.write_word; fits = omega arith }

pub empty : (pi : Pipe) → IsValid pi → pi.nread ≡ pi.nwrite → contents pi ≡ []
empty pi v eq =
    let a : pi.nread < 2 ^ 32 = v.read_word in
    let b : count pi ≡ 0 = omega arith in ap (λ k. items k pi.nread pi.bytes) b

abbrev pub length : List ℕ → ℕ
length [] = 0
length (x ∷ xs) = suc (length xs)

-- Bytes `i` on of a caller's buffer.
abbrev pub Copied : (ℕ → Option ℕ) → ℕ → List ℕ → Type 0
Copied copyin i [] = Unit
Copied copyin i (x ∷ xs) = (copyin i ≡ some x) × Copied copyin (i + 1) xs

pub snoc-append : (xs ys : List ℕ) (x : ℕ) → (xs ++ (x ∷ [])) ++ ys ≡ xs ++ (x ∷ ys)
snoc-append [] ys x = refl
snoc-append (z ∷ xs) ys x = ap (λ t. z ∷ t) (snoc-append xs ys x)
