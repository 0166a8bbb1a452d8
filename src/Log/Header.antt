-- ===== src/Log/Header.antt =====
-- The header block of the log: what `write_head` puts there and `read_head` takes from it.
use os2_project.Base.{
  ℕ, zero, suc, ◌+◌, ◌*◌, ◌^◌, ◌≤◌, ◌<◌, ◌≡◌, ◌⊎◌, inl, refl, ap, sym, ◌∙◌, arith, ℕ_discrete,
  update, update_self, update-ne,
}
use os2_project.Raid.Types.{Block}
use os2_project.Raid.Superblock.{word_at, byte_of}
use os2_project.Log.{put_word, read_entries, write_entries}

pub word_of_put : (x : Block) (o v : ℕ) → v < 2 ^ 32 → word_at (put_word x o v) o ≡ v
word_of_put x o v h =
    let e0 : put_word x o v o ≡ byte_of v 0 = ground arith in
    let e1 : put_word x o v (o + 1) ≡ byte_of v 1 = ground arith in
    let e2 : put_word x o v (o + 2) ≡ byte_of v 2 = ground arith in
    let e3 : put_word x o v (o + 3) ≡ byte_of v 3 = ground arith in
    rw (e0, e1, e2, e3) (omega arith)

pub word_beside_put :
    (x : Block) (o p v : ℕ) → (p + 4 ≤ o) ⊎ (o + 4 ≤ p) → word_at (put_word x o v) p ≡ word_at x p
word_beside_put x o p v h =
    let e0 : put_word x o v p ≡ x p = ground arith in
    let e1 : put_word x o v (p + 1) ≡ x (p + 1) = ground arith in
    let e2 : put_word x o v (p + 2) ≡ x (p + 2) = ground arith in
    let e3 : put_word x o v (p + 3) ≡ x (p + 3) = ground arith in rw (e0, e1, e2, e3) refl

write_entries_before :
    (k i p : ℕ) (block : ℕ → ℕ) (x : Block)
    → p + 4 ≤ 4 + 4 * i
    → word_at (write_entries k i block x) p ≡ word_at x p
unfolding write_entries
write_entries_before zero i p block x h = refl
write_entries_before (suc k) i p block x h =
    write_entries_before k (i + 1) p block (put_word x (4 + 4 * i) (block i)) (omega arith)
    ∙ word_beside_put x (4 + 4 * i) p (block i) (inl (omega arith))

write_entries_at :
    (k i j : ℕ) (block : ℕ → ℕ) (x : Block)
    → i ≤ j
    → j < i + k
    → block j < 2 ^ 32
    → word_at (write_entries k i block x) (4 + 4 * j) ≡ block j
unfolding write_entries
write_entries_at zero i j block x low high small = absurd (omega arith)
write_entries_at (suc k) i j block x low high small = elim (ℕ_discrete j i) [
  | yes e ↦
      write_entries_before k (i + 1) (4 + 4 * j) block (put_word x (4 + 4 * i) (block i))
        (omega arith)
      ∙ ap (λ t. word_at (put_word x (4 + 4 * i) (block i)) (4 + 4 * t)) e
      ∙ word_of_put x (4 + 4 * i) (block i) (rw (sym e) small)
      ∙ ap block (sym e)
  | no ne ↦
      write_entries_at k (i + 1) j block (put_word x (4 + 4 * i) (block i)) (omega arith)
        (omega arith) small
]

-- What is written to the header block.
abbrev pub header : ℕ → (ℕ → ℕ) → Block → Block
header n block x = write_entries n 0 block (put_word x 0 n)

pub header_n : (n : ℕ) (block : ℕ → ℕ) (x : Block) → n < 2 ^ 32 → word_at (header n block x) 0 ≡ n
header_n n block x h =
    write_entries_before n 0 0 block (put_word x 0 n) (omega arith) ∙ word_of_put x 0 n h

pub header_block :
    (n j : ℕ) (block : ℕ → ℕ) (x : Block)
    → j < n
    → block j < 2 ^ 32
    → word_at (header n block x) (4 + 4 * j) ≡ block j
header_block n j block x lt small =
    write_entries_at n 0 j block (put_word x 0 n) (omega arith) (omega arith) small

read_entries_outside :
    (k i j : ℕ) (x : Block) (block : ℕ → ℕ) → j < i → read_entries k i x block j ≡ block j
unfolding read_entries
read_entries_outside zero i j x block h = refl
read_entries_outside (suc k) i j x block h =
    read_entries_outside k (i + 1) j x (update block i (word_at x (4 + 4 * i))) (omega arith)
    ∙ update-ne block i j (word_at x (4 + 4 * i)) (omega arith)

pub read_entries_lem :
    (k i j : ℕ) (x : Block) (block : ℕ → ℕ)
    → i ≤ j
    → j < i + k
    → read_entries k i x block j ≡ word_at x (4 + 4 * j)
unfolding read_entries
read_entries_lem zero i j x block low high = absurd (omega arith)
read_entries_lem (suc k) i j x block low high =
    let v = word_at x (4 + 4 * i) in
    elim (ℕ_discrete i j) [
      | yes e ↦
          read_entries_outside k (i + 1) j x (update block i v) (omega arith)
          ∙ ap (update block i v) (sym e)
          ∙ update_self block i v
          ∙ ap (λ t. word_at x (4 + 4 * t)) e
      | no ne ↦ read_entries_lem k (i + 1) j x (update block i v) (omega arith) (omega arith)
    ]
