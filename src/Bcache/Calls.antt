-- ===== src/Bcache/Calls.antt =====
-- `bread`, `bwrite` and `brelse`, and the contents of the blocks as the cache shows them.
pub mod Replace
pub mod Read
pub mod Write
use os2_project.Base.{
  ℕ, suc, ◌+◌, ◌-◌, ◌^◌, ◌≤◌, ◌<◌, ◌≡◌, ◌≢◌, ◌⊎◌, inl, inr, refl, ap, sym, ◌∙◌, arith, Bool, true,
  false, ◌&&◌, Option, none, some, List, [], ◌∷◌, if◌then◌else◌, ◌==◌, eq→==, ne→==, ==_self,
  ℕ_discrete, Bool-cases, update, update_self, update-ne, fun_ext, u32,
}
use os2_project.Raid.Types.{Block}
use os2_project.Bcache.{Buf, Bcache, bget, bread, acquire, fill, find_cached, find_unused}

-- The cache with one buffer replaced.
abbrev pub with_buf : Bcache → ℕ → Buf → Bcache
with_buf c i y = record c { buf = update c.buf i y }

update_twice : (f : ℕ → Buf) (i : ℕ) (a b : Buf) → update (update f i a) i b ≡ update f i b
update_twice f i a b =
    fun_ext λ j. elim (Bool-cases (i == j)) [ inl e ↦ rw e refl | inr e ↦ rw e refl ]

pub with_buf_twice :
    (c : Bcache) (i : ℕ) (a b : Buf) → with_buf (with_buf c i a) i b ≡ with_buf c i b
with_buf_twice c i a b = ap (λ f. record c { buf = f }) (update_twice c.buf i a b)

module _ (c : Bcache) (i : ℕ) (y : Buf) where
  there : (with_buf c i y).buf i ≡ y
  there = update_self c.buf i y

  acquire_with :
      y.locked ≡ false
      → acquire i (with_buf c i y) ≡ some (tt, with_buf c i (record y { locked = true }))
  unfolding acquire
  acquire_with free = cc (there, free, with_buf_twice c i y (record y { locked = true }))

  fill_with :
      fill i (with_buf c i y)
      ≡ some (tt, with_buf c i (record y { bytes = c.disk y.blockno; valid = true }))
  fill_with =
      let z : Buf = record y { bytes = c.disk y.blockno } in
      let one : with_buf (with_buf c i y) i
            (record (update c.buf i y i) { bytes = c.disk (update c.buf i y i).blockno })
          ≡ with_buf c i z =
        ap (λ b. with_buf (with_buf c i y) i (record b { bytes = c.disk b.blockno })) there
        ∙ with_buf_twice c i y z in
      ap (λ d. some (tt, with_buf d i (record (d.buf i) { valid = true }))) one
      ∙ ap (λ b. some (tt, with_buf (with_buf c i z) i (record b { valid = true })))
          (update_self c.buf i z)
      ∙ ap (λ d. some (tt, d)) (with_buf_twice c i z (record z { valid = true }))

-- The buffer that `bget` gives, and the one that `bread` gives.
abbrev pub got : Buf → Buf
got b = record b { refcnt = u32 (b.refcnt + 1); locked = true }

abbrev pub fresh : Buf → ℕ → ℕ → Buf
fresh b dev blockno = record b {
  dev = dev;
  blockno = blockno;
  valid = false;
  refcnt = 1;
  locked = true;
}

abbrev pub filled : Bcache → Buf → Buf
filled c b = if b.valid then b else record b { bytes = c.disk b.blockno; valid = true }

module _ (dev blockno i : ℕ) (c : Bcache) where
  bget_cached :
      find_cached c.buf dev blockno c.order ≡ some i
      → (c.buf i).locked ≡ false
      → bget dev blockno c ≡ some (i, with_buf c i (got (c.buf i)))
  unfolding bget
  bget_cached found free =
      cc (found, acquire_with c i (record (c.buf i) { refcnt = u32 ((c.buf i).refcnt + 1) }) free)

  bget_unused :
      find_cached c.buf dev blockno c.order ≡ none
      → find_unused c.buf c.order ≡ some i
      → (c.buf i).locked ≡ false
      → bget dev blockno c ≡ some (i, with_buf c i (fresh (c.buf i) dev blockno))
  unfolding bget
  bget_unused missing found free = cc (
    missing,
    found,
    acquire_with c i (record (c.buf i) { dev = dev; blockno = blockno; valid = false; refcnt = 1 })
        free,
  )

  bread_got :
      (y : Buf)
      → bget dev blockno c ≡ some (i, with_buf c i y)
      → bread dev blockno c ≡ some (i, with_buf c i (filled c y))
  unfolding bread
  bread_got y run = elim (Bool-cases y.valid) [
    | inl valid ↦ cc (run, update_self c.buf i y, valid)
    | inr not_valid ↦ cc (run, update_self c.buf i y, not_valid, fill_with c i y)
  ]

  pub bread_cached :
      find_cached c.buf dev blockno c.order ≡ some i
      → (c.buf i).locked ≡ false
      → bread dev blockno c ≡ some (i, with_buf c i (filled c (got (c.buf i))))
  bread_cached found free = bread_got (got (c.buf i)) (bget_cached found free)

  pub bread_unused :
      find_cached c.buf dev blockno c.order ≡ none
      → find_unused c.buf c.order ≡ some i
      → (c.buf i).locked ≡ false
      → bread dev blockno c ≡ some (i, with_buf c i (filled c (fresh (c.buf i) dev blockno)))
  bread_unused missing found free =
      bread_got (fresh (c.buf i) dev blockno) (bget_unused missing found free)
