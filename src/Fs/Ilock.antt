-- ===== src/Fs/Ilock.antt =====
-- `ilock` of kernel/fs.c: the inode read from its block.
pub mod Update
use os2_project.Base.{
  ℕ, zero, suc, ◌+◌, ◌-◌, ◌*◌, ◌/◌, ◌%◌, ◌^◌, ◌≤◌, ◌<◌, ◌≡◌, ◌≢◌, ◌⊎◌, inl, inr, Bool, true, false,
  ◌&&◌, if◌then◌else◌, ltb, leb, ◌==◌, Option, some, none, refl, sym, ap, subst, ◌∙◌, arith,
  ℕ_discrete, dec_lt, eq→==, ne→==, lt→ltb,
}
use os2_project.Raid.Types.{Block}
use os2_project.Raid.Superblock.{word_at, byte_of}
use os2_project.Log.{put_word}
use os2_project.Log.Header.{word_of_put, word_beside_put}
use os2_project.Fs.{
  Super, Inode, Fs, M, pure, ◌>>=◌, ◌>>◌, panic, get_inode, set_inode, bread, iblock,
  inodes_per_block, n_direct, put_half, put_addrs, put_inode,
}

abbrev pub half_at : Block → ℕ → ℕ
half_at x o = x o + 256 * x (o + 1)

-- The fields of the on-disk inode at offset `o` of its block.
abbrev pub load_inode : Inode → ℕ → Block → Inode
load_inode ip o x = record ip {
  type = half_at x o;
  major = half_at x (o + 2);
  minor = half_at x (o + 4);
  nlink = half_at x (o + 6);
  size = word_at x (o + 8);
  addrs = λ j. if ltb j (n_direct + 1) then word_at x (o + 12 + 4 * j) else ip.addrs j;
  valid = true;
}

module _ (sb : Super) where
  -- `ilock`; `acquiresleep` waits for ever on a lock that no other process will release, which is
  -- `none` too. There is one device.
  unfoldable pub ilock : M (Unit {0})
  ilock = do
    ip ← get_inode
    if ip.ref == 0 then panic else if ip.locked then panic else (do
      set_inode (record ip { locked = true })
      if ip.valid then pure tt else (do
        x ← bread (iblock sb ip.inum)
        let jp = load_inode (record ip { locked = true }) (ip.inum % inodes_per_block * 64) x
        set_inode jp
        if jp.type == 0 then panic else pure tt))

pub half_of_put : (x : Block) (o v : ℕ) → v < 65536 → half_at (put_half x o v) o ≡ v
half_of_put x o v lt = ground arith

pub half_beside_half :
    (x : Block) (o p v : ℕ) → (p + 2 ≤ o) ⊎ (o + 2 ≤ p) → half_at (put_half x o v) p ≡ half_at x p
half_beside_half x o p v out = ground arith

pub half_beside_word :
    (x : Block) (o p v : ℕ) → p + 2 ≤ o → half_at (put_word x o v) p ≡ half_at x p
half_beside_word x o p v out = ground arith

pub word_beside_addrs :
    (k j : ℕ) (addrs : ℕ → ℕ) (o : ℕ) (x : Block) (p : ℕ)
    → p + 4 ≤ o + 12 + 4 * j
    → word_at (put_addrs k j addrs o x) p ≡ word_at x p
unfolding put_addrs
word_beside_addrs zero j addrs o x p le = refl
word_beside_addrs (suc k) j addrs o x p le =
    word_beside_addrs k (j + 1) addrs o (put_word x (o + 12 + 4 * j) (addrs j)) p (omega arith)
    ∙ word_beside_put x (o + 12 + 4 * j) p (addrs j) (inl le)

pub half_beside_addrs :
    (k j : ℕ) (addrs : ℕ → ℕ) (o : ℕ) (x : Block) (p : ℕ)
    → p + 2 ≤ o + 12 + 4 * j
    → half_at (put_addrs k j addrs o x) p ≡ half_at x p
unfolding put_addrs
half_beside_addrs zero j addrs o x p le = refl
half_beside_addrs (suc k) j addrs o x p le =
    half_beside_addrs k (j + 1) addrs o (put_word x (o + 12 + 4 * j) (addrs j)) p (omega arith)
    ∙ half_beside_word x (o + 12 + 4 * j) p (addrs j) le

pub word_of_addrs :
    (k j : ℕ) (addrs : ℕ → ℕ) (o : ℕ) (x : Block) (l : ℕ)
    → j ≤ l
    → l < j + k
    → addrs l < 2 ^ 32
    → word_at (put_addrs k j addrs o x) (o + 12 + 4 * l) ≡ addrs l
unfolding put_addrs
word_of_addrs zero j addrs o x l low high lt = absurd (omega arith)
word_of_addrs (suc k) j addrs o x l low high lt = elim (ℕ_discrete l j) [
  | yes at ↦
      let y = put_word x (o + 12 + 4 * j) (addrs j) in
      word_beside_addrs k (j + 1) addrs o y (o + 12 + 4 * l) (omega arith)
      ∙ ap (λ l. word_at y (o + 12 + 4 * l)) at
      ∙ word_of_put x (o + 12 + 4 * j) (addrs j) (subst (λ l. addrs l < 2 ^ 32) at lt)
      ∙ ap addrs (sym at)
  | no ne ↦
      word_of_addrs k (j + 1) addrs o (put_word x (o + 12 + 4 * j) (addrs j)) l (omega arith)
        (omega arith) lt
]
