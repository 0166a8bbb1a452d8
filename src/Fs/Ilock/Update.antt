-- ===== src/Fs/Ilock/Update.antt =====
-- `ilock` reads what `iupdate` has written.
use os2_project.Base.{
  ℕ, ◌+◌, ◌*◌, ◌%◌, ◌^◌, ◌≤◌, ◌<◌, ◌≡◌, ◌≢◌, inl, true, false, if◌then◌else◌, ltb, Option, some,
  refl, sym, ap, fun_ext, ◌∙◌, arith, dec_lt, ne→==, lt→ltb, le→ltb, update_self,
}
use os2_project.Raid.Types.{Block}
use os2_project.Raid.Superblock.{word_at}
use os2_project.Log.{put_word}
use os2_project.Log.Header.{word_of_put}
use os2_project.Fs.{
  Super, Inode, Fs, iblock, inodes_per_block, n_direct, put_half, put_inode, iupdate,
}
use os2_project.Fs.Rw.Finish.{updated, iupdate_lem}
use os2_project.Fs.Ilock.{
  half_at, load_inode, ilock, half_of_put, half_beside_half, half_beside_word, word_beside_addrs,
  half_beside_addrs, word_of_addrs,
}

-- The fields fit in those on the disk.
pub record IsSmall (ip : Inode) : Type 0 where
  pub type : ip.type < 65536
  pub major : ip.major < 65536
  pub minor : ip.minor < 65536
  pub nlink : ip.nlink < 65536
  pub size : ip.size < 2 ^ 32
  pub addrs : (j : ℕ) → j < n_direct + 1 → ip.addrs j < 2 ^ 32

-- The addresses that an inode has; the others are not part of it.
abbrev pub held : (ℕ → ℕ) → (ℕ → ℕ) → ℕ → ℕ
held addrs others j = if ltb j (n_direct + 1) then addrs j else others j

module _ (ip : Inode) (f : IsSmall ip) (o : ℕ) (x : Block) where
  abbrev x1 : Block
  x1 = put_half x o ip.type

  abbrev x2 : Block
  x2 = put_half x1 (o + 2) ip.major

  abbrev x3 : Block
  x3 = put_half x2 (o + 4) ip.minor

  abbrev x4 : Block
  x4 = put_half x3 (o + 6) ip.nlink

  abbrev x5 : Block
  x5 = put_word x4 (o + 8) ip.size

  -- The short words, which lie before the others.
  short : (p : ℕ) → p + 2 ≤ o + 8 → half_at (put_inode ip o x) p ≡ half_at x4 p
  unfolding put_inode
  short p le =
      half_beside_addrs (n_direct + 1) 0 ip.addrs o x5 p (omega arith)
      ∙ half_beside_word x4 (o + 8) p ip.size le

  type_at : half_at (put_inode ip o x) o ≡ ip.type
  type_at =
      short o (omega arith)
      ∙ half_beside_half x3 (o + 6) o ip.nlink (inl (omega arith))
      ∙ half_beside_half x2 (o + 4) o ip.minor (inl (omega arith))
      ∙ half_beside_half x1 (o + 2) o ip.major (inl (omega arith))
      ∙ half_of_put x o ip.type f.type

  major_at : half_at (put_inode ip o x) (o + 2) ≡ ip.major
  major_at =
      short (o + 2) (omega arith)
      ∙ half_beside_half x3 (o + 6) (o + 2) ip.nlink (inl (omega arith))
      ∙ half_beside_half x2 (o + 4) (o + 2) ip.minor (inl (omega arith))
      ∙ half_of_put x1 (o + 2) ip.major f.major

  minor_at : half_at (put_inode ip o x) (o + 4) ≡ ip.minor
  minor_at =
      short (o + 4) (omega arith)
      ∙ half_beside_half x3 (o + 6) (o + 4) ip.nlink (inl (omega arith))
      ∙ half_of_put x2 (o + 4) ip.minor f.minor

  nlink_at : half_at (put_inode ip o x) (o + 6) ≡ ip.nlink
  nlink_at = short (o + 6) (omega arith) ∙ half_of_put x3 (o + 6) ip.nlink f.nlink

  size_at : word_at (put_inode ip o x) (o + 8) ≡ ip.size
  unfolding put_inode
  size_at =
      word_beside_addrs (n_direct + 1) 0 ip.addrs o x5 (o + 8) (omega arith)
      ∙ word_of_put x4 (o + 8) ip.size f.size

  addrs_at :
      (addrs : ℕ → ℕ)
      → held (λ j. word_at (put_inode ip o x) (o + 12 + 4 * j)) addrs ≡ held ip.addrs addrs
  unfolding put_inode
  addrs_at addrs = fun_ext λ j. elim (dec_lt j (n_direct + 1)) [
    | yes lt ↦
        rw (lt→ltb j (n_direct + 1) lt) (
          word_of_addrs (n_direct + 1) 0 ip.addrs o x5 j (omega arith) (omega arith) (f.addrs j lt))
    | no far ↦ rw (le→ltb j (n_direct + 1) (omega arith)) refl
  ]

  -- The inode `jp` with the fields given.
  abbrev pub filled : Inode → ℕ → ℕ → ℕ → ℕ → ℕ → (ℕ → ℕ) → Inode
  filled jp type major minor nlink size addrs = record jp {
    type = type;
    major = major;
    minor = minor;
    nlink = nlink;
    size = size;
    addrs = addrs;
    valid = true;
  }

  pub load-put :
      (jp : Inode)
      → load_inode jp o (put_inode ip o x)
        ≡ filled jp ip.type ip.major ip.minor ip.nlink ip.size (held ip.addrs jp.addrs)
  load-put jp =
      let y = put_inode ip o x in
      let a = held (λ j. word_at y (o + 12 + 4 * j)) jp.addrs in
      ap
        (λ t.
          filled jp t (half_at y (o + 2)) (half_at y (o + 4)) (half_at y (o + 6))
            (word_at y (o + 8)) a)
        type_at
      ∙ ap (λ t. filled jp ip.type t (half_at y (o + 4)) (half_at y (o + 6)) (word_at y (o + 8)) a)
          major_at
      ∙ ap (λ t. filled jp ip.type ip.major t (half_at y (o + 6)) (word_at y (o + 8)) a) minor_at
      ∙ ap (λ t. filled jp ip.type ip.major ip.minor t (word_at y (o + 8)) a) nlink_at
      ∙ ap (λ t. filled jp ip.type ip.major ip.minor ip.nlink t a) size_at
      ∙ ap (filled jp ip.type ip.major ip.minor ip.nlink ip.size) (addrs_at jp.addrs)

module _ (sb : Super) where
  -- The loading of an inode whose on-disk copy `iupdate` has written.
  loads :
      (t : Fs) (jp kp : Inode)
      → jp.ref ≢ 0
      → jp.locked ≡ false
      → jp.valid ≡ false
      → load_inode
          (record jp { locked = true })
          (jp.inum % inodes_per_block * 64)
          (t.cache (iblock sb jp.inum))
        ≡ kp
      → kp.type ≢ 0
      → ilock sb (record t { inode = jp }) ≡ some (tt, record t { inode = kp })
  unfolding ilock
  loads t jp kp used free invalid e typed =
      let got =
        load_inode (record jp { locked = true }) (jp.inum % inodes_per_block * 64)
          (t.cache (iblock sb jp.inum)) in
      let typed' : got.type ≢ 0 = λ z. typed (sym (ap (λ (ip : Inode). ip.type) e) ∙ z) in
      rw (ne→== jp.ref 0 used, free, invalid, ne→== got.type 0 typed')
        (ap {B = Option (Unit {0} × Fs)} (λ kp. some (tt, record t { inode = kp })) e)

  -- Where the fields of an inode fit in those on the disk and its type is not 0: `iupdate` returns,
  -- and an `ilock` behind it of the same inode on the same device, with a reference and a free lock
  -- but not yet read into memory, returns with the lock and all the fields and addresses that were
  -- written.
  pub ilock-iupdate :
      (s : Fs) (jp : Inode)
      → IsSmall s.inode
      → s.inode.type ≢ 0
      → jp.inum ≡ s.inode.inum
      → jp.dev ≡ s.inode.dev
      → jp.ref ≢ 0
      → jp.locked ≡ false
      → jp.valid ≡ false
      → (s' : Fs) × (iupdate sb s ≡ some (tt, s'))
        × (ilock sb (record s' { inode = jp })
            ≡ some (
              tt,
              record s' {
                inode = record jp {
                  locked = true;
                  valid = true;
                  type = s.inode.type;
                  major = s.inode.major;
                  minor = s.inode.minor;
                  nlink = s.inode.nlink;
                  size = s.inode.size;
                  addrs = held s.inode.addrs jp.addrs;
                };
              },
            ))
  ilock-iupdate s jp f typed same device used free invalid =
      let ib = iblock sb s.inode.inum in
      let o = s.inode.inum % inodes_per_block * 64 in
      let x = s.cache ib in
      let y = put_inode s.inode o x in
      let lp : Inode = record jp { locked = true } in
      let t = updated sb s in
      (
        t,
        iupdate_lem sb s,
        loads t jp
            (filled s.inode f o x lp s.inode.type s.inode.major s.inode.minor s.inode.nlink
              s.inode.size (held s.inode.addrs jp.addrs))
            used free invalid
            (ap (λ n. load_inode lp (n % inodes_per_block * 64) (t.cache (iblock sb n))) same
              ∙ ap (load_inode lp o) (update_self s.cache ib y)
              ∙ load-put s.inode f o x lp)
            typed,
      )
