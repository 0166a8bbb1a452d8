-- ===== src/Fs/Rw/Finish.antt =====
-- `writei` as a whole: the size, and the inode on its block.
use os2_project.Base.{
  ℕ, ◌+◌, ◌-◌, ◌*◌, ◌/◌, ◌%◌, ◌≤◌, ◌<◌, ◌≡◌, ◌≢◌, true, some, if◌then◌else◌, ltb, inl, inr, refl,
  sym, ap, ◌∙◌, arith, update, update_self, update-ne, ℕ_discrete, dec_lt, lt→ltb, le→ltb,
}
use os2_project.Raid.Types.{Block}
use os2_project.UserCopy.{put_bytes}
use os2_project.Fs.{
  Super, Inode, Fs, pure, iblock, put_inode, inodes_per_block, iupdate, n_direct, block_size,
  max_file,
}
use os2_project.Fs.Alloc.{map_end, in_use, IsValid, written, set_buf-log_write}
use os2_project.Fs.Map.{with_addrs, ref, n_refs, slot, byte_at, Beside, IsFile}
use os2_project.Fs.Rw.Read.{IsWhole}
use os2_project.Fs.Rw.Put.{slot-lt, put-IsValid, put-IsFile, put-ref, put-byte, put-in_use}
use os2_project.Fs.Rw.Wrote.{Wrote}

abbrev pub with_size : Fs → ℕ → Fs
with_size s n = record s { inode = record s.inode { size = n } }

module _ (sb : Super) where
  -- The block of the inode, which lies before the map and behind block 0.
  pub record HasInode (s : Fs) : Type 0 where
    pub start : 0 < sb.inodestart
    pub before : iblock sb s.inode.inum < sb.bmapstart
    pub within : iblock sb s.inode.inum < sb.size

  -- The inode put on its block.
  abbrev pub on_block : Inode → Block → Block
  on_block ip x = put_inode ip (ip.inum % inodes_per_block * 64) x

  abbrev pub updated : Fs → Fs
  updated s =
      written s (iblock sb s.inode.inum) (on_block s.inode (s.cache (iblock sb s.inode.inum)))

  pub iupdate_lem : (s : Fs) → iupdate sb s ≡ some (tt, updated s)
  unfolding iupdate
  iupdate_lem s =
      set_buf-log_write s (iblock sb s.inode.inum)
        (on_block s.inode (s.cache (iblock sb s.inode.inum))) (pure tt)

  -- The file behind `writei` with `m` bytes written.
  pub record Written (s s' : Fs) (off m : ℕ) (f : ℕ → ℕ) : Type 0 where
    pub valid : IsValid sb s'
    pub file : IsFile sb s'
    pub size : s'.inode.size ≡ (if ltb s.inode.size (off + m) then off + m else s.inode.size)
    pub bytes : (i : ℕ) → i < max_file * block_size → byte_at s' i ≡ put_bytes off f m (byte_at s) i
    pub whole : IsWhole s → IsWhole s'
    pub inode : s'.inode ≡ record s.inode { addrs = s'.inode.addrs; size = s'.inode.size }
    pub on_disk :
        s'.saved (iblock sb s.inode.inum) ≡ on_block s'.inode (s.cache (iblock sb s.inode.inum))
    pub others :
        (b : ℕ)
        → map_end sb < b
        → b < sb.size
        → in_use sb s b ≡ true
        → ((k : ℕ) → k < n_refs → ref s k ≢ b)
        → s'.cache b ≡ s.cache b
    pub mem : s'.mem ≡ s.mem

  module _ (s s1 : Fs) (off m : ℕ) (f : ℕ → ℕ) (v : IsValid sb s) (fl : IsFile sb s)
      (h : HasInode s) (g : Wrote sb s s1 off m f) where
    abbrev new_size : ℕ
    new_size = if ltb s.inode.size (off + m) then off + m else s.inode.size

    abbrev pub sized : Fs
    sized = with_size s1 new_size

    abbrev pub finished : Fs
    finished = updated sized

    same_inum : s1.inode.inum ≡ s.inode.inum
    same_inum = ap (λ ip. ip.inum) g.shape

    before : Beside sb (iblock sb s1.inode.inum)
    before = inl (omega (arith, h.before, same_inum))

    sized-IsValid : IsValid sb sized
    sized-IsValid = record { map = g.valid.map; meta = g.valid.meta; saved = g.valid.saved }

    sized-IsFile : IsFile sb sized
    sized-IsFile = record { distinct = g.file.distinct; owned = g.file.owned }

    abbrev new_block : Block
    new_block = on_block sized.inode (s1.cache (iblock sb s1.inode.inum))

    apart : (k : ℕ) → k < n_refs → ref s1 k ≢ 0 → iblock sb s1.inode.inum ≢ ref s1 k
    apart k lt nz e =
        let (behind, _) = g.file.owned k lt nz in
        absurd (omega (arith, h.before, same_inum, e, behind.0))

    apart_indirect :
        sized.inode.addrs n_direct ≢ 0 → iblock sb s1.inode.inum ≢ sized.inode.addrs n_direct
    apart_indirect = apart n_direct (omega arith)

    refs : (k : ℕ) → ref finished k ≡ ref s1 k
    refs =
        put-ref sb sized sized-IsValid sized-IsFile (iblock sb s1.inode.inum) new_block before
          apart_indirect

    -- The block of the inode is as it was before.
    untouched : s1.cache (iblock sb s.inode.inum) ≡ s.cache (iblock sb s.inode.inum)
    untouched =
        (g.others (iblock sb s.inode.inum) h.within
          (v.meta (iblock sb s.inode.inum) (omega (arith, h.before)) h.within)
          (λ k lt e. absurd (is_data k lt e)) (inl h.before)).0
      where
        is_data : (k : ℕ) → k < n_refs → ref s k ≡ iblock sb s.inode.inum → ⊥
        is_data k lt e = elim (ℕ_discrete (ref s k) 0) [
          | yes z ↦ omega (arith, h.start, e, z)
          | no nz ↦ let (behind, _) = fl.owned k lt nz in omega (arith, h.before, e, behind.0)
        ]

    finished-byte :
        (i : ℕ) → i < max_file * block_size → byte_at finished i ≡ put_bytes off f m (byte_at s) i
    finished-byte i lt =
        put-byte sb sized sized-IsValid sized-IsFile (iblock sb s1.inode.inum) new_block before
          apart_indirect i (apart (slot (i / block_size)) (slot-lt (i / block_size) (omega arith)))
        ∙ g.bytes i lt

    finished-IsWhole :
        off ≤ s.inode.size → off + m ≤ max_file * block_size → IsWhole s → IsWhole finished
    finished-IsWhole start room w = record {
      small = elim (dec_lt s.inode.size (off + m)) [
        | yes lt ↦ rw (lt→ltb s.inode.size (off + m) lt) room
        | no le ↦ rw (le→ltb s.inode.size (off + m) (omega arith)) w.small
      ];
      blocks = λ bn lt z. elim (dec_lt (bn * block_size) s.inode.size) [
        | yes old ↦
            let nz = w.blocks bn old in
            absurd (
              nz (
                sym (g.keeps (slot bn) (slot-lt bn (omega (arith, w.small, old))) nz)
                ∙ sym (refs (slot bn))
                ∙ z))
        | no new ↦
            let inside : bn * block_size < off + m = elim (dec_lt s.inode.size (off + m)) [
              | yes h ↦ rw (lt→ltb s.inode.size (off + m) h) at lt
              | no h ↦ absurd (new (rw (le→ltb s.inode.size (off + m) (omega arith)) at lt))
            ] in
            let at : (off + (bn * block_size - off)) / block_size ≡ bn =
              omega (arith, new, start) in
            g.mapped (bn * block_size - off) (omega (arith, inside, new, start))
              (ap (λ q. ref s1 (slot q)) at ∙ sym (refs (slot bn)) ∙ z)
      ];
    }

    same_block : iblock sb s1.inode.inum ≡ iblock sb s.inode.inum
    same_block = ap (iblock sb) same_inum

    resized :
        (ip jp : Inode) (addrs : ℕ → ℕ) (z : ℕ)
        → ip ≡ with_addrs jp addrs
        → (record ip { size = z }) ≡ (record jp { addrs = addrs; size = z })
    resized ip jp addrs z e = ap (λ (ip : Inode). (record ip { size = z })) e

    pub finished-Written :
        off ≤ s.inode.size → off + m ≤ max_file * block_size → Written s finished off m f
    finished-Written start room = record {
      valid =
          put-IsValid sb sized sized-IsValid sized-IsFile (iblock sb s1.inode.inum) new_block
            before;
      file =
          put-IsFile sb sized sized-IsValid sized-IsFile (iblock sb s1.inode.inum) new_block before
            apart_indirect;
      size = refl;
      bytes = finished-byte;
      whole = finished-IsWhole start room;
      inode = resized s1.inode s.inode s1.inode.addrs new_size g.shape;
      on_disk =
          ap (update s1.saved (iblock sb s1.inode.inum) new_block) (sym same_block)
          ∙ update_self s1.saved (iblock sb s1.inode.inum) new_block
          ∙ ap (on_block sized.inode) (ap s1.cache same_block ∙ untouched);
      others = λ b far lt busy no_ref.
          update-ne s1.cache (iblock sb s1.inode.inum) b new_block
            (λ e. absurd (omega (arith, far, e, h.before, same_inum)))
          ∙ (g.others b lt busy no_ref (inr far)).0;
      mem = g.mem;
    }

    pub finished-in_use : (c : ℕ) → c < sb.size → in_use sb finished c ≡ in_use sb s1 c
    finished-in_use c lt =
        put-in_use sb sized sized-IsValid sized-IsFile (iblock sb s1.inode.inum) new_block before c
          lt
