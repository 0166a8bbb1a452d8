-- ===== src/Raid/Superblock.antt =====
-- The superblock of the array as it lies in block 0 of each disk: seven little-endian words.
use os2_project.Base.{
  ℕ, suc, zero, ◌+◌, ◌*◌, ◌/◌, ◌%◌, ◌^◌, ◌<◌, ◌≡◌, Bool, ◌&&◌, if◌then◌else◌, ltb, ◌==◌, arith,
}
use os2_project.Raid.Types.{Block, Superblock}

-- The word at an offset of a block, and the byte `k` of a word.
abbrev pub word_at : Block → ℕ → ℕ
word_at b o = b o + 2 ^ 8 * b (o + 1) + 2 ^ 16 * b (o + 2) + 2 ^ 24 * b (o + 3)

abbrev pub byte_of : ℕ → ℕ → ℕ
byte_of x k = x / 2 ^ (8 * k) % 256

-- `(struct RAIDSuperblock *)data`
abbrev pub decode : Block → Superblock
decode b = record {
  raid_level = word_at b 0;
  disk_status = word_at b 4;
  parrity_disk = word_at b 8;
  swap_disk = word_at b 12;
  max_blknum = word_at b 16;
  blk_size = word_at b 20;
  num_of_disks = word_at b 24;
}

abbrev pub field : Superblock → ℕ → ℕ
field sb zero = sb.raid_level
field sb (suc zero) = sb.disk_status
field sb (suc (suc zero)) = sb.parrity_disk
field sb (suc (suc (suc zero))) = sb.swap_disk
field sb (suc (suc (suc (suc zero)))) = sb.max_blknum
field sb (suc (suc (suc (suc (suc zero))))) = sb.blk_size
field sb _ = sb.num_of_disks

-- The page of a superblock: its fields, then what `kalloc` fills a page with.
unfoldable pub encode : Superblock → Block
encode sb i = if ltb i 28 then byte_of (field sb (i / 4)) (i % 4) else 5

-- `is_raid_uninitialized`: all bytes of the superblock are 0.
unfoldable pub is_raid_uninitialized : Superblock → Bool
is_raid_uninitialized sb =
    sb.raid_level == 0
    && sb.disk_status == 0
    && sb.parrity_disk == 0
    && sb.swap_disk == 0
    && sb.max_blknum == 0
    && sb.blk_size == 0
    && sb.num_of_disks == 0

-- Every field fits its 32 bits.
pub record Fits (sb : Superblock) : Type 0 where
  pub raid_level : sb.raid_level < 2 ^ 32
  pub disk_status : sb.disk_status < 2 ^ 32
  pub parrity_disk : sb.parrity_disk < 2 ^ 32
  pub swap_disk : sb.swap_disk < 2 ^ 32
  pub max_blknum : sb.max_blknum < 2 ^ 32
  pub blk_size : sb.blk_size < 2 ^ 32
  pub num_of_disks : sb.num_of_disks < 2 ^ 32

word_of_bytes :
    (x : ℕ)
    → x < 2 ^ 32
    → byte_of x 0 + 2 ^ 8 * byte_of x 1 + 2 ^ 16 * byte_of x 2 + 2 ^ 24 * byte_of x 3 ≡ x
word_of_bytes x h = omega arith

-- A superblock whose fields fit their words is read back from its block as it was.
pub decode-encode : (sb : Superblock) → Fits sb → decode (encode sb) ≡ sb
unfolding encode
decode-encode sb h = λ i. record {
  raid_level = word_of_bytes sb.raid_level h.raid_level i;
  disk_status = word_of_bytes sb.disk_status h.disk_status i;
  parrity_disk = word_of_bytes sb.parrity_disk h.parrity_disk i;
  swap_disk = word_of_bytes sb.swap_disk h.swap_disk i;
  max_blknum = word_of_bytes sb.max_blknum h.max_blknum i;
  blk_size = word_of_bytes sb.blk_size h.blk_size i;
  num_of_disks = word_of_bytes sb.num_of_disks h.num_of_disks i;
}
