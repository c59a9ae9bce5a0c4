-- ===== src/Btrfs/Superblock.antt =====
-- The superblock of scrub-rs/src/btrfs/superblock.rs and its mirrors. `read_at` is a function of the
-- offset and of the number of bytes; what it reports of a short read is an `unexpected_eof`.
pub mod Blocks
pub mod Mirrors
mod Tests
use rotshield.Prelude.{
  ℕ, ◌+◌, leb, ◌&&◌, Bool, true, false, if◌then◌else◌, List, [], ◌∷◌, length, Option, none, some,
}
use rotshield.Prelude.Io.{IoError, unexpected_eof, invalid_data, IoResult, ok, err}
use rotshield.Prelude.Panics.{Panics, returns, ◌>>=◌}
use rotshield.Array.Config.{add_u64}
use rotshield.Btrfs.Bytes.{Bytes, slice, le_u16, le_u32, le_u64}
use rotshield.Btrfs.Csum.{Digests, bytes_eq, verify_header}

abbrev pub superblock_backup_offsets : List ℕ
superblock_backup_offsets = 65536 ∷ 67108864 ∷ 274877906944 ∷ 1099511627776 ∷ []

-- `_BHRfS_M`.
abbrev pub btrfs_magic : Bytes
btrfs_magic = 95 ∷ 66 ∷ 72 ∷ 82 ∷ 102 ∷ 83 ∷ 95 ∷ 77 ∷ []

-- The magic at a place of the buffer, where it is long enough.
unfoldable pub has_magic_at : Bytes → ℕ → Panics Bool
has_magic_at buf offset =
    if leb (offset + 8) (length buf)
    then (slice buf offset (offset + 8) >>= λ bs. returns (bytes_eq bs btrfs_magic))
    else returns false

pub record Superblock : Type 0 where
  pub fsid : Bytes
  pub bytenr : ℕ
  pub magic : Bytes
  pub generation : ℕ
  pub root : ℕ
  pub chunk_root : ℕ
  pub total_bytes : ℕ
  pub bytes_used : ℕ
  pub num_devices : ℕ
  pub sector_size : ℕ
  pub node_size : ℕ
  pub stripesize : ℕ
  pub sys_chunk_array_size : ℕ
  pub chunk_root_generation : ℕ
  pub csum_type : ℕ
  pub devid : ℕ
  pub sys_chunks : Bytes

-- The fields, after the system chunk array.
unfoldable pub parse_fields : Bytes → Bytes → Bytes → Bytes → ℕ → ℕ → Panics Superblock
parse_fields buf magic fsid sys_chunks size csum_type = do
  bytenr ← le_u64 buf 48
  generation ← le_u64 buf 72
  root ← le_u64 buf 80
  chunk_root ← le_u64 buf 88
  total_bytes ← le_u64 buf 112
  bytes_used ← le_u64 buf 120
  num_devices ← le_u64 buf 136
  sector_size ← le_u32 buf 144
  node_size ← le_u32 buf 148
  stripesize ← le_u32 buf 156
  chunk_root_generation ← le_u64 buf 164
  devid ← le_u64 buf 201
  returns (record {
    fsid = fsid;
    bytenr = bytenr;
    magic = magic;
    generation = generation;
    root = root;
    chunk_root = chunk_root;
    total_bytes = total_bytes;
    bytes_used = bytes_used;
    num_devices = num_devices;
    sector_size = sector_size;
    node_size = node_size;
    stripesize = stripesize;
    sys_chunk_array_size = size;
    chunk_root_generation = chunk_root_generation;
    csum_type = csum_type;
    devid = devid;
    sys_chunks = sys_chunks;
  })

unfoldable pub with_sys_chunks : Bytes → Bytes → Bytes → ℕ → ℕ → Panics (IoResult Superblock)
with_sys_chunks buf magic fsid csum_type size =
    if leb (811 + size) (length buf)
    then (slice buf 811 (811 + size) >>= λ sys_chunks.
        parse_fields buf magic fsid sys_chunks size csum_type >>= λ sb. returns (ok sb))
    else returns (err invalid_data)

-- The checksum of the block has been looked at.
unfoldable pub header_checked : Bytes → Bytes → ℕ → IoResult Bool → Panics (IoResult Superblock)
header_checked buf magic csum_type (err e) = returns (err e)
header_checked buf magic csum_type (ok false) = returns (err invalid_data)
header_checked buf magic csum_type (ok true) = do
  fsid ← slice buf 32 48
  size ← le_u32 buf 160
  with_sys_chunks buf magic fsid csum_type size

module _ (digests : Digests) (read_at : ℕ → ℕ → IoResult Bytes) where
  unfoldable pub magic_checked : Bytes → Bytes → Bool → Panics (IoResult Superblock)
  magic_checked buf magic false = returns (err invalid_data)
  magic_checked buf magic true = do
    csum_type ← le_u16 buf 196
    valid ← verify_header digests csum_type buf
    header_checked buf magic csum_type valid

  unfoldable pub parse_copy : IoResult Bytes → Panics (IoResult Superblock)
  parse_copy (err e) = returns (err e)
  parse_copy (ok buf) = do
    magic ← slice buf 64 72
    magic_checked buf magic (bytes_eq magic btrfs_magic)

  unfoldable pub read_one : ℕ → Panics (IoResult Superblock)
  read_one abs_off = parse_copy (read_at abs_off 4096)

  unfoldable pub read_primary : ℕ → Panics (IoResult Superblock)
  read_primary offset = read_one (add_u64 offset 65536)

  -- A short read is no error to report.
  unfoldable pub last_error : Option IoError → IoError → Option IoError
  last_error last_err IoError.unexpected_eof = last_err
  last_error last_err e = some e

  unfoldable pub none_left : Option IoError → IoError
  none_left none = invalid_data
  none_left (some e) = e

  unfoldable pub after_copy :
      (Option IoError → Panics (IoResult Superblock))
      → Option IoError
      → IoResult Superblock
      → Panics (IoResult Superblock)
  after_copy next last_err (ok sb) = returns (ok sb)
  after_copy next last_err (err e) = next (last_error last_err e)

  unfoldable pub read_mirrors : ℕ → List ℕ → Option IoError → Panics (IoResult Superblock)
  read_mirrors offset [] last_err = returns (err (none_left last_err))
  read_mirrors offset (sb_off ∷ offsets) last_err =
      read_one (add_u64 offset sb_off) >>= after_copy (read_mirrors offset offsets) last_err

  unfoldable pub read : ℕ → Panics (IoResult Superblock)
  read offset = read_mirrors offset superblock_backup_offsets none
