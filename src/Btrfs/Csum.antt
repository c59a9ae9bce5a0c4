-- ===== src/Btrfs/Csum.antt =====
-- The checksums of scrub-rs/src/btrfs/csum_strategy.rs. The four digests are third-party code: a
-- function `Digests` from the type to the bytes of the hash, the numbers among them little-endian.
pub mod Seal
mod Tests
use rotshield.Prelude.{
  ℕ, ◌==◌, leb, ◌&&◌, Bool, true, false, if◌then◌else◌, [], ◌∷◌, length, Option, none, some,
}
use rotshield.Prelude.Io.{IoResult, ok, err, invalid_data}
use rotshield.Prelude.Panics.{Panics, returns, panic, ◌>>=◌}
use rotshield.Btrfs.Bytes.{Bytes, slice}

-- `csum_type`.
pub data CsumType : Type 0 where
  crc32c xxhash sha256 blake2 : CsumType

unfoldable pub csum_type_of : ℕ → Option CsumType
csum_type_of t =
    if t == 0
    then some CsumType.crc32c
    else if t == 1
    then some CsumType.xxhash
    else if t == 2
    then some CsumType.sha256
    else if t == 3
    then some CsumType.blake2
    else none

abbrev pub hash_len_of : CsumType → ℕ
hash_len_of CsumType.crc32c = 4
hash_len_of CsumType.xxhash = 8
hash_len_of CsumType.sha256 = 32
hash_len_of CsumType.blake2 = 32

abbrev pub Digests : Type 0
Digests = CsumType → Bytes → Bytes

pub record CsumStrategy : Type 0 where
  pub csum_type : ℕ
  pub hash_len : ℕ
  pub sector_size : ℕ

-- From the `csum_type` and the `sector_size` of the superblock.
unfoldable pub from_superblock : ℕ → ℕ → IoResult CsumStrategy
from_superblock csum_type sector_size = elim (csum_type_of csum_type) [
  | none ↦ err invalid_data
  | some t ↦
      if sector_size == 0
      then err invalid_data
      else ok
          (record { csum_type = csum_type; hash_len = hash_len_of t; sector_size = sector_size })
]

-- Equality of two slices.
unfoldable pub bytes_eq : Bytes → Bytes → Bool
bytes_eq [] [] = true
bytes_eq [] (y ∷ ys) = false
bytes_eq (x ∷ xs) [] = false
bytes_eq (x ∷ xs) (y ∷ ys) = (x == y) && bytes_eq xs ys

module _ (digests : Digests) where
  -- `csum_prefix` bytes hold the checksum of what follows.
  unfoldable pub verify_digest : CsumType → Bytes → Panics (IoResult Bool)
  verify_digest t node_buf = do
    stored ← slice node_buf 0 (hash_len_of t)
    body ← slice node_buf 32 (length node_buf)
    returns (ok (bytes_eq stored (digests t body)))

  unfoldable pub verify_header : ℕ → Bytes → Panics (IoResult Bool)
  verify_header csum_type node_buf =
      if leb (length node_buf) 32 then returns (ok false) else elim (csum_type_of csum_type) [
        | none ↦ returns (err invalid_data)
        | some t ↦ verify_digest t node_buf
      ]

  unfoldable pub verified : IoResult Bool → Bool
  verified (ok b) = b
  verified (err e) = false

  unfoldable pub verify_node_header : CsumStrategy → Bytes → Panics Bool
  verify_node_header strategy node_buf = do
    result ← verify_header strategy.csum_type node_buf
    returns (verified result)

  -- An unsupported type is `unreachable!`.
  unfoldable pub compute : CsumStrategy → Bytes → Panics Bytes
  compute strategy bytes = elim (csum_type_of strategy.csum_type) [
    | none ↦ panic
    | some t ↦ returns (digests t bytes)
  ]

  unfoldable pub matches : CsumStrategy → Bytes → Bytes → Panics Bool
  matches strategy stored bytes = do
    actual ← compute strategy bytes
    returns (bytes_eq stored actual)
