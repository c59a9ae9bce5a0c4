-- ===== src/Btrfs/Reader.antt =====
-- The reader of nodes of scrub-rs/src/btrfs/reader.rs: every mirror copy is read, its checksum and
-- its header are verified, and the best copy is parsed. `pread_at` is a function of the offset and
-- of the number of bytes; the read-ahead hints are left out.
pub mod Headers
pub mod Valid
pub mod Samples
mod Tests
use rotshield.Prelude.{
  ℕ, zero, suc, ◌+◌, ◌^◌, ◌-◌, ◌==◌, ltb, ◌&&◌, ◌||◌, not, Bool, true, false, if◌then◌else◌, List,
  [], ◌∷◌, length, Option, none, some,
}
use rotshield.Prelude.Io.{IoError, IoResult, ok, err, not_found}
use rotshield.Prelude.Panics.{Panics, returns, panic, ◌>>=◌}
use rotshield.Array.Config.{add_u64}
use rotshield.Btrfs.Bytes.{Bytes}
use rotshield.Btrfs.Node.{Header, Node, parse_header, parse_node}
use rotshield.Btrfs.Csum.{Digests, CsumStrategy, bytes_eq, verify_node_header}
use rotshield.Btrfs.ChunkMap.{ChunkMap, lookup, lookup_stripes}

abbrev pub gen_dont_check : ℕ
gen_dont_check = 2 ^ 64 - 1

pub record ReadNodeResult : Type 0 where
  pub node : Option Node
  pub all_mirrors_failed : Bool
  pub generation_mismatch : Bool
  pub mirror_mismatch : Bool

-- The file is what it gives to a positional read.
pub record FsReader : Type 0 where
  pub pread_at : ℕ → ℕ → IoResult Bytes
  pub node_size : ℕ
  pub base_offset : ℕ
  pub devid : Option ℕ
  pub strategy : Option CsumStrategy
  pub fsid : Option Bytes

-- The fields that a header must have, as far as they are known.
pub record Expected : Type 0 where
  pub logical : ℕ
  pub generation : ℕ
  pub level : Option ℕ
  pub owner : Option ℕ

unfoldable pub if_given {ℓ} : {A : Type ℓ} → (A → Bool) → Option A → Bool
if_given test none = true
if_given test (some a) = test a

unfoldable pub validate_header : FsReader → Header → Expected → Bool
validate_header reader hdr exp =
    (hdr.bytenr == exp.logical)
    && if_given (bytes_eq hdr.fsid) reader.fsid
    && if_given (λ lvl. hdr.level == lvl) exp.level
    && if_given (λ owner. hdr.owner == owner) exp.owner
    && ((exp.generation == gen_dont_check) || (hdr.generation == exp.generation))

unfoldable pub mapped : FsReader → ℕ → Option (ℕ × ℕ) → IoResult Bytes
mapped reader n none = err not_found
mapped reader n (some (devid, phys)) = reader.pread_at (add_u64 reader.base_offset phys) n

unfoldable pub read_logical : FsReader → ChunkMap → ℕ → ℕ → Panics (IoResult Bytes)
read_logical reader chunk_map logical n = do
  place ← lookup chunk_map logical
  returns (mapped reader n place)

-- The copies that the loop keeps: the first good, the first stale and the first corrupt one.
pub record Copies : Type 0 where
  pub good : Option Bytes
  pub stale : Option Bytes
  pub corrupt : Option Bytes
  pub valid_count : ℕ

abbrev pub no_copies : Copies
no_copies = record { good = none; stale = none; corrupt = none; valid_count = 0 }

-- What is already there is kept.
unfoldable pub or_first : Option Bytes → Option Bytes → Option Bytes
or_first none other = other
or_first (some b) other = some b

module _ (digests : Digests) (reader : FsReader) (strategy : CsumStrategy) (exp : Expected) where
  unfoldable pub keep_valid : Copies → Bytes → Header → Copies
  keep_valid cs buf hdr =
      let counted = record cs { valid_count = suc cs.valid_count } in
      if validate_header reader hdr exp
      then record counted { good = or_first cs.good (some buf) }
      else record counted { stale = or_first cs.stale (some buf) }

  unfoldable pub keep_checked : Copies → Bytes → Bool → Panics Copies
  keep_checked cs buf false = returns (record cs { corrupt = or_first cs.corrupt (some buf) })
  keep_checked cs buf true = do hdr ← parse_header buf; returns (keep_valid cs buf hdr)

  unfoldable pub keep_copy : Copies → IoResult Bytes → Panics Copies
  keep_copy cs (err e) = returns cs
  keep_copy cs (ok buf) = do
    valid ← verify_node_header digests strategy buf
    keep_checked cs buf valid

  unfoldable pub read_copies : List (ℕ × ℕ) → Copies → Panics Copies
  read_copies [] cs = returns cs
  read_copies ((devid, phys) ∷ stripes) cs = do
    cs' ← keep_copy cs (reader.pread_at (add_u64 reader.base_offset phys) reader.node_size)
    read_copies stripes cs'

  unfoldable pub is_none : Option Bytes → Bool
  is_none none = true
  is_none (some b) = false

  -- The chosen copy is parsed if its checksum is right.
  unfoldable pub finish_checked : Bytes → Bool → Bool → Bool → Panics (IoResult ReadNodeResult)
  finish_checked buf generation_mismatch mirror_mismatch false = returns (
      ok (record {
        node = none;
        all_mirrors_failed = true;
        generation_mismatch = generation_mismatch;
        mirror_mismatch = mirror_mismatch;
      }))
  finish_checked buf generation_mismatch mirror_mismatch true = do
    node ← parse_node buf
    returns (
        ok (record {
          node = some node;
          all_mirrors_failed = false;
          generation_mismatch = generation_mismatch;
          mirror_mismatch = mirror_mismatch;
        }))

  unfoldable pub finish_chosen : Bool → Bool → Option Bytes → Panics (IoResult ReadNodeResult)
  finish_chosen generation_mismatch mirror_mismatch none = returns (err not_found)
  finish_chosen generation_mismatch mirror_mismatch (some buf) = do
    valid ← verify_node_header digests strategy buf
    finish_checked buf generation_mismatch mirror_mismatch valid

  unfoldable pub finish_read : ℕ → Copies → Panics (IoResult ReadNodeResult)
  finish_read mirrors cs =
      finish_chosen (is_none cs.good && not (is_none cs.stale))
        (ltb 1 mirrors && ltb 0 cs.valid_count && ltb cs.valid_count mirrors)
        (or_first (or_first cs.good cs.stale) cs.corrupt)

-- An address that no chunk has stands for a stripe at 0.
unfoldable pub stripes_or_fake : Option (List (ℕ × ℕ)) → List (ℕ × ℕ)
stripes_or_fake none = (0, 0) ∷ []
stripes_or_fake (some stripes) = stripes

unfoldable pub unverified : IoResult Bytes → Panics (IoResult ReadNodeResult)
unverified (err e) = returns (err e)
unverified (ok buf) = do
  node ← parse_node buf
  returns (
      ok (record {
        node = some node;
        all_mirrors_failed = false;
        generation_mismatch = false;
        mirror_mismatch = false;
      }))

-- Without a checksum strategy nothing is verified.
unfoldable pub read_with :
    Digests
    → FsReader
    → ChunkMap
    → Expected
    → Option CsumStrategy
    → Panics (IoResult ReadNodeResult)
read_with digests reader chunk_map exp none =
    read_logical reader chunk_map exp.logical reader.node_size >>= unverified
read_with digests reader chunk_map exp (some strategy) =
    let stripes = stripes_or_fake (lookup_stripes chunk_map exp.logical) in
    read_copies digests reader strategy exp stripes no_copies
    >>= finish_read digests reader strategy exp (length stripes)

unfoldable pub read_node :
    Digests → FsReader → ChunkMap → Expected → Panics (IoResult ReadNodeResult)
read_node digests reader chunk_map exp = read_with digests reader chunk_map exp reader.strategy
