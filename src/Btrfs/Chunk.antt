-- ===== src/Btrfs/Chunk.antt =====
-- Chunk items of scrub-rs/src/btrfs/chunk.rs: the decoding, and the system chunk array of the
-- superblock.
pub mod Encoded
pub mod Total
use rotshield.Prelude.{
  ℕ, zero, suc, ◌+◌, ◌*◌, ◌==◌, leb, ltb, if◌then◌else◌, List, [], ◌∷◌, Option, none, some,
  length as len,
}
use rotshield.Prelude.Panics.{Panics, returns, ◌>>=◌}
use rotshield.Btrfs.Bytes.{Bytes, slice, le_u16, le_u64}
use rotshield.Btrfs.Key.{Key, parse_key}

pub record Stripe : Type 0 where
  pub devid : ℕ
  pub offset : ℕ

pub record ChunkItem : Type 0 where
  pub length : ℕ
  pub stripe_len : ℕ
  pub ty : ℕ
  pub num_stripes : ℕ
  pub stripes : List Stripe

-- n stripe entries from the i-th on.
unfoldable pub parse_stripes : Bytes → ℕ → ℕ → Panics (List Stripe)
parse_stripes buf zero i = returns []
parse_stripes buf (suc n) i = do
  devid ← le_u64 buf (48 + i * 32)
  offset ← le_u64 buf (48 + i * 32 + 8)
  stripes ← parse_stripes buf n (suc i)
  returns (record { devid = devid; offset = offset } ∷ stripes)

unfoldable pub parse_chunk_item : Bytes → Panics ChunkItem
parse_chunk_item buf = do
  length ← le_u64 buf 0
  owner ← le_u64 buf 8
  stripe_len ← le_u64 buf 16
  ty ← le_u64 buf 24
  num_stripes ← le_u16 buf 44
  sub_stripes ← le_u16 buf 46
  stripes ← parse_stripes buf num_stripes 0
  returns (record {
    length = length;
    stripe_len = stripe_len;
    ty = ty;
    num_stripes = num_stripes;
    stripes = stripes;
  })

pub record ChunkRecord : Type 0 where
  pub logical : ℕ
  pub chunk : ChunkItem

-- The key type CHUNK_ITEM.
abbrev pub chunk_item : ℕ
chunk_item = 228

-- The records from a position on; `none` is a loop that needed more fuel.
abbrev pub Records : Type 0
Records = Panics (Option (List ChunkRecord))

unfoldable pub push_record : ChunkRecord → Option (List ChunkRecord) → Option (List ChunkRecord)
push_record r none = none
push_record r (some rs) = some (r ∷ rs)

-- The chunk at `pos`, which is long enough, and what `next` finds after it.
unfoldable pub sys_chunk : (ℕ → Records) → Bytes → Key → ℕ → ℕ → Records
sys_chunk next buf key pos chunk_len = do
  bytes ← slice buf pos (pos + chunk_len)
  chunk ← parse_chunk_item bytes
  rest ← next (pos + chunk_len)
  returns (push_record (record { logical = key.offset; chunk = chunk }) rest)

unfoldable pub sys_item : (ℕ → Records) → Bytes → Key → ℕ → Records
sys_item next buf key pos = do
  num_stripes ← le_u16 buf (pos + 44)
  if ltb (len buf) (pos + (48 + num_stripes * 32))
      then returns (some [])
      else sys_chunk next buf key pos (48 + num_stripes * 32)

unfoldable pub sys_key : (ℕ → Records) → Bytes → ℕ → Records
sys_key next buf pos = do
  key ← parse_key buf pos
  if key.ty == chunk_item then sys_item next buf key (pos + 17) else returns (some [])

unfoldable pub sys_loop : ℕ → Bytes → ℕ → Records
sys_loop zero buf pos = returns none
sys_loop (suc fuel) buf pos =
    if leb (pos + 17 + 48) (len buf) then sys_key (sys_loop fuel buf) buf pos else returns (some [])

unfoldable pub parse_sys_chunks : Bytes → Records
parse_sys_chunks buf = sys_loop (suc (len buf)) buf 0
