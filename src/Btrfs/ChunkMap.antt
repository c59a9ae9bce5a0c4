-- ===== src/Btrfs/ChunkMap.antt =====
-- The chunk map of scrub-rs/src/btrfs/chunk.rs: entries sorted by their start, and the translation of
-- a logical address by binary search.
pub mod Order
pub mod Search
pub mod Translation
mod Tests
use Prim.Native.String.{String}
use Prim.Native.Nat.{Ordering}
use rotshield.Prelude.{
  ℕ, ◌+◌, ◌-◌, ◌%◌, ◌^◌, bit_and, ◌==◌, leb, ltb, ◌||◌, Bool, if◌then◌else◌, List, [], ◌∷◌, ◌++◌,
  map, get_elem?, Option, none, some,
}
use rotshield.Prelude.Io.{IoResult, ok, err, invalid_data}
use rotshield.Prelude.Panics.{Panics, returns, panic}
use rotshield.Prelude.Sort.{sort_by_key}
use rotshield.Prelude.BinarySearch.{binary_search_by}
use rotshield.Array.Config.{add_u64}
use rotshield.Btrfs.Chunk.{Stripe, ChunkRecord}

-- The flags of `bg_flag`.
abbrev pub data_flag : ℕ
data_flag = 1

abbrev pub raid0 : ℕ
raid0 = 8

abbrev pub raid1 : ℕ
raid1 = 16

abbrev pub dup : ℕ
dup = 32

abbrev pub raid10 : ℕ
raid10 = 64

abbrev pub raid5 : ℕ
raid5 = 128

abbrev pub raid6 : ℕ
raid6 = 256

abbrev pub raid1c3 : ℕ
raid1c3 = 512

abbrev pub raid1c4 : ℕ
raid1c4 = 1024

-- The bits are different, so that their disjunction is their sum.
abbrev pub profile_mask : ℕ
profile_mask = raid0 + raid1 + dup + raid10 + raid5 + raid6 + raid1c3 + raid1c4

pub record MapEntry : Type 0 where
  pub begin : ℕ
  pub end : ℕ
  pub ty : ℕ
  pub stripes : List Stripe

pub record ChunkMap : Type 0 where
  pub entries : List MapEntry

pub record ChunkInfo : Type 0 where
  pub length : ℕ
  pub flags : ℕ

abbrev pub empty_map : ChunkMap
empty_map = record { entries = [] }

abbrev pub entry_of : ChunkRecord → MapEntry
entry_of rec = record {
  begin = rec.logical;
  end = add_u64 rec.logical rec.chunk.length;
  ty = rec.chunk.ty;
  stripes = rec.chunk.stripes;
}

unfoldable pub insert : ChunkMap → ChunkRecord → ChunkMap
insert m rec = record {
  entries = sort_by_key (λ (e : MapEntry). e.begin) (m.entries ++ (entry_of rec ∷ []));
}

-- The loops of the opening, over the system chunks and over those of the chunk tree.
unfoldable pub insert_all : ChunkMap → List ChunkRecord → ChunkMap
insert_all m [] = m
insert_all m (rec ∷ recs) = insert_all (insert m rec) recs

-- How an entry lies to an address.
abbrev pub compare_entry : ℕ → MapEntry → Ordering
compare_entry a e =
    if ltb a e.begin then Ordering.gt else if leb e.end a then Ordering.lt else Ordering.eq

unfoldable pub entry_at : List MapEntry → Option ℕ → Option MapEntry
entry_at entries none = none
entry_at entries (some idx) = get_elem? entries idx

unfoldable pub find_entry : ChunkMap → ℕ → Option MapEntry
find_entry m a = entry_at m.entries (binary_search_by (compare_entry a) m.entries)

-- Subtraction of u64.
unfoldable pub sub_u64 : ℕ → ℕ → ℕ
sub_u64 a b = (a + 2 ^ 64 - b) % 2 ^ 64

unfoldable pub info_of : MapEntry → ChunkInfo
info_of e = record { length = sub_u64 e.end e.begin; flags = e.ty }

unfoldable pub info : ChunkMap → ℕ → Option ChunkInfo
info m chunk_offset = elim (find_entry m chunk_offset) [ none ↦ none | some e ↦ some (info_of e) ]

-- A stripe's copy of an address at an offset in the chunk.
unfoldable pub copy_at : ℕ → Stripe → ℕ × ℕ
copy_at log_offset s = (s.devid, add_u64 s.offset log_offset)

unfoldable pub first_copy : ℕ → List Stripe → Panics (Option (ℕ × ℕ))
first_copy log_offset [] = panic
first_copy log_offset (s ∷ stripes) = returns (some (copy_at log_offset s))

unfoldable pub lookup : ChunkMap → ℕ → Panics (Option (ℕ × ℕ))
lookup m logical = elim (find_entry m logical) [
  | none ↦ returns none
  | some e ↦ first_copy (sub_u64 logical e.begin) e.stripes
]

unfoldable pub copies : ℕ → MapEntry → List (ℕ × ℕ)
copies logical e = map (copy_at (sub_u64 logical e.begin)) e.stripes

unfoldable pub lookup_stripes : ChunkMap → ℕ → Option (List (ℕ × ℕ))
lookup_stripes m logical = elim (find_entry m logical) [
  | none ↦ none
  | some e ↦ some (copies logical e)
]

unfoldable pub profile_name : ℕ → String
profile_name ty =
    let p = bit_and ty profile_mask in
    if p == 0
    then "SINGLE"
    else if p == raid0
    then "RAID0"
    else if p == raid1
    then "RAID1"
    else if p == dup
    then "DUP"
    else if p == raid10
    then "RAID10"
    else if p == raid5
    then "RAID5"
    else if p == raid6
    then "RAID6"
    else if p == raid1c3
    then "RAID1C3"
    else if p == raid1c4
    then "RAID1C4"
    else "UNKNOWN"

-- A data chunk may be SINGLE or DUP.
unfoldable pub profile_ok : MapEntry → Bool
profile_ok e =
    let profile = bit_and e.ty profile_mask in
    (bit_and e.ty data_flag == 0) || (profile == 0) || (profile == dup)

unfoldable pub validate_entries : List MapEntry → IoResult (Unit {0})
validate_entries [] = ok tt
validate_entries (e ∷ entries) =
    let rest = validate_entries entries in if profile_ok e then rest else err invalid_data

unfoldable pub validate_data_profiles : ChunkMap → IoResult (Unit {0})
validate_data_profiles m = validate_entries m.entries
