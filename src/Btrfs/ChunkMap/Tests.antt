-- ===== src/Btrfs/ChunkMap/Tests.antt =====
-- Tests and instances for scrub-rs/src/btrfs/chunk.rs: two chunks, of which the first is known from
-- the superblock and from the chunk tree.
use rotshield.Prelude.{ℕ, ◌+◌, ◌≡◌, refl, inl, inr, List, [], ◌∷◌, map, All, some, replicate, arith}
use rotshield.Prelude.Panics.{returns, Gives}
use rotshield.Prelude.Io.{ok, err, invalid_data}
use rotshield.Array.Config.{add_u64}
use rotshield.Btrfs.Chunk.{ChunkRecord, parse_sys_chunks}
use rotshield.Btrfs.Chunk.Encoded.{
  Unread, FitsUnread, FitsRecord, encode_sys, parse_sys_chunks-encode_sys,
}
use rotshield.Btrfs.Chunk.Total.{Found, parse_sys_chunks-Found}
use rotshield.Btrfs.ChunkMap.{
  empty_map, entry_of, insert_all, raid1, dup, profile_ok, validate_entries, validate_data_profiles,
  insert,
}
use rotshield.Btrfs.ChunkMap.Order.{AllApart}
use rotshield.Btrfs.ChunkMap.Translation.{NoWrap, Says, covering, insert_all-Says}
use rotshield.Prelude.Sort.{sort_by_key, insert_by_key}

abbrev chunk_of : ℕ → ℕ → ℕ → ChunkRecord
chunk_of logical ty phys = record {
  logical = logical;
  chunk = record {
    length = 4096;
    stripe_len = 65536;
    ty = ty;
    num_stripes = 1;
    stripes = record { devid = 1; offset = phys } ∷ [];
  };
}

abbrev recs : List ChunkRecord
recs = chunk_of 16384 2 1048576 ∷ chunk_of 4096 1 2097152 ∷ chunk_of 16384 2 1048576 ∷ []

no_wrap : All NoWrap recs
no_wrap = (omega arith, (omega arith, (omega arith, tt)))

apart : AllApart (map entry_of recs)
unfolding add_u64
apart = (
  omega arith,
  (inr (inl (omega arith)), (inr (inr refl), tt)),
  (omega arith, (inl (omega arith), tt), (omega arith, tt, tt)),
)

insert_all-Says_example : Says (insert_all empty_map recs) 5000 (covering recs 5000)
insert_all-Says_example = insert_all-Says recs 5000 no_wrap apart

-- A mirrored data chunk is refused, mirrored metadata is not.
refuses_raid1 :
    validate_data_profiles (insert_all empty_map (chunk_of 4096 (1 + raid1) 0 ∷ recs))
    ≡ err invalid_data
unfolding validate_data_profiles validate_entries profile_ok insert_all insert sort_by_key
    insert_by_key
refuses_raid1 = refl

accepts_dup :
    validate_data_profiles
      (insert_all empty_map (chunk_of 4096 (1 + dup) 0 ∷ chunk_of 0 (4 + raid1) 0 ∷ []))
    ≡ ok tt
unfolding validate_data_profiles validate_entries profile_ok insert_all insert sort_by_key
    insert_by_key
accepts_dup = refl

abbrev unread : Unread
unread = record {
  owner = 2;
  io = replicate 12 0;
  sub_stripes = 0;
  dev_uuid = replicate 16 7;
  objectid = 256;
}

fits_unread : FitsUnread unread
fits_unread = (omega arith, refl, omega arith, refl, omega arith)

fits_recs : All (FitsRecord unread) recs
fits_recs = (
  (
    omega arith,
    omega arith,
    omega arith,
    omega arith,
    omega arith,
    refl,
    ((omega arith, omega arith), tt),
  ),
  (
    (
      omega arith,
      omega arith,
      omega arith,
      omega arith,
      omega arith,
      refl,
      ((omega arith, omega arith), tt),
    ),
    (
      (
        omega arith,
        omega arith,
        omega arith,
        omega arith,
        omega arith,
        refl,
        ((omega arith, omega arith), tt),
      ),
      tt,
    ),
  ),
)

-- After the records there is a piece of a key.
parse_sys_chunks-encode_sys_example :
    parse_sys_chunks (encode_sys unread recs (1 ∷ 2 ∷ 3 ∷ [])) ≡ returns (some recs)
parse_sys_chunks-encode_sys_example =
    parse_sys_chunks-encode_sys unread fits_unread recs (1 ∷ 2 ∷ 3 ∷ []) fits_recs (omega arith)

parse_sys_chunks-Found_example : Gives Found (parse_sys_chunks (replicate 70 255))
parse_sys_chunks-Found_example = parse_sys_chunks-Found (replicate 70 255)
