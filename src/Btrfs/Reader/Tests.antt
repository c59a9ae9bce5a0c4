-- ===== src/Btrfs/Reader/Tests.antt =====
-- Tests and instances for scrub-rs/src/btrfs/reader.rs: a device that holds one internal node, whose
-- hash is a constant.
use rotshield.Prelude.{◌≡◌, refl, true, false, none, some}
use rotshield.Prelude.Io.{ok}
use rotshield.Prelude.Panics.{returns}
use rotshield.Array.Config.{add_u64}
use rotshield.Prelude.BinarySearch.{binary_search_by, search_loop}
use rotshield.Btrfs.Bytes.{index, bytes_at, slice, from_le_bytes, le_at, le_range}
use rotshield.Btrfs.Key.{parse_key, parse_key_ptr}
use rotshield.Btrfs.Node.{parse_header, parse_node, parse_internal, parse_ptrs}
use rotshield.Btrfs.Node.Samples.{a_node}
use rotshield.Btrfs.Csum.{
  csum_type_of, bytes_eq, verify_digest, verify_header, verified, verify_node_header,
}
use rotshield.Btrfs.ChunkMap.{empty_map, find_entry, entry_at, lookup_stripes}
use rotshield.Btrfs.Reader.{
  ReadNodeResult, Expected, if_given, validate_header, or_first, keep_valid, keep_checked,
  keep_copy, read_copies, is_none, finish_checked, finish_chosen, finish_read, stripes_or_fake,
  read_with, read_node,
}
use rotshield.Btrfs.Reader.Samples.{digests, strategy, reader}
use rotshield.Btrfs.Reader.Valid.{FromGood, read_node-FromGood}

abbrev exp : Expected
exp = record { logical = 30408704; generation = 7; level = some 1; owner = none }

abbrev result : ReadNodeResult
result = record {
  node = some a_node;
  all_mirrors_failed = false;
  generation_mismatch = false;
  mirror_mismatch = false;
}

reads : read_node digests reader empty_map exp ≡ returns (ok result)
unfolding read_node read_with read_copies keep_copy keep_checked keep_valid finish_read
    finish_chosen finish_checked is_none or_first stripes_or_fake validate_header if_given
    verify_node_header verify_header verify_digest verified csum_type_of bytes_eq parse_node
    parse_internal parse_ptrs parse_header parse_key parse_key_ptr index bytes_at slice
    from_le_bytes le_at le_range lookup_stripes find_entry entry_at binary_search_by search_loop
    add_u64
reads = refl

-- A node of another generation is stale.
stale :
    read_node digests reader empty_map (record exp { generation = 8 })
    ≡ returns (ok (record result { generation_mismatch = true }))
unfolding read_node read_with read_copies keep_copy keep_checked keep_valid finish_read
    finish_chosen finish_checked is_none or_first stripes_or_fake validate_header if_given
    verify_node_header verify_header verify_digest verified csum_type_of bytes_eq parse_node
    parse_internal parse_ptrs parse_header parse_key parse_key_ptr index bytes_at slice
    from_le_bytes le_at le_range lookup_stripes find_entry entry_at binary_search_by search_loop
    add_u64
stale = refl

read_node-FromGood_example :
    FromGood digests reader strategy exp
      (stripes_or_fake (lookup_stripes empty_map exp.logical))
      (some a_node)
read_node-FromGood_example =
    read_node-FromGood digests reader empty_map exp strategy result refl reads refl refl
