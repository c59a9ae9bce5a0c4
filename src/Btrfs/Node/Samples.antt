-- ===== src/Btrfs/Node/Samples.antt =====
-- A leaf and an internal node of scrub-rs/src/btrfs/node.rs as test data.
use rotshield.Prelude.{ℕ, List, [], ◌∷◌, ◌++◌, replicate}
use rotshield.Btrfs.Bytes.{Bytes}
use rotshield.Btrfs.Key.{Key}
use rotshield.Btrfs.Node.{Header, LeafItemSlot, Node, leaf, internal}
use rotshield.Btrfs.Node.Encoded.{encode_header, encode_slots}

abbrev pub header : ℕ → Header
header level = record {
  fsid = replicate 16 5;
  bytenr = 30408704;
  flags = 1;
  chunk_tree_uuid = replicate 16 6;
  generation = 7;
  owner = 3;
  nritems = 1;
  level = level;
}

abbrev pub key : Key
key = record { objectid = 256; ty = 228; offset = 4096 }

abbrev pub csum : Bytes
csum = replicate 32 9

abbrev pub slots : List LeafItemSlot
slots = record { key = key; data_offset = 16000; data_size = 80 } ∷ []

abbrev pub a_leaf : Node
a_leaf = leaf (record {
  header = header 0;
  slots = slots;
  buf = csum ++ encode_header (header 0) (encode_slots slots (1 ∷ 2 ∷ []));
})

abbrev pub a_node : Node
a_node = internal (record {
  header = header 1;
  ptrs = record { key = key; blockptr = 30425088; generation = 7 } ∷ [];
})
