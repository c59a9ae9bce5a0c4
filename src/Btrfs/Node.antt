-- ===== src/Btrfs/Node.antt =====
-- Nodes and leaves of scrub-rs/src/btrfs/node.rs.
pub mod Encoded
pub mod Samples
mod Tests
use rotshield.Prelude.{
  ℕ, zero, suc, ◌+◌, ◌*◌, ◌==◌, if◌then◌else◌, List, [], ◌∷◌, get_elem?, none, some,
}
use rotshield.Prelude.Panics.{Panics, returns, panic, ◌>>=◌}
use rotshield.Btrfs.Bytes.{Bytes, index, slice, le_range}
use rotshield.Btrfs.Key.{Key, KeyPtr, parse_key, parse_key_ptr}

abbrev pub header_size : ℕ
header_size = 101

abbrev pub leaf_item_size : ℕ
leaf_item_size = 25

abbrev pub keyptr_size : ℕ
keyptr_size = 33

pub record Header : Type 0 where
  pub fsid : Bytes
  pub bytenr : ℕ
  pub flags : ℕ
  pub chunk_tree_uuid : Bytes
  pub generation : ℕ
  pub owner : ℕ
  pub nritems : ℕ
  pub level : ℕ

unfoldable pub parse_header : Bytes → Panics Header
parse_header buf = do
  fsid ← slice buf 32 48
  bytenr ← le_range buf 48 56
  flags ← le_range buf 56 64
  chunk_tree_uuid ← slice buf 64 80
  generation ← le_range buf 80 88
  owner ← le_range buf 88 96
  nritems ← le_range buf 96 100
  level ← index buf 100
  returns (record {
    fsid = fsid;
    bytenr = bytenr;
    flags = flags;
    chunk_tree_uuid = chunk_tree_uuid;
    generation = generation;
    owner = owner;
    nritems = nritems;
    level = level;
  })

pub record LeafItemSlot : Type 0 where
  pub key : Key
  pub data_offset : ℕ
  pub data_size : ℕ

unfoldable pub parse_slot : Bytes → ℕ → Panics LeafItemSlot
parse_slot buf pos = do
  key ← parse_key buf pos
  data_offset ← le_range buf (pos + 17) (pos + 21)
  data_size ← le_range buf (pos + 21) (pos + 25)
  returns (record { key = key; data_offset = data_offset; data_size = data_size })

pub record Leaf : Type 0 where
  pub header : Header
  pub slots : List LeafItemSlot
  pub buf : Bytes

-- `slots[i]`, and the bytes of its item.
unfoldable pub item_data : Leaf → ℕ → Panics Bytes
item_data leaf i = elim (get_elem? leaf.slots i) [
  | none ↦ panic
  | some slot ↦
      let start = header_size + slot.data_offset in slice leaf.buf start (start + slot.data_size)
]

pub record InternalNode : Type 0 where
  pub header : Header
  pub ptrs : List KeyPtr

pub data Node : Type 0 where
  leaf : Leaf → Node
  internal : InternalNode → Node

unfoldable pub node_header : Node → Header
node_header (leaf l) = l.header
node_header (internal n) = n.header

-- The loops over the slots: n of them from the i-th on.
unfoldable pub parse_slots : Bytes → ℕ → ℕ → Panics (List LeafItemSlot)
parse_slots buf zero i = returns []
parse_slots buf (suc n) i = do
  slot ← parse_slot buf (header_size + i * leaf_item_size)
  slots ← parse_slots buf n (suc i)
  returns (slot ∷ slots)

unfoldable pub parse_ptrs : Bytes → ℕ → ℕ → Panics (List KeyPtr)
parse_ptrs buf zero i = returns []
parse_ptrs buf (suc n) i = do
  ptr ← parse_key_ptr buf (header_size + i * keyptr_size)
  ptrs ← parse_ptrs buf n (suc i)
  returns (ptr ∷ ptrs)

unfoldable pub parse_leaf : Bytes → Header → Panics Node
parse_leaf buf header = do
  slots ← parse_slots buf header.nritems 0
  returns (leaf (record { header = header; slots = slots; buf = buf }))

unfoldable pub parse_internal : Bytes → Header → Panics Node
parse_internal buf header = do
  ptrs ← parse_ptrs buf header.nritems 0
  returns (internal (record { header = header; ptrs = ptrs }))

unfoldable pub parse_node : Bytes → Panics Node
parse_node buf = do
  header ← parse_header buf
  if header.level == 0 then parse_leaf buf header else parse_internal buf header
