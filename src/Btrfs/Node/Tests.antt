-- ===== src/Btrfs/Node/Tests.antt =====
-- Tests and instances for scrub-rs/src/btrfs/node.rs: a leaf with one slot, a node with one child.
use rotshield.Prelude.{◌≡◌, refl, [], ◌∷◌, arith}
use rotshield.Prelude.Panics.{returns}
use rotshield.Btrfs.Node.{parse_node}
use rotshield.Btrfs.Node.Encoded.{IsNode, encode_node, parse_node-encode_node}
use rotshield.Btrfs.Node.Samples.{csum, a_leaf, a_node}

a_leaf-IsNode : IsNode csum (1 ∷ 2 ∷ []) a_leaf
a_leaf-IsNode = (
  (refl, omega arith, omega arith, refl, omega arith, omega arith, omega arith),
  refl,
  refl,
  (((omega arith, omega arith), omega arith, omega arith), tt),
  refl,
)

parse_node-encode_node_example : parse_node (encode_node csum (1 ∷ 2 ∷ []) a_leaf) ≡ returns a_leaf
parse_node-encode_node_example = parse_node-encode_node csum (1 ∷ 2 ∷ []) a_leaf refl a_leaf-IsNode

a_node-IsNode : IsNode csum [] a_node
a_node-IsNode = (
  (refl, omega arith, omega arith, refl, omega arith, omega arith, omega arith),
  omega arith,
  refl,
  (((omega arith, omega arith), omega arith, omega arith), tt),
)

internal_example : parse_node (encode_node csum [] a_node) ≡ returns a_node
internal_example = parse_node-encode_node csum [] a_node refl a_node-IsNode
