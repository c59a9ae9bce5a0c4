-- ===== src/Btrfs/Tree.antt =====
-- The walk over a tree of scrub-rs/src/btrfs/tree.rs. The callbacks act on a state; the prefetching
-- of siblings is left out. The stack of the source is a list with its top first.
pub mod Ends
mod Tests
use rotshield.Prelude.{
  ℕ, zero, suc, ◌-◌, ◌==◌, ltb, ◌&&◌, ◌||◌, not, Bool, true, false, if◌then◌else◌, List, [], ◌∷◌,
  ◌++◌, Option, none, some,
}
use rotshield.Prelude.Io.{IoError, IoResult, ok, err}
use rotshield.Prelude.Panics.{Panics, returns, panic, ◌>>=◌}
use rotshield.Btrfs.Key.{Key, KeyPtr}
use rotshield.Btrfs.Node.{Header, Leaf, InternalNode, Node, leaf, internal}
use rotshield.Btrfs.Csum.{Digests}
use rotshield.Btrfs.ChunkMap.{ChunkMap}
use rotshield.Btrfs.Reader.{FsReader, ReadNodeResult, Expected, gen_dont_check, read_node}

-- The derived order of keys: by objectid, then by type, then by offset.
unfoldable pub key_lt : Key → Key → Bool
key_lt a b =
    ltb a.objectid b.objectid
    || ((a.objectid == b.objectid) && (ltb a.ty b.ty || ((a.ty == b.ty) && ltb a.offset b.offset)))

pub record NodeRef : Type 0 where
  pub logical : ℕ
  pub exp_gen : Option ℕ
  pub exp_level : Option ℕ
  pub exp_owner : Option ℕ

abbrev pub root_ref : ℕ → NodeRef
root_ref logical = record { logical = logical; exp_gen = none; exp_level = none; exp_owner = none }

abbrev pub expected_generation : Option ℕ → ℕ
expected_generation none = gen_dont_check
expected_generation (some g) = g

abbrev pub expected_of : NodeRef → Expected
expected_of ref = record {
  logical = ref.logical;
  generation = expected_generation ref.exp_gen;
  level = ref.exp_level;
  owner = ref.exp_owner;
}

-- The child's keys lie outside of the bounds; the second key is that of the next child.
unfoldable pub outside : Option (Key × Key) → Key → Option Key → Bool
outside none child_lo child_hi = false
outside (some (key_lo, key_hi)) child_lo none = not (key_lt child_lo key_hi)
outside (some (key_lo, key_hi)) child_lo (some hi) =
    not (key_lt key_lo hi) || not (key_lt child_lo key_hi)

abbrev pub next_key : List KeyPtr → Option Key
next_key [] = none
next_key (p ∷ ptrs) = some p.key

abbrev pub child_of : Header → KeyPtr → NodeRef
child_of header ptr = record {
  logical = ptr.blockptr;
  exp_gen = some ptr.generation;
  exp_level = some (header.level - 1);
  exp_owner = some header.owner;
}

-- The loop pushes the last child first, so that the first one is on top.
unfoldable pub children : Option (Key × Key) → Header → List KeyPtr → List NodeRef
children bounds header [] = []
children bounds header (ptr ∷ ptrs) =
    let rest = children bounds header ptrs in
    if outside bounds ptr.key (next_key ptrs) then rest else child_of header ptr ∷ rest

pub record Callbacks {ℓ} (S : Type ℓ) : Type ℓ where
  pub visit : S → Leaf → ℕ → Panics (S × IoResult (Unit {0}))
  pub on_metadata_error : S → ℕ → S
  pub on_stale : S → ℕ → S
  pub on_mirror_mismatch : S → ℕ → S
  pub on_read_error : S → ℕ → S

-- The state and the result of a walk; `none` is a walk that needed more fuel.
abbrev pub Walked {ℓ} : Type ℓ → Type ℓ
Walked S = Panics (Option (S × IoResult (Unit {0})))

module _ {ℓ} {S : Type ℓ} (digests : Digests) (reader : FsReader) (chunk_map : ChunkMap)
    (bounds : Option (Key × Key)) (calls : Callbacks S) where
  -- A callback's error ends the walk.
  unfoldable pub visited :
      (List NodeRef → S → Walked S) → List NodeRef → S × IoResult (Unit {0}) → Walked S
  visited next stack (s, ok u) = next stack s
  visited next stack (s, err e) = returns (some (s, err e))

  unfoldable pub visit_node :
      (List NodeRef → S → Walked S) → NodeRef → List NodeRef → S → Option Node → Walked S
  visit_node next ref stack s none = panic
  visit_node next ref stack s (some (leaf l)) = calls.visit s l ref.logical >>= visited next stack
  visit_node next ref stack s (some (internal n)) =
      next (children bounds n.header n.ptrs ++ stack) s

  unfoldable pub noted : NodeRef → S → Bool → S
  noted ref s mirror_mismatch =
      if mirror_mismatch then calls.on_mirror_mismatch s ref.logical else s

  unfoldable pub step :
      (List NodeRef → S → Walked S)
      → NodeRef
      → List NodeRef
      → S
      → IoResult ReadNodeResult
      → Walked S
  step next ref stack s (err e) = next stack (calls.on_read_error s ref.logical)
  step next ref stack s (ok r) =
      if r.all_mirrors_failed
      then next stack (calls.on_metadata_error s ref.logical)
      else if r.generation_mismatch
      then next stack (calls.on_stale s ref.logical)
      else visit_node next ref stack (noted ref s r.mirror_mismatch) r.node

  unfoldable pub walk : ℕ → List NodeRef → S → Walked S
  walk zero stack s = returns none
  walk (suc fuel) [] s = returns (some (s, ok tt))
  walk (suc fuel) (ref ∷ stack) s =
      read_node digests reader chunk_map (expected_of ref) >>= step (walk fuel) ref stack s

  unfoldable pub walk_leaves : ℕ → ℕ → S → Walked S
  walk_leaves fuel root_logical s = walk fuel (root_ref root_logical ∷ []) s
