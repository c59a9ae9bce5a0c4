-- ===== src/Btrfs/Tree/Ends.antt =====
-- The walk of scrub-rs/src/btrfs/tree.rs comes to an end, whatever the device holds.
use rotshield.Prelude.{
  ℕ, zero, suc, ◌-◌, ◌<◌, ◌≡◌, refl, sym, ap, subst, ◌⊎◌, inl, inr, ◌==◌, true, false, Bool-cases,
  if◌then◌else◌, List, [], ◌∷◌, ◌++◌, Option, none, some, arith,
}
use rotshield.Prelude.Io.{IoResult, ok, err}
use rotshield.Prelude.Panics.{Panics, returns, panic, ◌>>=◌, bind_returns}
use rotshield.Btrfs.Bytes.{Bytes}
use rotshield.Btrfs.Key.{Key, KeyPtr}
use rotshield.Btrfs.Node.{
  Header, InternalNode, Node, leaf, internal, node_header, parse_header, parse_node, parse_leaf,
  parse_internal, parse_slots, parse_ptrs,
}
use rotshield.Btrfs.Csum.{Digests, CsumStrategy}
use rotshield.Btrfs.ChunkMap.{ChunkMap, lookup_stripes}
use rotshield.Btrfs.Reader.{FsReader, ReadNodeResult, Expected, stripes_or_fake, read_node}
use rotshield.Btrfs.Reader.Headers.{AsGiven, Fits}
use rotshield.Btrfs.Reader.Valid.{FromGood, read_node-FromGood}
use rotshield.Btrfs.Tree.{
  NodeRef, root_ref, expected_of, outside, next_key, child_of, children, Callbacks, Walked, visited,
  visit_node, noted, step, walk, walk_leaves,
}

-- An internal node is not at level 0.
internal-level :
    (buf : Bytes) (n : InternalNode) → parse_node buf ≡ returns (internal n) → 0 < n.header.level
unfolding parse_node parse_leaf parse_internal node_header
internal-level buf n e =
    let (hdr, head, rest) = bind_returns (parse_header buf) e in
    made hdr (Bool-cases (hdr.level == 0)) rest
  where
    made :
        (hdr : Header)
        → ((hdr.level == 0) ≡ true) ⊎ ((hdr.level == 0) ≡ false)
        → (if hdr.level == 0 then parse_leaf buf hdr else parse_internal buf hdr)
          ≡ returns (internal n)
        → 0 < n.header.level
    made hdr (inl bottom) e =
        let (slots, items, done) =
          bind_returns {f = λ x. returns (leaf (record { header = hdr; slots = x; buf = buf }))}
            (parse_slots buf hdr.nritems 0) (rw bottom at e) in
        absurd (cc)
    made hdr (inr above) e =
        let (ptrs, items, done) =
          bind_returns {f = λ x. returns (internal (record { header = hdr; ptrs = x }))}
            (parse_ptrs buf hdr.nritems 0) (rw above at e) in
        let same : internal (record { header = hdr; ptrs = ptrs }) ≡ internal n = cc in
        let level : hdr.level ≡ n.header.level = ap (λ (x : Node). (node_header x).level) same in
        ground arith

-- The header has the level that was expected.
Fits-level :
    (reader : FsReader) (hdr : Header) (exp : Expected) (v : ℕ)
    → exp.level ≡ some v
    → Fits reader exp hdr
    → hdr.level ≡ v
Fits-level reader hdr exp v e fits = subst (λ (o : Option ℕ). AsGiven o hdr.level) e fits.2

module _ {ℓ} {S : Type ℓ} (digests : Digests) (reader : FsReader) (chunk_map : ChunkMap)
    (bounds : Option (Key × Key)) (calls : Callbacks S) (strategy : CsumStrategy)
    (known : reader.strategy ≡ some strategy) where
  -- The walk has panicked or returned.
  abbrev pub Halts : Walked S → Type ℓ
  Halts m = (m ≡ panic) ⊎ ((x : S × IoResult (Unit {0})) × (m ≡ returns (some x)))

  abbrev Safe : List NodeRef → Type ℓ
  Safe stack =
      (s : S) → (fuel : ℕ) × Halts (walk digests reader chunk_map bounds calls fuel stack s)

  abbrev Reads : NodeRef → IoResult ReadNodeResult → Type 0
  Reads ref r = read_node digests reader chunk_map (expected_of ref) ≡ returns r

  -- An internal node that the walk goes on from.
  abbrev Descends : NodeRef → InternalNode → Type 0
  Descends ref n =
      (r : ReadNodeResult) × Reads ref (ok r)
      × (r.all_mirrors_failed ≡ false)
      × (r.generation_mismatch ≡ false)
      × (r.node ≡ some (internal n))

  walk-step :
      (fuel : ℕ) (ref : NodeRef) (stack : List NodeRef) (s : S) (r : IoResult ReadNodeResult)
      → Reads ref r
      → Halts (
          step digests reader chunk_map bounds calls
            (walk digests reader chunk_map bounds calls fuel)
            ref
            stack
            s
            r)
      → Halts (walk digests reader chunk_map bounds calls (suc fuel) (ref ∷ stack) s)
  unfolding walk
  walk-step fuel ref stack s r e h =
      subst
        (λ (m : Panics (IoResult ReadNodeResult)). Halts (
          m
          >>= step digests reader chunk_map bounds calls
              (walk digests reader chunk_map bounds calls fuel) ref stack s))
        (sym e) h

  visited-Halts :
      (stack : List NodeRef) (m : Panics (S × IoResult (Unit {0})))
      → Safe stack
      → (fuel : ℕ) × Halts (
          m
          >>= visited digests reader chunk_map bounds calls
              (walk digests reader chunk_map bounds calls fuel)
              stack)
  unfolding visited
  visited-Halts stack panic safe = (0, inl refl)
  visited-Halts stack (returns (s, ok u)) safe = safe s
  visited-Halts stack (returns (s, err e)) safe = (0, inr ((s, err e), refl))

  visit_node-Halts :
      (ref : NodeRef) (stack : List NodeRef) (s : S) (node : Option Node)
      → ((n : InternalNode)
          → node ≡ some (internal n)
          → Safe (children bounds n.header n.ptrs ++ stack))
      → Safe stack
      → (fuel : ℕ) × Halts (
          visit_node digests reader chunk_map bounds calls
            (walk digests reader chunk_map bounds calls fuel)
            ref
            stack
            s
            node)
  unfolding visit_node
  visit_node-Halts ref stack s none below safe = (0, inl refl)
  visit_node-Halts ref stack s (some (leaf l)) below safe =
      visited-Halts stack (calls.visit s l ref.logical) safe
  visit_node-Halts ref stack s (some (internal n)) below safe = below n refl s

  step-Halts :
      (ref : NodeRef) (stack : List NodeRef) (s : S) (r : IoResult ReadNodeResult)
      → Reads ref r
      → ((n : InternalNode) → Descends ref n → Safe (children bounds n.header n.ptrs ++ stack))
      → Safe stack
      → (fuel : ℕ) × Halts (
          step digests reader chunk_map bounds calls
            (walk digests reader chunk_map bounds calls fuel)
            ref
            stack
            s
            r)
  unfolding step
  step-Halts ref stack s (err e) reads below safe = safe (calls.on_read_error s ref.logical)
  step-Halts ref stack s (ok r) reads below safe = elim (Bool-cases r.all_mirrors_failed) [
    | inl failed ↦
        let (fuel, h) = safe (calls.on_metadata_error s ref.logical) in (fuel, rw failed h)
    | inr found ↦ elim (Bool-cases r.generation_mismatch) [
      | inl old ↦ let (fuel, h) = safe (calls.on_stale s ref.logical) in (fuel, rw found (rw old h))
      | inr fresh ↦
          let (fuel, h) =
            visit_node-Halts ref stack
              (noted digests reader chunk_map bounds calls ref s r.mirror_mismatch) r.node
              (λ n e. below n (r, reads, found, fresh, e)) safe in
          (fuel, rw found (rw fresh h))
    ]
  ]

  ref-Safe :
      (ref : NodeRef) (stack : List NodeRef)
      → ((n : InternalNode) → Descends ref n → Safe (children bounds n.header n.ptrs ++ stack))
      → Safe stack
      → Safe (ref ∷ stack)
  unfolding walk
  ref-Safe ref stack below safe s = go (read_node digests reader chunk_map (expected_of ref)) refl
    where
      go :
          (m : Panics (IoResult ReadNodeResult))
          → read_node digests reader chunk_map (expected_of ref) ≡ m
          → (fuel : ℕ) × Halts (walk digests reader chunk_map bounds calls fuel (ref ∷ stack) s)
      go panic e = (1, inl (rw e refl))
      go (returns r) e =
          let (fuel, h) = step-Halts ref stack s r e below safe in
          (suc fuel, walk-step fuel ref stack s r e h)

  -- The node that is descended from has been verified.
  Descends-header :
      (ref : NodeRef) (n : InternalNode)
      → Descends ref n
      → Fits reader (expected_of ref) n.header × (0 < n.header.level)
  unfolding node_header
  Descends-header ref n (r, reads, found, fresh, e) =
      let copies = stripes_or_fake (lookup_stripes chunk_map (expected_of ref).logical) in
      let (valid, (buf, stands, checked, parsed)) : FromGood digests reader strategy
          (expected_of ref) copies (some (internal n)) =
        subst (FromGood digests reader strategy (expected_of ref) copies) e (
          read_node-FromGood digests reader chunk_map (expected_of ref) strategy r known reads found
            fresh) in
      (valid, internal-level buf n parsed)

  -- Children of a node one level up.
  abbrev SafeAt : ℕ → Type ℓ
  SafeAt v =
      (ref : NodeRef) (stack : List NodeRef)
      → ref.exp_level ≡ some v
      → Safe stack
      → Safe (ref ∷ stack)

  children-Safe :
      (v : ℕ) (header : Header) (ptrs : List KeyPtr) (stack : List NodeRef)
      → SafeAt v
      → header.level ≡ suc v
      → Safe stack
      → Safe (children bounds header ptrs ++ stack)
  unfolding children
  children-Safe v header [] stack below level safe = safe
  children-Safe v header (ptr ∷ ptrs) stack below level safe =
      let rest = children-Safe v header ptrs stack below level safe in
      elim (Bool-cases (outside bounds ptr.key (next_key ptrs))) [
        | inl pruned ↦ rw pruned rest
        | inr kept ↦ rw kept (
            below (child_of header ptr) (children bounds header ptrs ++ stack)
              (ap some (omega arith)) rest)
      ]

  all-SafeAt : (v : ℕ) → SafeAt v
  all-SafeAt zero ref stack e safe =
      ref-Safe ref stack
        (λ n descends.
          let (valid, above) = Descends-header ref n descends in
          let level = Fits-level reader n.header (expected_of ref) 0 e valid in
          absurd (omega arith))
        safe
  all-SafeAt (suc v) ref stack e safe =
      ref-Safe ref stack
        (λ n descends.
          let (valid, above) = Descends-header ref n descends in
          let level = Fits-level reader n.header (expected_of ref) (suc v) e valid in
          children-Safe v n.header n.ptrs stack (all-SafeAt v) level safe)
        safe

  nothing-Safe : Safe []
  unfolding walk
  nothing-Safe s = (1, inr ((s, ok tt), refl))

  -- Let the reader have a checksum strategy. Then the walk from any root comes to an end, whatever
  -- the device holds and whatever the callbacks do: with some fuel it returns or it panics, as a
  -- callback or the parsing of a node may.
  pub walk_leaves-Halts :
      (root_logical : ℕ) (s : S)
      → (fuel : ℕ) × Halts (walk_leaves digests reader chunk_map bounds calls fuel root_logical s)
  unfolding walk_leaves
  walk_leaves-Halts root_logical s =
      ref-Safe (root_ref root_logical) []
        (λ n descends.
          let (valid, above) = Descends-header (root_ref root_logical) n descends in
          children-Safe (n.header.level - 1) n.header n.ptrs [] (all-SafeAt (n.header.level - 1))
            (omega arith) nothing-Safe)
        nothing-Safe s
