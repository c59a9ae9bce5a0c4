-- ===== src/Btrfs/Node/Encoded.antt =====
-- The layout on disk that the parsers of scrub-rs/src/btrfs/node.rs read.
use rotshield.Prelude.{
  ℕ, suc, ◌+◌, ◌*◌, ◌<◌, ◌≡◌, refl, sym, ap, subst, ◌∙◌, ◌==◌, true, false, List, [], ◌∷◌, ◌++◌,
  length, All, arith,
}
use rotshield.Prelude.Panics.{returns}
use rotshield.Btrfs.Bytes.{Bytes}
use rotshield.Btrfs.Bytes.At.{At, to_le, bound, At-whole, At-split, At-slice, At-range, At-byte}
use rotshield.Btrfs.Key.{
  KeyPtr, encode_key, encode_key_ptr, FitsKey, FitsKeyPtr, parse_key-At, parse_key_ptr-At,
}
use rotshield.Btrfs.Node.{
  Header, LeafItemSlot, Node, leaf, internal, parse_header, parse_slot, parse_slots, parse_ptrs,
  parse_leaf, parse_internal, parse_node,
}

-- The header after the checksum.
abbrev pub encode_header : Header → Bytes → Bytes
encode_header h rest =
    h.fsid
    ++ (to_le 8 h.bytenr
        ++ (to_le 8 h.flags
            ++ (h.chunk_tree_uuid
                ++ (to_le 8 h.generation
                    ++ (to_le 8 h.owner ++ (to_le 4 h.nritems ++ (h.level ∷ rest)))))))

abbrev pub FitsHeader : Header → Type 0
FitsHeader h =
    (length h.fsid ≡ 16)
    × (h.bytenr < bound 8)
    × (h.flags < bound 8)
    × (length h.chunk_tree_uuid ≡ 16)
    × (h.generation < bound 8)
    × (h.owner < bound 8)
    × (h.nritems < bound 4)

abbrev pub encode_slot : LeafItemSlot → Bytes → Bytes
encode_slot s rest = encode_key s.key (to_le 4 s.data_offset ++ (to_le 4 s.data_size ++ rest))

abbrev pub FitsSlot : LeafItemSlot → Type 0
FitsSlot s = FitsKey s.key × (s.data_offset < bound 4) × (s.data_size < bound 4)

abbrev pub encode_slots : List LeafItemSlot → Bytes → Bytes
encode_slots [] rest = rest
encode_slots (s ∷ slots) rest = encode_slot s (encode_slots slots rest)

abbrev pub encode_ptrs : List KeyPtr → Bytes → Bytes
encode_ptrs [] rest = rest
encode_ptrs (p ∷ ptrs) rest = encode_key_ptr p (encode_ptrs ptrs rest)

parse_header-At :
    (buf : Bytes) (h : Header) (rest : Bytes)
    → FitsHeader h
    → At buf 32 (encode_header h rest)
    → (parse_header buf ≡ returns h) × At buf 101 rest
unfolding parse_header
parse_header-At buf h rest (fsid, bytenr, flags, uuid, generation, owner, nritems) at =
    let (e1, at1) = At-slice buf 32 48 h.fsid _ (omega arith) (omega arith) at in
    let (e2, at2) = At-range 8 buf 48 56 h.bytenr _ (omega arith) refl bytenr at1 in
    let (e3, at3) = At-range 8 buf 56 64 h.flags _ (omega arith) refl flags at2 in
    let (e4, at4) = At-slice buf 64 80 h.chunk_tree_uuid _ (omega arith) (omega arith) at3 in
    let (e5, at5) = At-range 8 buf 80 88 h.generation _ (omega arith) refl generation at4 in
    let (e6, at6) = At-range 8 buf 88 96 h.owner _ (omega arith) refl owner at5 in
    let (e7, at7) = At-range 4 buf 96 100 h.nritems _ (omega arith) refl nritems at6 in
    let (e8, at8) = At-byte buf 100 101 h.level rest refl at7 in
    (rw e1 (rw e2 (rw e3 (rw e4 (rw e5 (rw e6 (rw e7 (rw e8 refl))))))), at8)

parse_slot-At :
    (buf : Bytes) (p q : ℕ) (s : LeafItemSlot) (rest : Bytes)
    → p + 25 ≡ q
    → FitsSlot s
    → At buf p (encode_slot s rest)
    → (parse_slot buf p ≡ returns s) × At buf q rest
unfolding parse_slot
parse_slot-At buf p q s rest e fits at =
    let (e1, at1) = parse_key-At buf p (p + 17) s.key _ refl fits.0 at in
    let (e2, at2) =
      At-range 4 buf (p + 17) (p + 21) s.data_offset _ (omega arith) (omega arith) fits.1 at1 in
    let (e3, at3) =
      At-range 4 buf (p + 21) (p + 25) s.data_size rest (omega arith) (omega arith) fits.2 at2 in
    (rw e1 (rw e2 (rw e3 refl)), subst (λ (r : ℕ). At buf r rest) e at3)

parse_slots-At :
    (buf : Bytes) (slots : List LeafItemSlot) (i : ℕ) (rest : Bytes)
    → All FitsSlot slots
    → At buf (101 + i * 25) (encode_slots slots rest)
    → parse_slots buf (length slots) i ≡ returns slots
unfolding parse_slots
parse_slots-At buf [] i rest fits at = refl
parse_slots-At buf (s ∷ slots) i rest fits at =
    let (first, at1) =
      parse_slot-At buf (101 + i * 25) (101 + suc i * 25) s _ (omega arith) fits.0 at in
    rw first (rw (parse_slots-At buf slots (suc i) rest fits.1 at1) refl)

parse_ptrs-At :
    (buf : Bytes) (ptrs : List KeyPtr) (i : ℕ) (rest : Bytes)
    → All FitsKeyPtr ptrs
    → At buf (101 + i * 33) (encode_ptrs ptrs rest)
    → parse_ptrs buf (length ptrs) i ≡ returns ptrs
unfolding parse_ptrs
parse_ptrs-At buf [] i rest fits at = refl
parse_ptrs-At buf (p ∷ ptrs) i rest fits at =
    let (first, at1) =
      parse_key_ptr-At buf (101 + i * 33) (101 + suc i * 33) p _ (omega arith) fits.0 at in
    rw first (rw (parse_ptrs-At buf ptrs (suc i) rest fits.1 at1) refl)

-- A node on disk: the checksum, the header, the slots or the pointers, and what follows them.
abbrev pub encode_node : Bytes → Bytes → Node → Bytes
encode_node csum rest (leaf l) = csum ++ encode_header l.header (encode_slots l.slots rest)
encode_node csum rest (internal n) = csum ++ encode_header n.header (encode_ptrs n.ptrs rest)

-- A leaf has level 0 and keeps its bytes, an internal node has another; the header counts the slots.
abbrev pub IsNode : Bytes → Bytes → Node → Type 0
IsNode csum rest (leaf l) =
    FitsHeader l.header
    × (l.header.level ≡ 0)
    × (l.header.nritems ≡ length l.slots)
    × All FitsSlot l.slots
    × (l.buf ≡ encode_node csum rest (leaf l))
IsNode csum rest (internal n) =
    FitsHeader n.header
    × (0 < n.header.level)
    × (n.header.nritems ≡ length n.ptrs)
    × All FitsKeyPtr n.ptrs

-- A node that is written on disk after a checksum of 32 bytes, with fields in the range of their
-- integers, and followed by any bytes, is parsed again, whether it is a leaf or an internal node.
pub parse_node-encode_node :
    (csum rest : Bytes) (node : Node)
    → length csum ≡ 32
    → IsNode csum rest node
    → parse_node (encode_node csum rest node) ≡ returns node
unfolding parse_node parse_leaf parse_internal
parse_node-encode_node csum rest (leaf l) size (fits, level, count, slots, same) =
    let buf = encode_node csum rest (leaf l) in
    let (skipped, at1) = At-split buf 0 32 csum _ (omega arith) (At-whole buf) in
    let (head, at2) = parse_header-At buf l.header (encode_slots l.slots rest) fits at1 in
    let items : parse_slots buf l.header.nritems 0 ≡ returns l.slots =
      ap (λ n. parse_slots buf n 0) count ∙ parse_slots-At buf l.slots 0 rest slots at2 in
    let bottom : (l.header.level == 0) ≡ true = ground arith in
    rw head (
      rw bottom (
        rw items (
          ap
            (λ (b : Bytes). returns (leaf (record { header = l.header; slots = l.slots; buf = b })))
            (sym same))))
parse_node-encode_node csum rest (internal n) size (fits, level, count, ptrs) =
    let buf = encode_node csum rest (internal n) in
    let (skipped, at1) = At-split buf 0 32 csum _ (omega arith) (At-whole buf) in
    let (head, at2) = parse_header-At buf n.header (encode_ptrs n.ptrs rest) fits at1 in
    let items : parse_ptrs buf n.header.nritems 0 ≡ returns n.ptrs =
      ap (λ k. parse_ptrs buf k 0) count ∙ parse_ptrs-At buf n.ptrs 0 rest ptrs at2 in
    let above : (n.header.level == 0) ≡ false = ground arith in rw head (rw above (rw items refl))
