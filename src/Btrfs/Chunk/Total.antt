-- ===== src/Btrfs/Chunk/Total.antt =====
-- The system chunk array of scrub-rs/src/btrfs/chunk.rs on arbitrary bytes.
use rotshield.Prelude.{
  ℕ, zero, suc, ◌+◌, ◌*◌, ◌≤◌, ◌<◌, ◌≡◌, refl, ap, ◌∙◌, leb, ltb, ◌==◌, Bool-cases, inl, inr, List,
  [], ◌∷◌, All, Option, none, some, length as len, arith,
}
use rotshield.Prelude.Panics.{returns, Gives, Gives-true, Gives-false}
use rotshield.Btrfs.Bytes.{Bytes, le_at}
use rotshield.Btrfs.Bytes.Inside.{index_inside, slice_inside, le_at_inside, le_at-IsPart}
use rotshield.Btrfs.Key.{Key, parse_key}
use rotshield.Btrfs.Chunk.{
  Stripe, ChunkItem, ChunkRecord, Records, parse_stripes, parse_chunk_item, push_record, sys_chunk,
  sys_item, sys_key, sys_loop, parse_sys_chunks, chunk_item,
}

parse_key_inside :
    (buf : Bytes) (p : ℕ) → p + 17 ≤ len buf → (k : Key) × (parse_key buf p ≡ returns k)
unfolding parse_key
parse_key_inside buf p h =
    let (objectid, e1) = le_at_inside 8 buf p (omega arith) in
    let (ty, e2) = index_inside buf (p + 8) (omega arith) in
    let (offset, e3) = le_at_inside 8 buf (p + 9) (omega arith) in
    (record { objectid = objectid; ty = ty; offset = offset }, rw e1 (rw e2 (rw e3 refl)))

parse_stripes_inside :
    (buf : Bytes) (n i : ℕ)
    → 48 + (i + n) * 32 ≤ len buf
    → (ss : List Stripe) × (parse_stripes buf n i ≡ returns ss) × (len ss ≡ n)
unfolding parse_stripes
parse_stripes_inside buf zero i h = ([], refl, refl)
parse_stripes_inside buf (suc n) i h =
    let (devid, e1) = le_at_inside 8 buf (48 + i * 32) (omega arith) in
    let (offset, e2) = le_at_inside 8 buf (48 + i * 32 + 8) (omega arith) in
    let (ss, e3, size) = parse_stripes_inside buf n (suc i) (omega arith) in
    (record { devid = devid; offset = offset } ∷ ss, rw e1 (rw e2 (rw e3 refl)), ap suc size)

-- A record has the stripes that its chunk item announces.
abbrev pub HasStripes : ChunkRecord → Type 0
HasStripes r = len r.chunk.stripes ≡ r.chunk.num_stripes

parse_chunk_item_inside :
    (buf : Bytes) (n : ℕ)
    → le_at 2 buf 44 ≡ returns n
    → 48 + n * 32 ≤ len buf
    → (c : ChunkItem) × (parse_chunk_item buf ≡ returns c) × (len c.stripes ≡ c.num_stripes)
unfolding parse_chunk_item
parse_chunk_item_inside buf n count h =
    let (length, e1) = le_at_inside 8 buf 0 (omega arith) in
    let (owner, e2) = le_at_inside 8 buf 8 (omega arith) in
    let (stripe_len, e3) = le_at_inside 8 buf 16 (omega arith) in
    let (ty, e4) = le_at_inside 8 buf 24 (omega arith) in
    let (sub, e5) = le_at_inside 2 buf 46 (omega arith) in
    let (stripes, e6, size) = parse_stripes_inside buf n 0 (omega arith) in
    (
      record {
        length = length;
        stripe_len = stripe_len;
        ty = ty;
        num_stripes = n;
        stripes = stripes;
      },
      rw e1 (rw e2 (rw e3 (rw e4 (rw count (rw e5 (rw e6 refl)))))),
      size,
    )

-- The loop has found records, and each is whole.
abbrev pub Found : Option (List ChunkRecord) → Type 0
Found none = ⊥
Found (some rs) = All HasStripes rs

push_record-Found :
    (r : ChunkRecord) (rest : Option (List ChunkRecord))
    → HasStripes r
    → Found rest
    → Found (push_record r rest)
unfolding push_record
push_record-Found r none whole found = found
push_record-Found r (some rs) whole found = (whole, found)

module _ (buf : Bytes) (next : ℕ → Records) (pos : ℕ)
    (go_on : (q : ℕ) → pos < q → q ≤ len buf → Gives Found (next q)) where
  sys_item-Found :
      (key : Key) (at : ℕ) → pos < at → at + 48 ≤ len buf → Gives Found (sys_item next buf key at)
  unfolding sys_item sys_chunk
  sys_item-Found key at later h =
      let (n, count) = le_at_inside 2 buf (at + 44) (omega arith) in
      let whole = at + (48 + n * 32) in
      elim (Bool-cases (ltb (len buf) whole)) [
        | inl over ↦ (some [], rw count (rw over refl), tt)
        | inr inside ↦
            let (bytes, cut, size, part) = slice_inside buf at whole (omega arith) (ground arith) in
            let again : le_at 2 bytes 44 ≡ returns n =
              le_at-IsPart buf bytes at part 2 44 (omega arith) ∙ count in
            let (c, parsed, stripes) = parse_chunk_item_inside bytes n again (omega arith) in
            let (rest, done, found) = go_on whole (omega arith) (ground arith) in
            (
              push_record (record { logical = key.offset; chunk = c }) rest,
              rw count (rw inside (rw cut (rw parsed (rw done refl)))),
              push_record-Found (record { logical = key.offset; chunk = c }) rest stripes found,
            )
      ]

  sys_key-Found : pos + 65 ≤ len buf → Gives Found (sys_key next buf pos)
  unfolding sys_key
  sys_key-Found h =
      let (key, e) = parse_key_inside buf pos (omega arith) in
      elim (Bool-cases (key.ty == chunk_item)) [
        | inl chunk ↦
            let (r, done, found) = sys_item-Found key (pos + 17) (omega arith) (omega arith) in
            (r, rw e (rw chunk done), found)
        | inr end ↦ (some [], rw e (rw end refl), tt)
      ]

sys_loop-Found :
    (fuel : ℕ) (buf : Bytes) (pos : ℕ)
    → pos ≤ len buf
    → len buf < pos + fuel
    → Gives Found (sys_loop fuel buf pos)
unfolding sys_loop
sys_loop-Found zero buf pos inside enough = absurd (omega arith)
sys_loop-Found (suc fuel) buf pos inside enough =
    elim (Bool-cases (leb (pos + 17 + 48) (len buf))) [
      | inl more ↦ Gives-true Found _ _ _ more (
          sys_key-Found buf (sys_loop fuel buf) pos
            (λ q later h. sys_loop-Found fuel buf q h (omega arith)) (ground arith))
      | inr end ↦ Gives-false Found _ _ _ end (some [], refl, tt)
    ]

-- On any bytes whatever the system chunk array is parsed without a panic, the loop ends, and every
-- record has as many stripes as its chunk item announces.
pub parse_sys_chunks-Found : (buf : Bytes) → Gives Found (parse_sys_chunks buf)
unfolding parse_sys_chunks
parse_sys_chunks-Found buf = sys_loop-Found (suc (len buf)) buf 0 (omega arith) (omega arith)
