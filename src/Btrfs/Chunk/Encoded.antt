-- ===== src/Btrfs/Chunk/Encoded.antt =====
-- The layout on disk that the parsers of scrub-rs/src/btrfs/chunk.rs read.
use rotshield.Prelude.{
  ℕ, zero, suc, ◌+◌, ◌*◌, ◌<◌, ◌≤◌, ◌≡◌, refl, sym, ap, ◌∙◌, leb, ltb, true, false, List, [], ◌∷◌,
  ◌++◌, All, some, length as len, arith,
}
use rotshield.Prelude.Panics.{returns}
use rotshield.Btrfs.Bytes.{Bytes}
use rotshield.Btrfs.Bytes.At.{At, to_le, bound, length-++, At-whole, At-split, At-le, slice-At}
use rotshield.Btrfs.Key.{Key, encode_key, parse_key-At}
use rotshield.Btrfs.Chunk.{
  Stripe, ChunkItem, ChunkRecord, chunk_item, push_record, parse_stripes, parse_chunk_item,
  sys_chunk, sys_item, sys_key, sys_loop, parse_sys_chunks,
}

-- The fields that the parser passes over: the owner, the sizes of the device's reads and writes, the
-- number of sub-stripes, and the device's identifier.
pub record Unread : Type 0 where
  pub owner : ℕ
  pub io : Bytes
  pub sub_stripes : ℕ
  pub dev_uuid : Bytes
  pub objectid : ℕ

module _ (unread : Unread) where
  abbrev pub FitsUnread : Type 0
  FitsUnread =
      (unread.owner < bound 8)
      × (len unread.io ≡ 12)
      × (unread.sub_stripes < bound 2)
      × (len unread.dev_uuid ≡ 16)
      × (unread.objectid < bound 8)

  abbrev pub encode_stripes : List Stripe → Bytes
  encode_stripes [] = []
  encode_stripes (s ∷ ss) =
      to_le 8 s.devid ++ (to_le 8 s.offset ++ (unread.dev_uuid ++ encode_stripes ss))

  abbrev pub encode_chunk : ChunkItem → Bytes
  encode_chunk c =
      to_le 8 c.length
      ++ (to_le 8 unread.owner
          ++ (to_le 8 c.stripe_len
              ++ (to_le 8 c.ty
                  ++ (unread.io
                      ++ (to_le 2 c.num_stripes
                          ++ (to_le 2 unread.sub_stripes ++ encode_stripes c.stripes))))))

  abbrev pub encode_sys : List ChunkRecord → Bytes → Bytes
  encode_sys [] rest = rest
  encode_sys (r ∷ rs) rest =
      encode_key (record { objectid = unread.objectid; ty = chunk_item; offset = r.logical })
        (encode_chunk r.chunk ++ encode_sys rs rest)

  abbrev pub FitsStripe : Stripe → Type 0
  FitsStripe s = (s.devid < bound 8) × (s.offset < bound 8)

  abbrev pub FitsRecord : ChunkRecord → Type 0
  FitsRecord r =
      (r.logical < bound 8)
      × (r.chunk.length < bound 8)
      × (r.chunk.stripe_len < bound 8)
      × (r.chunk.ty < bound 8)
      × (r.chunk.num_stripes < bound 2)
      × (len r.chunk.stripes ≡ r.chunk.num_stripes)
      × All FitsStripe r.chunk.stripes

  module _ (fits : FitsUnread) where
    length-encode_stripes : (ss : List Stripe) → len (encode_stripes ss) ≡ len ss * 32
    length-encode_stripes [] = omega arith
    length-encode_stripes (s ∷ ss) =
        let joined = length-++ unread.dev_uuid (encode_stripes ss) in
        let uuid = fits.3 in let rest = length-encode_stripes ss in omega arith

    length-encode_chunk :
        (c : ChunkItem)
        → len c.stripes ≡ c.num_stripes
        → len (encode_chunk c) ≡ 48 + c.num_stripes * 32
    length-encode_chunk c e =
        let tail =
          to_le 2 c.num_stripes ++ (to_le 2 unread.sub_stripes ++ encode_stripes c.stripes) in
        let joined = length-++ unread.io tail in
        let io = fits.1 in let rest = length-encode_stripes c.stripes in omega arith

    parse_stripes-At :
        (buf : Bytes) (ss : List Stripe) (i : ℕ)
        → All FitsStripe ss
        → At buf (48 + i * 32) (encode_stripes ss)
        → parse_stripes buf (len ss) i ≡ returns ss
    unfolding parse_stripes
    parse_stripes-At buf [] i h at = refl
    parse_stripes-At buf (s ∷ ss) i h at =
        let (e1, at1) = At-le 8 buf (48 + i * 32) (48 + i * 32 + 8) s.devid _ refl h.0.0 at in
        let (e2, at2) =
          At-le 8 buf (48 + i * 32 + 8) (48 + i * 32 + 16) s.offset _ (omega arith) h.0.1 at1 in
        let (uuid, at3) =
          At-split buf (48 + i * 32 + 16) (48 + suc i * 32) unread.dev_uuid _
            (let size = fits.3 in omega arith) at2 in
        rw e1 (rw e2 (rw (parse_stripes-At buf ss (suc i) h.1 at3) refl))

    num_stripes-At :
        (buf : Bytes) (p : ℕ) (c : ChunkItem)
        → At buf p (encode_chunk c)
        → At buf
            (p + 44)
            (to_le 2 c.num_stripes ++ (to_le 2 unread.sub_stripes ++ encode_stripes c.stripes))
    num_stripes-At buf p c at =
        let fixed =
          to_le 8 c.length ++ (to_le 8 unread.owner ++ (to_le 8 c.stripe_len ++ to_le 8 c.ty)) in
        let (first, at1) = At-split buf p (p + 32) fixed _ refl at in
        (At-split buf (p + 32) (p + 44) unread.io _ (let size = fits.1 in omega arith) at1).1

    parse_chunk_item-encode_chunk :
        (r : ChunkRecord) → FitsRecord r → parse_chunk_item (encode_chunk r.chunk) ≡ returns r.chunk
    unfolding parse_chunk_item
    parse_chunk_item-encode_chunk r (logical, length, stripe_len, ty, n, count, stripes) =
        let c = r.chunk in
        let buf = encode_chunk c in
        let whole = At-whole buf in
        let (e1, at1) = At-le 8 buf 0 8 c.length _ refl length whole in
        let (e2, at2) = At-le 8 buf 8 16 unread.owner _ refl fits.0 at1 in
        let (e3, at3) = At-le 8 buf 16 24 c.stripe_len _ refl stripe_len at2 in
        let (e4, at4) = At-le 8 buf 24 32 c.ty _ refl ty at3 in
        let (e5, at5) = At-le 2 buf 44 46 c.num_stripes _ refl n (num_stripes-At buf 0 c whole) in
        let (e6, at6) = At-le 2 buf 46 48 unread.sub_stripes _ refl fits.2 at5 in
        let e7 : parse_stripes buf c.num_stripes 0 ≡ returns c.stripes =
          ap (λ (k : ℕ). parse_stripes buf k 0) (sym count)
          ∙ parse_stripes-At buf c.stripes 0 stripes at6 in
        rw e1 (rw e2 (rw e3 (rw e4 (rw e5 (rw e6 (rw e7 refl))))))

    sys_loop-encode_sys :
        (fuel : ℕ) (buf : Bytes) (pos : ℕ) (rs : List ChunkRecord) (rest : Bytes)
        → All FitsRecord rs
        → len rest < 65
        → len rs < fuel
        → len buf ≡ pos + len (encode_sys rs rest)
        → At buf pos (encode_sys rs rest)
        → sys_loop fuel buf pos ≡ returns (some rs)
    unfolding sys_loop sys_key sys_item sys_chunk push_record
    sys_loop-encode_sys zero buf pos rs rest h short enough size at = absurd (omega arith)
    sys_loop-encode_sys (suc fuel) buf pos [] rest h short enough size at =
        let end : leb (pos + 17 + 48) (len buf) ≡ false = ground arith in rw end refl
    sys_loop-encode_sys (suc fuel) buf pos (r ∷ rs) rest h short enough size at =
        let key : Key = record {
          objectid = unread.objectid;
          ty = chunk_item;
          offset = r.logical;
        } in
        let after = encode_chunk r.chunk ++ encode_sys rs rest in
        let (logical, length, stripe_len, ty, n, count, stripes) = h.0 in
        let chunk_len = length-encode_chunk r.chunk count in
        let joined = length-++ (encode_chunk r.chunk) (encode_sys rs rest) in
        let here = pos + 17 in
        let there = here + (48 + r.chunk.num_stripes * 32) in
        let total : len buf ≡ there + len (encode_sys rs rest) = omega arith in
        let more : leb (pos + 17 + 48) (len buf) ≡ true = ground arith in
        let (e1, at1) = parse_key-At buf pos here key after refl (fits.4, logical) at in
        let (chunk_at, at2) = At-split buf here there (encode_chunk r.chunk) _ (omega arith) at1 in
        let (e2, at3) =
          At-le 2 buf (here + 44) (here + 46) r.chunk.num_stripes _ (omega arith) n
            (num_stripes-At buf here r.chunk chunk_at) in
        let fit : ltb (len buf) there ≡ false = ground arith in
        let cut =
          slice-At buf here there (encode_chunk r.chunk) (omega arith) (omega arith) chunk_at in
        let item = parse_chunk_item-encode_chunk r h.0 in
        let tail = sys_loop-encode_sys fuel buf there rs rest h.1 short (omega arith) total at2 in
        rw more (rw e1 (rw e2 (rw fit (rw cut (rw item (rw tail refl))))))

    length-encode_sys : (rs : List ChunkRecord) (rest : Bytes) → len rs ≤ len (encode_sys rs rest)
    length-encode_sys [] rest = omega arith
    length-encode_sys (r ∷ rs) rest =
        let joined = length-++ (encode_chunk r.chunk) (encode_sys rs rest) in
        let more = length-encode_sys rs rest in omega arith

    -- Records that are written on disk one after the other, with fields in the range of their
    -- integers and with any values, the same in all records, in the fields that the parser passes
    -- over, and that are followed by fewer bytes than a record can have, are parsed again.
    pub parse_sys_chunks-encode_sys :
        (rs : List ChunkRecord) (rest : Bytes)
        → All FitsRecord rs
        → len rest < 65
        → parse_sys_chunks (encode_sys rs rest) ≡ returns (some rs)
    unfolding parse_sys_chunks
    parse_sys_chunks-encode_sys rs rest h short =
        let buf = encode_sys rs rest in
        let enough = length-encode_sys rs rest in
        sys_loop-encode_sys (suc (len buf)) buf 0 rs rest h short (omega arith) (omega arith)
          (At-whole buf)
