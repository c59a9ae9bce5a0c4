-- ===== src/Btrfs/Superblock/Blocks.antt =====
-- What a block of a superblock is, and what scrub-rs/src/btrfs/superblock.rs parses from it.
use rotshield.Prelude.{
  ℕ, ◌+◌, ◌≡◌, ◌≤◌, refl, sym, subst, ap, ◌∙◌, inl, inr, leb, Bool, true, false, Bool-cases, length,
  Option, none, some, arith,
}
use rotshield.Prelude.Io.{invalid_data, IoResult, ok, err}
use rotshield.Prelude.Panics.{Panics, returns, Gives}
use rotshield.Btrfs.Bytes.{Bytes, slice, le_u16, le_u32, le_u64}
use rotshield.Btrfs.Bytes.Inside.{slice_inside, le_at_inside}
use rotshield.Btrfs.Csum.{
  Digests, CsumType, hash_len_of, csum_type_of, bytes_eq, verify_digest, verify_header,
}
use rotshield.Btrfs.Csum.Seal.{bytes_eq_lem, bytes_eq_refl, hash_len_range}
use rotshield.Btrfs.Superblock.{
  Superblock, btrfs_magic, parse_fields, with_sys_chunks, header_checked,
}

-- The hash at the start of the block is the digest of what follows its first 32 bytes.
abbrev pub IsSealed : Digests → ℕ → Bytes → Type 0
IsSealed digests csum_type buf =
    (t : CsumType) × (hash : Bytes) × (body : Bytes) × (csum_type_of csum_type ≡ some t)
    × (slice buf 0 (hash_len_of t) ≡ returns hash)
    × (slice buf 32 4096 ≡ returns body)
    × (hash ≡ digests t body)

-- The block has the magic, its hash, and a system chunk array that it holds.
abbrev pub IsSuperblock : Digests → Bytes → Type 0
IsSuperblock digests buf =
    (csum_type : ℕ) × (size : ℕ) × (slice buf 64 72 ≡ returns btrfs_magic)
    × (le_u16 buf 196 ≡ returns csum_type)
    × IsSealed digests csum_type buf
    × (le_u32 buf 160 ≡ returns size)
    × (811 + size ≤ 4096)

-- The fields of the superblock are those at their places in the block.
abbrev pub IsParsed : Bytes → Superblock → Type 0
IsParsed buf sb =
    (slice buf 32 48 ≡ returns sb.fsid)
    × (le_u64 buf 48 ≡ returns sb.bytenr)
    × (slice buf 64 72 ≡ returns sb.magic)
    × (le_u64 buf 72 ≡ returns sb.generation)
    × (le_u64 buf 80 ≡ returns sb.root)
    × (le_u64 buf 88 ≡ returns sb.chunk_root)
    × (le_u64 buf 112 ≡ returns sb.total_bytes)
    × (le_u64 buf 120 ≡ returns sb.bytes_used)
    × (le_u64 buf 136 ≡ returns sb.num_devices)
    × (le_u32 buf 144 ≡ returns sb.sector_size)
    × (le_u32 buf 148 ≡ returns sb.node_size)
    × (le_u32 buf 156 ≡ returns sb.stripesize)
    × (le_u32 buf 160 ≡ returns sb.sys_chunk_array_size)
    × (le_u64 buf 164 ≡ returns sb.chunk_root_generation)
    × (le_u16 buf 196 ≡ returns sb.csum_type)
    × (le_u64 buf 201 ≡ returns sb.devid)
    × (slice buf 811 (811 + sb.sys_chunk_array_size) ≡ returns sb.sys_chunks)

pub unwrap {ℓ} : {A : Type ℓ} {x y : A} (m : Panics A) → m ≡ returns x → m ≡ returns y → x ≡ y
unwrap m e f = let same = sym e ∙ f in cc

-- What the parsing of a block gives.
abbrev pub ParseOf : Digests → Bytes → IoResult Superblock → Type 0
ParseOf digests buf (ok sb) = IsSuperblock digests buf × IsParsed buf sb
ParseOf digests buf (err e) = ¬ IsSuperblock digests buf

module _ (buf : Bytes) (whole : length buf ≡ 4096) where
  parse_fields-IsParsed :
      (magic fsid sys_chunks : Bytes) (size csum_type : ℕ)
      → slice buf 64 72 ≡ returns magic
      → slice buf 32 48 ≡ returns fsid
      → slice buf 811 (811 + size) ≡ returns sys_chunks
      → le_u32 buf 160 ≡ returns size
      → le_u16 buf 196 ≡ returns csum_type
      → Gives (IsParsed buf) (parse_fields buf magic fsid sys_chunks size csum_type)
  unfolding parse_fields
  parse_fields-IsParsed magic fsid sys_chunks size csum_type f1 f2 f3 f4 f5 =
      let (bytenr, e1) = le_at_inside 8 buf 48 (omega arith) in
      let (generation, e2) = le_at_inside 8 buf 72 (omega arith) in
      let (root, e3) = le_at_inside 8 buf 80 (omega arith) in
      let (chunk_root, e4) = le_at_inside 8 buf 88 (omega arith) in
      let (total_bytes, e5) = le_at_inside 8 buf 112 (omega arith) in
      let (bytes_used, e6) = le_at_inside 8 buf 120 (omega arith) in
      let (num_devices, e7) = le_at_inside 8 buf 136 (omega arith) in
      let (sector_size, e8) = le_at_inside 4 buf 144 (omega arith) in
      let (node_size, e9) = le_at_inside 4 buf 148 (omega arith) in
      let (stripesize, e10) = le_at_inside 4 buf 156 (omega arith) in
      let (chunk_generation, e11) = le_at_inside 8 buf 164 (omega arith) in
      let (devid, e12) = le_at_inside 8 buf 201 (omega arith) in
      (
        record {
          fsid = fsid;
          bytenr = bytenr;
          magic = magic;
          generation = generation;
          root = root;
          chunk_root = chunk_root;
          total_bytes = total_bytes;
          bytes_used = bytes_used;
          num_devices = num_devices;
          sector_size = sector_size;
          node_size = node_size;
          stripesize = stripesize;
          sys_chunk_array_size = size;
          chunk_root_generation = chunk_generation;
          csum_type = csum_type;
          devid = devid;
          sys_chunks = sys_chunks;
        },
        rw e1 (
            rw e2 (
              rw e3
                (rw e4 (rw e5 (rw e6 (rw e7 (rw e8 (rw e9 (rw e10 (rw e11 (rw e12 refl))))))))))),
        (f2, e1, f1, e2, e3, e4, e5, e6, e7, e8, e9, e10, f4, e11, f5, e12, f3),
      )

  module _ (digests : Digests) (magic : Bytes) (csum_type : ℕ)
      (is_magic : slice buf 64 72 ≡ returns magic)
      (is_type : le_u16 buf 196 ≡ returns csum_type) where
    not_sealed : ¬ IsSealed digests csum_type buf → ¬ IsSuperblock digests buf
    not_sealed bad (t, size, m, same_type, sealed, rest, fits) = bad (
        subst (λ (x : ℕ). IsSealed digests x buf) (unwrap (le_u16 buf 196) same_type is_type)
          sealed)

    header_checked-ParseOf :
        magic ≡ btrfs_magic
        → IsSealed digests csum_type buf
        → Gives (ParseOf digests buf) (header_checked buf magic csum_type (ok true))
    unfolding header_checked with_sys_chunks
    header_checked-ParseOf good sealed =
        let (fsid, e1, len, part) = slice_inside buf 32 48 (omega arith) (omega arith) in
        let (size, e2) = le_at_inside 4 buf 160 (omega arith) in
        elim (Bool-cases (leb (811 + size) (length buf))) [
          | inl fits ↦
              let (sys_chunks, cut, len', part') =
                slice_inside buf 811 (811 + size) (omega arith) (ground arith) in
              let (sb, fields, parsed) =
                parse_fields-IsParsed magic fsid sys_chunks size csum_type is_magic e1 cut e2
                  is_type in
              (
                ok sb,
                rw e1 (rw e2 (rw fits (rw cut (rw fields refl)))),
                (
                  (csum_type, size, is_magic ∙ ap returns good, is_type, sealed, e2, ground arith),
                  parsed,
                ),
              )
          | inr over ↦ (
            err invalid_data,
            rw e1 (rw e2 (rw over refl)),
            λ (t, size', m, same_type, sealed', same_size, fits).
                let same = unwrap (le_u32 buf 160) same_size e2 in ground arith,
          )
        ]

    -- The verification of the checksum, and what is made of it.
    pub sealed-ParseOf :
        magic ≡ btrfs_magic
        → (valid : IoResult Bool) × (verify_header digests csum_type buf ≡ returns valid)
          × Gives (ParseOf digests buf) (header_checked buf magic csum_type valid)
    unfolding verify_header verify_digest header_checked
    sealed-ParseOf good =
        let long : leb (length buf) 32 ≡ false = ground arith in
        rw long (by_type (csum_type_of csum_type) refl)
      where
        by_type :
            (o : Option CsumType)
            → csum_type_of csum_type ≡ o
            → (valid : IoResult Bool) × (elim o [
              | none ↦ returns (err invalid_data)
              | some t ↦ verify_digest digests t buf
            ]
                ≡ returns valid)
              × Gives (ParseOf digests buf) (header_checked buf magic csum_type valid)
        by_type none e = (
          err invalid_data,
          refl,
          (
            err invalid_data,
            refl,
            not_sealed (λ (t, hash, body, known, at_hash, at_body, same). cc),
          ),
        )
        by_type (some t) e =
            let range = hash_len_range t in
            let (hash, e1, l1, p1) =
              slice_inside buf 0 (hash_len_of t) (omega arith) (omega arith) in
            let (body, e2, l2, p2) = slice_inside buf 32 (length buf) (omega arith) (omega arith) in
            let e2' : slice buf 32 4096 ≡ returns body = ap (slice buf 32) (sym whole) ∙ e2 in
            elim (Bool-cases (bytes_eq hash (digests t body))) [
              | inl fits ↦ (
                ok true,
                rw e1 (rw e2 (rw fits refl)),
                header_checked-ParseOf good
                    (t, hash, body, e, e1, e2', bytes_eq_lem hash (digests t body) fits),
              )
              | inr differs ↦ (
                ok false,
                rw e1 (rw e2 (rw differs refl)),
                (err invalid_data, refl, not_sealed (unsealed t hash body e e1 e2' differs)),
              )
            ]
          where
            unsealed :
                (t : CsumType) (hash body : Bytes)
                → csum_type_of csum_type ≡ some t
                → slice buf 0 (hash_len_of t) ≡ returns hash
                → slice buf 32 4096 ≡ returns body
                → bytes_eq hash (digests t body) ≡ false
                → ¬ IsSealed digests csum_type buf
            unsealed t hash body e e1 e2 differs (t', hash', body', known, at_hash, at_body, same) =
                let one_type : t' ≡ t = (let both = sym known ∙ e in cc) in
                let at_hash' : slice buf 0 (hash_len_of t) ≡ returns hash' =
                  subst (λ (x : CsumType). slice buf 0 (hash_len_of x) ≡ returns hash') one_type
                    at_hash in
                let one_hash : hash' ≡ hash = unwrap (slice buf 0 (hash_len_of t)) at_hash' e1 in
                let one_body : body' ≡ body = unwrap (slice buf 32 4096) at_body e2 in
                let matching : hash ≡ digests t body = cc in
                let equal : bytes_eq hash (digests t body) ≡ true =
                  ap (bytes_eq hash) (sym matching) ∙ bytes_eq_refl hash in
                absurd (cc)
