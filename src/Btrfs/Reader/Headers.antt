-- ===== src/Btrfs/Reader/Headers.antt =====
-- The header that the reader of scrub-rs/src/btrfs/reader.rs expects, and where it stands.
use rotshield.Prelude.{
  ℕ, ◌≡◌, ap, ◌∙◌, ◌==◌, Bool, true, false, Bool-cases, ◌⊎◌, inl, inr, if◌then◌else◌, List, [], ◌∷◌,
  Option, none, some, arith,
}
use rotshield.Prelude.Io.{ok}
use rotshield.Prelude.Panics.{returns, bind_returns}
use rotshield.Array.Config.{add_u64}
use rotshield.Btrfs.Bytes.{Bytes}
use rotshield.Btrfs.Node.{
  Header, Node, leaf, internal, node_header, parse_header, parse_node, parse_leaf, parse_internal,
  parse_slots, parse_ptrs,
}
use rotshield.Btrfs.Csum.{bytes_eq}
use rotshield.Btrfs.Csum.Seal.{bytes_eq_lem}
use rotshield.Btrfs.Reader.{gen_dont_check, FsReader, Expected, if_given, validate_header}

-- The header of a parsed node is the one at its start.
pub parse_node-node_header :
    (buf : Bytes) (node : Node)
    → parse_node buf ≡ returns node
    → parse_header buf ≡ returns (node_header node)
unfolding parse_node parse_leaf parse_internal node_header
parse_node-node_header buf node e =
    let (hdr, head, rest) = bind_returns (parse_header buf) e in
    head ∙ ap returns (same hdr (Bool-cases (hdr.level == 0)) rest)
  where
    leaf_header : (hdr : Header) → parse_leaf buf hdr ≡ returns node → hdr ≡ node_header node
    leaf_header hdr e =
        let (slots, items, done) =
          bind_returns {f = λ x. returns (leaf (record { header = hdr; slots = x; buf = buf }))}
            (parse_slots buf hdr.nritems 0) e in
        let made : leaf (record { header = hdr; slots = slots; buf = buf }) ≡ node = cc in
        ap node_header made

    internal_header :
        (hdr : Header) → parse_internal buf hdr ≡ returns node → hdr ≡ node_header node
    internal_header hdr e =
        let (ptrs, items, done) =
          bind_returns {f = λ x. returns (internal (record { header = hdr; ptrs = x }))}
            (parse_ptrs buf hdr.nritems 0) e in
        let made : internal (record { header = hdr; ptrs = ptrs }) ≡ node = cc in
        ap node_header made

    same :
        (hdr : Header)
        → ((hdr.level == 0) ≡ true) ⊎ ((hdr.level == 0) ≡ false)
        → (if hdr.level == 0 then parse_leaf buf hdr else parse_internal buf hdr) ≡ returns node
        → hdr ≡ node_header node
    same hdr (inl bottom) e = leaf_header hdr (rw bottom at e)
    same hdr (inr above) e = internal_header hdr (rw above at e)

-- A value that is given is the one at hand.
abbrev pub AsGiven {ℓ} : {A : Type ℓ} → Option A → A → Type ℓ
AsGiven none a = Unit
AsGiven (some given) a = a ≡ given

-- The header has the address, and as far as they are given the file system's identifier, the level,
-- the owner and the generation that are expected.
abbrev pub Fits : FsReader → Expected → Header → Type 0
Fits reader exp hdr =
    (hdr.bytenr ≡ exp.logical)
    × AsGiven reader.fsid hdr.fsid
    × AsGiven exp.level hdr.level
    × AsGiven exp.owner hdr.owner
    × ((exp.generation ≡ gen_dont_check) ⊎ (hdr.generation ≡ exp.generation))

if_given-AsGiven {ℓ} :
    {A : Type ℓ} (test : A → Bool) (o : Option A) (a : A)
    → ((given : A) → test given ≡ true → a ≡ given)
    → if_given test o ≡ true
    → AsGiven o a
unfolding if_given
if_given-AsGiven test none a sound h = tt
if_given-AsGiven test (some given) a sound h = sound given h

pub validate_header-Fits :
    (reader : FsReader) (hdr : Header) (exp : Expected)
    → validate_header reader hdr exp ≡ true
    → Fits reader exp hdr
unfolding validate_header
validate_header-Fits reader hdr exp h =
    let fsid : if_given (bytes_eq hdr.fsid) reader.fsid ≡ true = ground arith in
    let level : if_given (λ lvl. hdr.level == lvl) exp.level ≡ true = ground arith in
    let owner : if_given (λ owner. hdr.owner == owner) exp.owner ≡ true = ground arith in
    (
      ground arith,
      if_given-AsGiven (bytes_eq hdr.fsid) reader.fsid hdr.fsid (bytes_eq_lem hdr.fsid) fsid,
      if_given-AsGiven (λ lvl. hdr.level == lvl) exp.level hdr.level (λ v t. ground arith) level,
      if_given-AsGiven (λ owner. hdr.owner == owner) exp.owner hdr.owner (λ v t. ground arith)
          owner,
      elim (Bool-cases (exp.generation == gen_dont_check)) [
        | inl any ↦ inl (ground arith)
        | inr some_one ↦ inr (ground arith)
      ],
    )

-- The bytes are those that the device gives for one of these stripes.
abbrev pub StandsIn : FsReader → List (ℕ × ℕ) → Bytes → Type 0
StandsIn reader [] buf = ⊥
StandsIn reader ((devid, phys) ∷ stripes) buf =
    (reader.pread_at (add_u64 reader.base_offset phys) reader.node_size ≡ ok buf)
    ⊎ StandsIn reader stripes buf
