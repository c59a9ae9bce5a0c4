-- ===== src/Btrfs/Reader/Valid.antt =====
-- What a node that the reader of scrub-rs/src/btrfs/reader.rs returns has passed.
use rotshield.Prelude.{
  ℕ, suc, ◌≡◌, refl, sym, ap, subst, ◌∙◌, ◌&&◌, not, Bool, true, false, Bool-cases, inl, inr, List,
  [], ◌∷◌, Option, none, some,
}
use rotshield.Prelude.Io.{IoResult, ok, err}
use rotshield.Prelude.Panics.{returns, bind_returns}
use rotshield.Array.Config.{add_u64}
use rotshield.Btrfs.Bytes.{Bytes}
use rotshield.Btrfs.Node.{Header, Node, node_header, parse_header, parse_node}
use rotshield.Btrfs.Csum.{Digests, CsumStrategy, verify_node_header}
use rotshield.Btrfs.ChunkMap.{ChunkMap, lookup_stripes}
use rotshield.Btrfs.Reader.{
  FsReader, ReadNodeResult, Expected, Copies, no_copies, or_first, validate_header, keep_valid,
  keep_checked, keep_copy, read_copies, is_none, finish_checked, finish_chosen, finish_read,
  stripes_or_fake, read_with, read_node,
}
use rotshield.Btrfs.Reader.Headers.{Fits, StandsIn, parse_node-node_header, validate_header-Fits}

module _ (digests : Digests) (reader : FsReader) (strategy : CsumStrategy) (exp : Expected)
    (copies : List (ℕ × ℕ)) where
  abbrev Verified : Bytes → Bool → Type 0
  Verified buf b = verify_node_header digests strategy buf ≡ returns b

  -- The checksum of the copy is right, and its header is as expected.
  abbrev Good : Bytes → Type 0
  Good buf =
      StandsIn reader copies buf
      × Verified buf true
      × ((hdr : Header) × (parse_header buf ≡ returns hdr) × Fits reader exp hdr)

  abbrev Each : (Bytes → Type 0) → Option Bytes → Type 0
  Each P none = Unit
  Each P (some buf) = P buf

  abbrev Sorted : Copies → Type 0
  Sorted cs =
      Each Good cs.good
      × Each (λ b. Verified b true) cs.stale
      × Each (λ b. Verified b false) cs.corrupt

  Each-or_first :
      (P : Bytes → Type 0) (o : Option Bytes) (b : Bytes)
      → Each P o
      → P b
      → Each P (or_first o (some b))
  unfolding or_first
  Each-or_first P none b h p = p
  Each-or_first P (some c) b h p = h

  keep_copy-Sorted :
      (cs cs' : Copies) (res : IoResult Bytes)
      → ((buf : Bytes) → res ≡ ok buf → StandsIn reader copies buf)
      → Sorted cs
      → keep_copy digests reader strategy exp cs res ≡ returns cs'
      → Sorted cs'
  unfolding keep_copy keep_checked keep_valid
  keep_copy-Sorted cs cs' (err x) read h e = let same : cs ≡ cs' = cc in subst Sorted same h
  keep_copy-Sorted cs cs' (ok buf) read h e =
      let (valid, verified, rest) = bind_returns (verify_node_header digests strategy buf) e in
      checked valid verified rest
    where
      checked :
          (valid : Bool)
          → Verified buf valid
          → keep_checked digests reader strategy exp cs buf valid ≡ returns cs'
          → Sorted cs'
      checked false verified e =
          let same : record cs { corrupt = or_first cs.corrupt (some buf) } ≡ cs' = cc in
          subst Sorted same
            (h.0, h.1, Each-or_first (λ b. Verified b false) cs.corrupt buf h.2 verified)
      checked true verified e =
          let (hdr, head, rest) = bind_returns (parse_header buf) e in
          elim (Bool-cases (validate_header reader hdr exp)) [
            | inl fits ↦
                let same : record cs {
                  valid_count = suc cs.valid_count;
                  good = or_first cs.good (some buf);
                }
                    ≡ cs' =
                  cc (rw fits at rest) in
                subst Sorted same (
                  Each-or_first Good cs.good buf h.0 (
                    read buf refl,
                    verified,
                    (hdr, head, validate_header-Fits reader hdr exp fits),
                  ),
                  h.1,
                  h.2,
                )
            | inr old ↦
                let same : record cs {
                  valid_count = suc cs.valid_count;
                  stale = or_first cs.stale (some buf);
                }
                    ≡ cs' =
                  cc (rw old at rest) in
                subst Sorted same
                  (h.0, Each-or_first (λ b. Verified b true) cs.stale buf h.1 verified, h.2)
          ]

  read_copies-Sorted :
      (stripes : List (ℕ × ℕ)) (cs cs' : Copies)
      → ((buf : Bytes) → StandsIn reader stripes buf → StandsIn reader copies buf)
      → Sorted cs
      → read_copies digests reader strategy exp stripes cs ≡ returns cs'
      → Sorted cs'
  unfolding read_copies
  read_copies-Sorted [] cs cs' among h e = let same : cs ≡ cs' = cc in subst Sorted same h
  read_copies-Sorted ((devid, phys) ∷ stripes) cs cs' among h e =
      let res = reader.pread_at (add_u64 reader.base_offset phys) reader.node_size in
      let (next, first, rest) = bind_returns (keep_copy digests reader strategy exp cs res) e in
      read_copies-Sorted stripes next cs' (λ buf later. among buf (inr later))
        (keep_copy-Sorted cs next res (λ buf now. among buf (inl now)) h first) rest

  -- The node stands in a copy on the device with the right checksum, and its header is as expected.
  abbrev pub FromGood : Option Node → Type 0
  FromGood none = ⊥
  FromGood (some node) =
      Fits reader exp (node_header node)
      × ((buf : Bytes) × StandsIn reader copies buf
          × Verified buf true
          × (parse_node buf ≡ returns node))

  finish_checked-FromGood :
      (buf : Bytes) (stale mirror valid : Bool) (r : ReadNodeResult)
      → Verified buf valid
      → (valid ≡ true
          → StandsIn reader copies buf
            × ((hdr : Header) × (parse_header buf ≡ returns hdr) × Fits reader exp hdr))
      → finish_checked digests reader strategy exp buf stale mirror valid ≡ returns (ok r)
      → r.all_mirrors_failed ≡ false
      → FromGood r.node
  unfolding finish_checked
  finish_checked-FromGood buf stale mirror false r verified good e found =
      let failed : true ≡ r.all_mirrors_failed = cc in absurd (cc)
  finish_checked-FromGood buf stale mirror true r verified good e found =
      let (node, parsed, rest) = bind_returns (parse_node buf) e in
      let (stands, (hdr, head, fits)) = good refl in
      let same : some node ≡ r.node = cc in
      let same_header : hdr ≡ node_header node =
        let both = sym head ∙ parse_node-node_header buf node parsed in cc in
      subst FromGood same
        (subst (Fits reader exp) same_header fits, (buf, stands, verified, parsed))

  finish_checked_flag :
      (buf : Bytes) (stale mirror valid : Bool) (r : ReadNodeResult)
      → finish_checked digests reader strategy exp buf stale mirror valid ≡ returns (ok r)
      → r.generation_mismatch ≡ stale
  unfolding finish_checked
  finish_checked_flag buf stale mirror false r e = cc
  finish_checked_flag buf stale mirror true r e =
      let (node, parsed, rest) = bind_returns (parse_node buf) e in cc

  finish_chosen-FromGood :
      (good stale corrupt : Option Bytes) (mirror : Bool) (r : ReadNodeResult)
      → Each Good good
      → Each (λ b. Verified b false) corrupt
      → finish_chosen digests reader strategy exp
          (is_none digests reader strategy exp good
            && not (is_none digests reader strategy exp stale))
          mirror
          (or_first (or_first good stale) corrupt)
        ≡ returns (ok r)
      → r.all_mirrors_failed ≡ false
      → r.generation_mismatch ≡ false
      → FromGood r.node
  unfolding finish_chosen or_first is_none
  finish_chosen-FromGood (some b) stale corrupt mirror r h c e found fresh =
      let (valid, verified, rest) = bind_returns (verify_node_header digests strategy b) e in
      finish_checked-FromGood b false mirror valid r verified (λ yes. (h.0, h.2)) rest found
  finish_chosen-FromGood none (some b) corrupt mirror r h c e found fresh =
      let (valid, verified, rest) = bind_returns (verify_node_header digests strategy b) e in
      let flag = finish_checked_flag b true mirror valid r rest in absurd (cc)
  finish_chosen-FromGood none none (some b) mirror r h c e found fresh =
      let (valid, verified, rest) = bind_returns (verify_node_header digests strategy b) e in
      finish_checked-FromGood b false mirror valid r verified (λ yes. absurd (cc)) rest found
  finish_chosen-FromGood none none none mirror r h c e found fresh = absurd (cc)

-- Let the reader have a checksum strategy, and let read_node return a result that is flagged
-- neither as failed nor as stale. Then it has a node, the node's header has the address, the file
-- system's identifier, the level, the owner and the generation that were expected, as far as they
-- are given, and it was parsed from bytes whose header checksum is right and that the device gives
-- at one of the stripes of the expected address, or at 0 where no chunk has the address.
pub read_node-FromGood :
    (digests : Digests) (reader : FsReader) (chunk_map : ChunkMap) (exp : Expected)
    (strategy : CsumStrategy) (r : ReadNodeResult)
    → reader.strategy ≡ some strategy
    → read_node digests reader chunk_map exp ≡ returns (ok r)
    → r.all_mirrors_failed ≡ false
    → r.generation_mismatch ≡ false
    → FromGood digests reader strategy exp
        (stripes_or_fake (lookup_stripes chunk_map exp.logical))
        r.node
unfolding read_node read_with finish_read
read_node-FromGood digests reader chunk_map exp strategy r known e found fresh =
    let stripes = stripes_or_fake (lookup_stripes chunk_map exp.logical) in
    let with_strategy : read_with digests reader chunk_map exp (some strategy) ≡ returns (ok r) =
      ap (read_with digests reader chunk_map exp) (sym known) ∙ e in
    let (cs, copies, rest) =
      bind_returns (read_copies digests reader strategy exp stripes no_copies) with_strategy in
    let (good, stale, corrupt) =
      read_copies-Sorted digests reader strategy exp stripes stripes no_copies cs (λ buf here. here)
        (tt, tt, tt) copies in
    finish_chosen-FromGood digests reader strategy exp stripes cs.good cs.stale cs.corrupt _ r good
      corrupt rest found fresh
