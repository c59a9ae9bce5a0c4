-- ===== src/Btrfs/Csum/Seal.antt =====
-- What the header checksum of scrub-rs/src/btrfs/csum_strategy.rs accepts.
use rotshield.Prelude.{
  ℕ, ◌+◌, ◌≤◌, ◌<◌, ◌≡◌, refl, sym, ap, ap₂, ◌∙◌, ◌↔◌, leb, ==_refl, Bool, true, false, [], ◌∷◌,
  ◌++◌, length, some, arith,
}
use rotshield.Prelude.Io.{ok}
use rotshield.Prelude.Panics.{returns}
use rotshield.Btrfs.Bytes.{Bytes}
use rotshield.Btrfs.Bytes.At.{At-whole, At-split, slice-At, length-++}
use rotshield.Btrfs.Csum.{
  Digests, CsumType, hash_len_of, csum_type_of, bytes_eq, verify_digest, verify_header,
}

pub bytes_eq_lem : (xs ys : Bytes) → bytes_eq xs ys ≡ true → xs ≡ ys
unfolding bytes_eq
bytes_eq_lem [] [] h = refl
bytes_eq_lem [] (y ∷ ys) h = absurd (cc)
bytes_eq_lem (x ∷ xs) [] h = absurd (cc)
bytes_eq_lem (x ∷ xs) (y ∷ ys) h =
    let head : x ≡ y = ground arith in
    let tail : bytes_eq xs ys ≡ true = ground arith in
    ap₂ (λ (z : ℕ) (zs : Bytes). z ∷ zs) head (bytes_eq_lem xs ys tail)

pub bytes_eq_refl : (xs : Bytes) → bytes_eq xs xs ≡ true
unfolding bytes_eq
bytes_eq_refl [] = refl
bytes_eq_refl (x ∷ xs) = rw (==_refl x) (bytes_eq_refl xs)

pub hash_len_range : (t : CsumType) → (0 < hash_len_of t) × (hash_len_of t ≤ 32)
hash_len_range CsumType.crc32c = (omega arith, omega arith)
hash_len_range CsumType.xxhash = (omega arith, omega arith)
hash_len_range CsumType.sha256 = (omega arith, omega arith)
hash_len_range CsumType.blake2 = (omega arith, omega arith)

-- A block in the format of the disk: the hash, the rest of the 32 bytes, and the body. Let the hash
-- be as long as its type says, the first two parts together 32 bytes, and the body not empty. Then
-- the verification of the block returns true just when the hash is the digest of the body; it reads
-- nothing else.
pub verify_header_iff :
    (digests : Digests) (csum_type : ℕ) (t : CsumType) (hash pad body : Bytes)
    → csum_type_of csum_type ≡ some t
    → length hash ≡ hash_len_of t
    → length hash + length pad ≡ 32
    → 0 < length body
    → (verify_header digests csum_type (hash ++ (pad ++ body)) ≡ returns (ok true))
      ↔ (hash ≡ digests t body)
unfolding verify_header verify_digest
verify_header_iff digests csum_type t hash pad body known size prefix some_byte = (
  (λ e. bytes_eq_lem hash (digests t body) (cc (sym result ∙ e))),
  (λ same. result ∙ ap (λ (b : Bool). returns (ok b)) (matching same)),
)
  where
    buf : Bytes
    buf = hash ++ (pad ++ body)

    matching : hash ≡ digests t body → bytes_eq hash (digests t body) ≡ true
    matching same = ap (bytes_eq hash) (sym same) ∙ bytes_eq_refl hash

    result : verify_header digests csum_type buf ≡ returns (ok (bytes_eq hash (digests t body)))
    result =
        let range = hash_len_range t in
        let joined = length-++ hash (pad ++ body) in
        let joined' = length-++ pad body in
        let (at_hash, at1) =
          At-split buf 0 (hash_len_of t) hash (pad ++ body) (omega arith) (At-whole buf) in
        let (at_pad, at2) = At-split buf (hash_len_of t) 32 pad body (omega arith) at1 in
        let stored = slice-At buf 0 (hash_len_of t) hash (omega arith) (omega arith) at_hash in
        let rest = slice-At buf 32 (length buf) body some_byte (omega arith) at2 in
        let long : leb (length buf) 32 ≡ false = ground arith in
        rw long (rw known (rw stored (rw rest refl)))
