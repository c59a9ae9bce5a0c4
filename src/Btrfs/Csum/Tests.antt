-- ===== src/Btrfs/Csum/Tests.antt =====
-- An instance for scrub-rs/src/btrfs/csum_strategy.rs: a digest that is the length of the body.
use rotshield.Prelude.{◌≡◌, ◌↔◌, refl, true, [], ◌∷◌, ◌++◌, replicate, length, some, arith}
use rotshield.Prelude.Io.{ok}
use rotshield.Prelude.Panics.{returns}
use rotshield.Btrfs.Bytes.{Bytes}
use rotshield.Btrfs.Csum.{Digests, CsumType, hash_len_of, csum_type_of, verify_header}
use rotshield.Btrfs.Csum.Seal.{verify_header_iff}

abbrev digests : Digests
digests t bytes = replicate (hash_len_of t) (length bytes)

abbrev body : Bytes
body = 1 ∷ 2 ∷ 3 ∷ []

known : csum_type_of 1 ≡ some CsumType.xxhash
unfolding csum_type_of
known = refl

verify_header_iff_example :
    (verify_header digests 1 (replicate 8 3 ++ (replicate 24 0 ++ body)) ≡ returns (ok true))
    ↔ (replicate 8 3 ≡ digests CsumType.xxhash body)
verify_header_iff_example =
    verify_header_iff digests 1 CsumType.xxhash (replicate 8 3) (replicate 24 0) body known refl
      refl (omega arith)
