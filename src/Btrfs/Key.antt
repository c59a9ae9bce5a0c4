-- ===== src/Btrfs/Key.antt =====
-- Keys and child pointers of scrub-rs/src/btrfs/key.rs. The constants of the tree objectids, of the
-- key types and of the chunk profiles stand where they are used.
use rotshield.Prelude.{ℕ, ◌+◌, ◌<◌, ◌≡◌, refl, ◌∷◌, ◌++◌, arith}
use rotshield.Prelude.Panics.{Panics, returns, ◌>>=◌}
use rotshield.Btrfs.Bytes.{Bytes, index, le_u64}
use rotshield.Btrfs.Bytes.At.{At, to_le, bound, At-le, At-byte}

pub record Key : Type 0 where
  pub objectid : ℕ
  pub ty : ℕ
  pub offset : ℕ

pub record KeyPtr : Type 0 where
  pub key : Key
  pub blockptr : ℕ
  pub generation : ℕ

unfoldable pub parse_key : Bytes → ℕ → Panics Key
parse_key buf pos = do
  objectid ← le_u64 buf pos
  ty ← index buf (pos + 8)
  offset ← le_u64 buf (pos + 9)
  returns (record { objectid = objectid; ty = ty; offset = offset })

unfoldable pub parse_key_ptr : Bytes → ℕ → Panics KeyPtr
parse_key_ptr buf pos = do
  key ← parse_key buf pos
  blockptr ← le_u64 buf (pos + 17)
  generation ← le_u64 buf (pos + 25)
  returns (record { key = key; blockptr = blockptr; generation = generation })

-- The layout on disk, and that the fields fit it.
abbrev pub encode_key : Key → Bytes → Bytes
encode_key k rest = to_le 8 k.objectid ++ (k.ty ∷ (to_le 8 k.offset ++ rest))

abbrev pub encode_key_ptr : KeyPtr → Bytes → Bytes
encode_key_ptr p rest = encode_key p.key (to_le 8 p.blockptr ++ (to_le 8 p.generation ++ rest))

abbrev pub FitsKey : Key → Type 0
FitsKey k = (k.objectid < bound 8) × (k.offset < bound 8)

abbrev pub FitsKeyPtr : KeyPtr → Type 0
FitsKeyPtr p = FitsKey p.key × (p.blockptr < bound 8) × (p.generation < bound 8)

pub parse_key-At :
    (buf : Bytes) (p q : ℕ) (k : Key) (rest : Bytes)
    → p + 17 ≡ q
    → FitsKey k
    → At buf p (encode_key k rest)
    → (parse_key buf p ≡ returns k) × At buf q rest
unfolding parse_key
parse_key-At buf p q k rest e fits at =
    let (first, at1) = At-le 8 buf p (p + 8) k.objectid _ refl fits.0 at in
    let (second, at2) = At-byte buf (p + 8) (p + 9) k.ty _ (omega arith) at1 in
    let (third, at3) = At-le 8 buf (p + 9) q k.offset rest (omega arith) fits.1 at2 in
    (rw first (rw second (rw third refl)), at3)

pub parse_key_ptr-At :
    (buf : Bytes) (p q : ℕ) (k : KeyPtr) (rest : Bytes)
    → p + 33 ≡ q
    → FitsKeyPtr k
    → At buf p (encode_key_ptr k rest)
    → (parse_key_ptr buf p ≡ returns k) × At buf q rest
unfolding parse_key_ptr
parse_key_ptr-At buf p q k rest e fits at =
    let (first, at1) = parse_key-At buf p (p + 17) k.key _ refl fits.0 at in
    let (second, at2) = At-le 8 buf (p + 17) (p + 25) k.blockptr _ (omega arith) fits.1 at1 in
    let (third, at3) = At-le 8 buf (p + 25) q k.generation rest (omega arith) fits.2 at2 in
    (rw first (rw second (rw third refl)), at3)
