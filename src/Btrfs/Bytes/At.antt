-- ===== src/Btrfs/Bytes/At.antt =====
-- Bytes at a position: the encoding that the readers of scrub-rs/src/btrfs/util.rs undo.
use rotshield.Prelude.{
  ℕ, zero, suc, ◌+◌, ◌-◌, ◌*◌, ◌/◌, ◌%◌, ◌≤◌, ◌<◌, ◌≡◌, refl, ap, subst, leb, ◌&&◌, true, [], ◌∷◌,
  ◌++◌, length, arith,
}
use rotshield.Prelude.Panics.{returns}
use rotshield.Btrfs.Bytes.{Bytes, index, bytes_at, slice, from_le_bytes, le_at, le_range}

-- The bytes stand in the buffer from the position on.
unfoldable pub At : Bytes → ℕ → Bytes → Type 0
At buf pos [] = Unit
At buf pos (b ∷ bs) = (index buf pos ≡ returns b) × At buf (suc pos) bs

pub length-++ : (xs ys : Bytes) → length (xs ++ ys) ≡ length xs + length ys
length-++ [] ys = omega arith
length-++ (x ∷ xs) ys = omega (arith, length-++ xs ys)

-- The n bytes of a number, the lowest first, and the bound under which nothing is lost.
abbrev pub to_le : ℕ → ℕ → Bytes
to_le zero v = []
to_le (suc n) v = v % 256 ∷ to_le n (v / 256)

abbrev pub bound : ℕ → ℕ
bound zero = 1
bound (suc n) = 256 * bound n

pub length-to_le : (n v : ℕ) → length (to_le n v) ≡ n
length-to_le zero v = refl
length-to_le (suc n) v = ap suc (length-to_le n (v / 256))

from_le-to_le : (n v : ℕ) → v < bound n → from_le_bytes (to_le n v) ≡ v
unfolding from_le_bytes
from_le-to_le zero v h = omega arith
from_le-to_le (suc n) v h =
    let high = from_le-to_le n (v / 256) (omega arith) in rw high (omega arith)

-- One part after the other.
pub At-split :
    (buf : Bytes) (p q : ℕ) (xs ys : Bytes)
    → p + length xs ≡ q
    → At buf p (xs ++ ys)
    → At buf p xs × At buf q ys
unfolding At
At-split buf p q [] ys e h = (tt, subst (λ (r : ℕ). At buf r ys) (omega arith) h)
At-split buf p q (x ∷ xs) ys e h =
    let (left, right) = At-split buf (suc p) q xs ys (omega arith) h.1 in ((h.0, left), right)

At-skip : (b : ℕ) (buf bs : Bytes) (p : ℕ) → At buf p bs → At (b ∷ buf) (suc p) bs
unfolding At index
At-skip b buf [] p h = tt
At-skip b buf (x ∷ bs) p h = (h.0, At-skip b buf bs (suc p) h.1)

pub At-whole : (bs : Bytes) → At bs 0 bs
unfolding At index
At-whole [] = tt
At-whole (b ∷ bs) = (refl, At-skip b bs bs 0 (At-whole bs))

pub bytes_at-At :
    (buf : Bytes) (p n : ℕ) (bs : Bytes)
    → length bs ≡ n
    → At buf p bs
    → bytes_at buf p n ≡ returns bs
unfolding At bytes_at
bytes_at-At buf p zero [] e h = refl
bytes_at-At buf p zero (b ∷ bs) e h = absurd (omega arith)
bytes_at-At buf p (suc n) [] e h = absurd (omega arith)
bytes_at-At buf p (suc n) (b ∷ bs) e h =
    rw h.0 (rw (bytes_at-At buf (suc p) n bs (omega arith) h.1) refl)

index-below : (buf : Bytes) (p b : ℕ) → index buf p ≡ returns b → p < length buf
unfolding index
index-below [] p b e = absurd (cc)
index-below (x ∷ buf) zero b e = omega arith
index-below (x ∷ buf) (suc p) b e = omega (arith, index-below buf p b e)

At-below :
    (buf : Bytes) (p : ℕ) (bs : Bytes) → 0 < length bs → At buf p bs → p + length bs ≤ length buf
unfolding At
At-below buf p [] some_byte h = absurd (omega arith)
At-below buf p (b ∷ []) some_byte h = omega (arith, index-below buf p b h.0)
At-below buf p (b ∷ c ∷ bs) some_byte h =
    let rest = At-below buf (suc p) (c ∷ bs) (omega arith) h.1 in omega arith

pub slice-At :
    (buf : Bytes) (p q : ℕ) (bs : Bytes)
    → 0 < length bs
    → p + length bs ≡ q
    → At buf p bs
    → slice buf p q ≡ returns bs
unfolding slice
slice-At buf p q bs some_byte e h =
    let inside = At-below buf p bs some_byte h in
    let test : (leb p q && leb q (length buf)) ≡ true = ground arith in
    rw test (bytes_at-At buf p (q - p) bs (omega arith) h)

-- A number that was written with n bytes is read again.
pub le_at-At :
    (n : ℕ) (buf : Bytes) (p v : ℕ) → v < bound n → At buf p (to_le n v) → le_at n buf p ≡ returns v
unfolding le_at
le_at-At n buf p v h at =
    rw (bytes_at-At buf p n (to_le n v) (length-to_le n v) at) (ap returns (from_le-to_le n v h))

le_range-At :
    (n : ℕ) (buf : Bytes) (p q v : ℕ)
    → 0 < n
    → p + n ≡ q
    → v < bound n
    → At buf p (to_le n v)
    → le_range buf p q ≡ returns v
unfolding le_range
le_range-At n buf p q v wide e h at =
    let size = length-to_le n v in
    rw (slice-At buf p q (to_le n v) (omega arith) (omega arith) at)
      (ap returns (from_le-to_le n v h))

-- The first field of what follows, read in the one way and in the other, and the rest.
pub At-le :
    (n : ℕ) (buf : Bytes) (p q v : ℕ) (rest : Bytes)
    → p + n ≡ q
    → v < bound n
    → At buf p (to_le n v ++ rest)
    → (le_at n buf p ≡ returns v) × At buf q rest
At-le n buf p q v rest e h at =
    let size = length-to_le n v in
    let (field, after) = At-split buf p q (to_le n v) rest (omega arith) at in
    (le_at-At n buf p v h field, after)

pub At-range :
    (n : ℕ) (buf : Bytes) (p q v : ℕ) (rest : Bytes)
    → 0 < n
    → p + n ≡ q
    → v < bound n
    → At buf p (to_le n v ++ rest)
    → (le_range buf p q ≡ returns v) × At buf q rest
At-range n buf p q v rest wide e h at =
    let size = length-to_le n v in
    let (field, after) = At-split buf p q (to_le n v) rest (omega arith) at in
    (le_range-At n buf p q v wide e h field, after)

pub At-slice :
    (buf : Bytes) (p q : ℕ) (bs rest : Bytes)
    → 0 < length bs
    → p + length bs ≡ q
    → At buf p (bs ++ rest)
    → (slice buf p q ≡ returns bs) × At buf q rest
At-slice buf p q bs rest some_byte e at =
    let (field, after) = At-split buf p q bs rest e at in
    (slice-At buf p q bs some_byte e field, after)

pub At-byte :
    (buf : Bytes) (p q b : ℕ) (rest : Bytes)
    → suc p ≡ q
    → At buf p (b ∷ rest)
    → (index buf p ≡ returns b) × At buf q rest
unfolding At
At-byte buf p q b rest e at = (at.0, subst (λ (r : ℕ). At buf r rest) e at.1)
