-- ===== src/Btrfs/Bytes/Inside.antt =====
-- Reads of scrub-rs/src/btrfs/util.rs that stay inside the buffer do not panic.
use rotshield.Prelude.{
  ℕ, zero, suc, ◌+◌, ◌-◌, ◌≤◌, ◌<◌, ◌≡◌, refl, sym, ap, ◌∙◌, leb, ◌&&◌, true, [], ◌∷◌, length,
  arith,
}
use rotshield.Prelude.Panics.{returns}
use rotshield.Btrfs.Bytes.{Bytes, index, bytes_at, slice, le_at, from_le_bytes}

pub index_inside : (buf : Bytes) (p : ℕ) → p < length buf → (b : ℕ) × (index buf p ≡ returns b)
unfolding index
index_inside [] p h = absurd (omega arith)
index_inside (b ∷ buf) zero h = (b, refl)
index_inside (b ∷ buf) (suc p) h = index_inside buf p (omega arith)

-- The second list has the bytes of the first from p on.
abbrev pub IsPart : Bytes → ℕ → Bytes → Type 0
IsPart buf p bs = (i : ℕ) → i < length bs → index bs i ≡ index buf (p + i)

bytes_at_inside :
    (buf : Bytes) (p n : ℕ)
    → p + n ≤ length buf
    → (bs : Bytes) × (bytes_at buf p n ≡ returns bs) × (length bs ≡ n) × IsPart buf p bs
unfolding bytes_at index
bytes_at_inside buf p zero h = ([], refl, refl, λ i below. absurd (omega arith))
bytes_at_inside buf p (suc n) h =
    let (b, first) = index_inside buf p (omega arith) in
    let (bs, rest, size, part) = bytes_at_inside buf (suc p) n (omega arith) in
    (b ∷ bs, rw first (rw rest refl), ap suc size, part_suc b bs first part)
  where
    part_suc :
        (b : ℕ) (bs : Bytes)
        → index buf p ≡ returns b
        → IsPart buf (suc p) bs
        → IsPart buf p (b ∷ bs)
    part_suc b bs first part zero below = let here : p + 0 ≡ p = omega arith in rw here (sym first)
    part_suc b bs first part (suc i) below =
        let there : p + suc i ≡ suc p + i = omega arith in rw there (part i (omega arith))

pub slice_inside :
    (buf : Bytes) (p q : ℕ)
    → p ≤ q
    → q ≤ length buf
    → (bs : Bytes) × (slice buf p q ≡ returns bs) × (length bs ≡ q - p) × IsPart buf p bs
unfolding slice
slice_inside buf p q order h =
    let test : (leb p q && leb q (length buf)) ≡ true = ground arith in
    let (bs, reads, size, part) = bytes_at_inside buf p (q - p) (omega arith) in
    (bs, rw test reads, size, part)

pub le_at_inside :
    (n : ℕ) (buf : Bytes) (p : ℕ) → p + n ≤ length buf → (v : ℕ) × (le_at n buf p ≡ returns v)
unfolding le_at
le_at_inside n buf p h =
    let (bs, reads, size, part) = bytes_at_inside buf p n h in (from_le_bytes bs, rw reads refl)

bytes_at-IsPart :
    (buf bs : Bytes) (p : ℕ)
    → IsPart buf p bs
    → (n i : ℕ) → i + n ≤ length bs
    → bytes_at bs i n ≡ bytes_at buf (p + i) n
unfolding bytes_at
bytes_at-IsPart buf bs p part zero i h = refl
bytes_at-IsPart buf bs p part (suc n) i h =
    let first = part i (omega arith) in
    let rest : bytes_at bs (suc i) n ≡ bytes_at buf (suc (p + i)) n =
      bytes_at-IsPart buf bs p part n (suc i) (omega arith)
      ∙ ap (λ (k : ℕ). bytes_at buf k n) (omega arith) in
    rw first (rw rest refl)

pub le_at-IsPart :
    (buf bs : Bytes) (p : ℕ)
    → IsPart buf p bs
    → (n i : ℕ) → i + n ≤ length bs
    → le_at n bs i ≡ le_at n buf (p + i)
unfolding le_at
le_at-IsPart buf bs p part n i h = rw (bytes_at-IsPart buf bs p part n i h) refl
