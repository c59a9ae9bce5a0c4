-- ===== src/Recovery/Engine/Rows.antt =====
-- Stripes of the array: the aligned blocks of the data disks in ascending order of their slots,
-- and their P and Q rows as sums: the specification for scrub-rs/src/recovery/engine.rs.
use rotshield.Prelude.{
  ℕ, suc, ◌-◌, ◌^◌, ◌≤◌, ◌<◌, ◌≡◌, ◌≢◌, refl, ap, ◌==◌, ==_ne, false, Bool-cases, inl, inr,
  if◌then◌else◌, List, [], ◌∷◌, Option, none, some, arith,
}
use rotshield.Recovery.Gf.Powers.{power, power-lt}
use rotshield.Recovery.Model.{Block}
use rotshield.Recovery.Engine.{xor_inplace}
use rotshield.Recovery.Engine.Blocks.{
  IsBlock, zeros, scale, zeros-IsBlock, xor-IsBlock, scale-IsBlock, xor_left_comm_blocks,
}

abbrev pub Stripe : Type 0
Stripe = List (ℕ × Block)

-- Blocks of n bytes at strictly ascending slots, the first not below `lo`, all below 2 ^ 31.
abbrev pub IsStripe : ℕ → ℕ → Stripe → Type 0
IsStripe n lo [] = Unit
IsStripe n lo ((s, b) ∷ r) = (lo ≤ s) × (s < 2 ^ 31) × IsBlock n b × IsStripe n (suc s) r

unfoldable pub find : ℕ → Stripe → Option Block
find k [] = none
find k ((s, b) ∷ r) = if s == k then some b else find k r

unfoldable pub without : ℕ → Stripe → Stripe
without k [] = []
without k ((s, b) ∷ r) = if s == k then without k r else (s, b) ∷ without k r

-- The sum of the blocks, each under a map that may depend on its slot.
unfoldable pub row : (ℕ → Block → Block) → ℕ → Stripe → Block
row f n [] = zeros n
row f n ((s, b) ∷ r) = xor_inplace (f s b) (row f n r)

abbrev pub plain : ℕ → Block → Block
plain s b = b

abbrev pub weighted : ℕ → Block → Block
weighted s b = scale (power (s - 1)) b

-- The P row is the exclusive or of the blocks; in the Q row slot s has the coefficient g^(s-1).
abbrev pub row_p : ℕ → Stripe → Block
row_p = row plain

abbrev pub row_q : ℕ → Stripe → Block
row_q = row weighted

pub IsStripe-from : (n lo lo' : ℕ) (r : Stripe) → lo' ≤ lo → IsStripe n lo r → IsStripe n lo' r
IsStripe-from n lo lo' [] h w = tt
IsStripe-from n lo lo' ((s, b) ∷ r) h w = (omega arith, w.1, w.2, w.3)

pub without-IsStripe : (n lo k : ℕ) (r : Stripe) → IsStripe n lo r → IsStripe n lo (without k r)
unfolding without
without-IsStripe n lo k [] w = tt
without-IsStripe n lo k ((s, b) ∷ r) w = elim (Bool-cases (s == k)) [
  | inl e ↦
      rw e (
        IsStripe-from n (suc s) lo (without k r) (omega arith) (without-IsStripe n (suc s) k r w.3))
  | inr e ↦ rw e (w.0, w.1, w.2, without-IsStripe n (suc s) k r w.3)
]

pub without_absent : (n lo k : ℕ) (r : Stripe) → k < lo → IsStripe n lo r → without k r ≡ r
unfolding without
without_absent n lo k [] h w = refl
without_absent n lo k ((s, b) ∷ r) h w =
    rw (==_ne s k (omega arith))
      (ap (λ (t : Stripe). (s, b) ∷ t) (without_absent n (suc s) k r (omega arith) w.3))

pub find-IsBlock :
    (n lo k : ℕ) (r : Stripe) (d : Block)
    → IsStripe n lo r
    → find k r ≡ some d
    → IsBlock n d × (lo ≤ k) × (k < 2 ^ 31)
unfolding find
find-IsBlock n lo k [] d w e = absurd (cc)
find-IsBlock n lo k ((s, b) ∷ r) d w e = elim (Bool-cases (s == k)) [
  | inl hit ↦
      let same : s ≡ k = ground arith in
      let found : b ≡ d = ground arith in rw (← found, ← same) (w.2, w.0, w.1)
  | inr miss ↦ later (find-IsBlock n (suc s) k r d w.3 (rw miss at e))
]
  where
    later : IsBlock n d × (suc s ≤ k) × (k < 2 ^ 31) → IsBlock n d × (lo ≤ k) × (k < 2 ^ 31)
    later h = (h.0, omega arith, h.2)

pub find-without_ne : (j k : ℕ) (r : Stripe) → j ≢ k → find j (without k r) ≡ find j r
unfolding find without
find-without_ne j k [] ne = refl
find-without_ne j k ((s, b) ∷ r) ne = elim (Bool-cases (s == k)) [
  | inl e ↦ let miss : (s == j) ≡ false = ground arith in rw (e, miss) (find-without_ne j k r ne)
  | inr e ↦ rw e (ap (λ t. if s == j then some b else t) (find-without_ne j k r ne))
]

pub find-without_self : (k : ℕ) (r : Stripe) → find k (without k r) ≡ none
unfolding find without
find-without_self k [] = refl
find-without_self k ((s, b) ∷ r) = elim (Bool-cases (s == k)) [
  | inl e ↦ rw e (find-without_self k r)
  | inr e ↦ rw (e, find) (rw e (find-without_self k r))
]

pub without_idem : (k : ℕ) (r : Stripe) → without k (without k r) ≡ without k r
unfolding without
without_idem k [] = refl
without_idem k ((s, b) ∷ r) = elim (Bool-cases (s == k)) [
  | inl e ↦ rw e (without_idem k r)
  | inr e ↦ rw (e, without) (rw e (ap (λ (t : Stripe). (s, b) ∷ t) (without_idem k r)))
]

pub without_comm : (j k : ℕ) (r : Stripe) → without j (without k r) ≡ without k (without j r)
unfolding without
without_comm j k [] = refl
without_comm j k ((s, b) ∷ r) = ground (arith, without_comm j k r)

module _ (n : ℕ) (f : ℕ → Block → Block)
    (keeps : (s : ℕ) (b : Block) → IsBlock n b → IsBlock n (f s b)) where
  pub row-IsBlock : (lo : ℕ) (r : Stripe) → IsStripe n lo r → IsBlock n (row f n r)
  unfolding row
  row-IsBlock lo [] w = zeros-IsBlock n
  row-IsBlock lo ((s, b) ∷ r) w =
      xor-IsBlock n (f s b) (row f n r) (keeps s b w.2) (row-IsBlock (suc s) r w.3)

  -- The row of a stripe is that of the other slots and one slot's share.
  pub row_split :
      (lo k : ℕ) (r : Stripe) (d : Block)
      → IsStripe n lo r
      → find k r ≡ some d
      → row f n r ≡ xor_inplace (f k d) (row f n (without k r))
  unfolding row find without
  row_split lo k [] d w e = absurd (cc)
  row_split lo k ((s, b) ∷ r) d w e = elim (Bool-cases (s == k)) [
    | inl hit ↦
        let same : s ≡ k = ground arith in
        let found : b ≡ d = ground arith in
        rw (hit, same, found, without_absent n (suc s) k r (omega arith) w.3) refl
    | inr miss ↦
        rw (miss, row_split (suc s) k r d w.3 (rw miss at e))
          (xor_left_comm_blocks n (f s b) (f k d) (row f n (without k r)) (keeps s b w.2)
            (keeps k d ((find-IsBlock n (suc s) k r d w.3 (rw miss at e)).0))
            (row-IsBlock (suc s) (without k r) (without-IsStripe n (suc s) k r w.3)))
  ]

pub plain-IsBlock : (n s : ℕ) (b : Block) → IsBlock n b → IsBlock n (plain s b)
plain-IsBlock n s b h = h

pub weighted-IsBlock : (n s : ℕ) (b : Block) → IsBlock n b → IsBlock n (weighted s b)
weighted-IsBlock n s b h = scale-IsBlock n (power (s - 1)) b (power-lt (s - 1)) h
