-- ===== src/Recovery/Engine/Loops.antt =====
-- The loops of scrub-rs/src/recovery/engine.rs over the other disks add a row to an accumulator.
use rotshield.Prelude.{
  ℕ, suc, ◌-◌, ◌^◌, ◌≤◌, ◌<◌, ◌≡◌, refl, sym, ap, ◌∙◌, ◌==◌, ==_refl, true, false, ◌||◌, Bool-cases,
  inl, inr, [], ◌∷◌, arith,
}
use rotshield.Prelude.Panics.{returns}
use rotshield.Recovery.Gf.Powers.{power, power-lt}
use rotshield.Recovery.Gf.Coefficients.{slot_coefficient}
use rotshield.Recovery.Model.{Block}
use rotshield.Recovery.Engine.{
  xor_inplace, gf_mul_xor_inplace, xor_others, xor_all, slot_coef, mul_xor_others, good_p, good_q,
}
use rotshield.Recovery.Engine.Blocks.{
  IsBlock, length-IsBlock, xor-IsBlock, xor_assoc_blocks, xor-zeros, gf_mul_xor_inplace-scale,
}
use rotshield.Recovery.Engine.Rows.{
  Stripe, IsStripe, without, row, plain, weighted, row_p, row_q, row-IsBlock, plain-IsBlock,
  weighted-IsBlock, without-IsStripe,
}

pub row_p-IsBlock : (n lo : ℕ) (r : Stripe) → IsStripe n lo r → IsBlock n (row_p n r)
row_p-IsBlock n lo r w = row-IsBlock n plain (plain-IsBlock n) lo r w

pub row_q-IsBlock : (n lo : ℕ) (r : Stripe) → IsStripe n lo r → IsBlock n (row_q n r)
row_q-IsBlock n lo r w = row-IsBlock n weighted (weighted-IsBlock n) lo r w

pub slot_coef-power : (s : ℕ) → 1 ≤ s → s < 2 ^ 31 → slot_coef s ≡ power (s - 1)
unfolding slot_coef
slot_coef-power s p q = slot_coefficient s p q

-- One round of the Q loop.
pub round_q :
    (n s : ℕ) (acc b : Block)
    → 1 ≤ s
    → s < 2 ^ 31
    → IsBlock n b
    → gf_mul_xor_inplace acc b (slot_coef s) ≡ xor_inplace acc (weighted s b)
round_q n s acc b p q h =
    ap (gf_mul_xor_inplace acc b) (slot_coef-power s p q)
    ∙ gf_mul_xor_inplace-scale n (power (s - 1)) acc b (power-lt (s - 1)) h

pub xor_all-row :
    (n lo : ℕ) (r : Stripe) (acc : Block)
    → IsStripe n lo r
    → IsBlock n acc
    → xor_all r acc ≡ xor_inplace acc (row_p n r)
unfolding xor_all row
xor_all-row n lo [] acc w h = sym (xor-zeros n acc h)
xor_all-row n lo ((s, b) ∷ r) acc w h =
    xor_all-row n (suc s) r (xor_inplace acc b) w.3 (xor-IsBlock n acc b h w.2)
    ∙ xor_assoc_blocks n acc b (row_p n r) h w.2 (row_p-IsBlock n (suc s) r w.3)

pub xor_others-xor_all :
    (n lo : ℕ) (r : Stripe) (acc : Block)
    → IsStripe n lo r
    → xor_others n r acc ≡ returns (xor_all r acc)
unfolding xor_others xor_all
xor_others-xor_all n lo [] acc w = refl
xor_others-xor_all n lo ((s, b) ∷ r) acc w =
    rw (length-IsBlock n b w.2, ==_refl n) (xor_others-xor_all n (suc s) r (xor_inplace acc b) w.3)

pub mul_xor_others-row :
    (n lo : ℕ) (r : Stripe) (acc : Block)
    → 1 ≤ lo
    → IsStripe n lo r
    → IsBlock n acc
    → mul_xor_others r acc ≡ xor_inplace acc (row_q n r)
unfolding mul_xor_others row
mul_xor_others-row n lo [] acc p w h = sym (xor-zeros n acc h)
mul_xor_others-row n lo ((s, b) ∷ r) acc p w h =
    ap (mul_xor_others r) (round_q n s acc b (omega arith) w.1 w.2)
    ∙ mul_xor_others-row n (suc s) r (xor_inplace acc (weighted s b)) (omega arith) w.3
        (xor-IsBlock n acc _ h (weighted-IsBlock n s b w.2))
    ∙ xor_assoc_blocks n acc (weighted s b) (row_q n r) h (weighted-IsBlock n s b w.2)
        (row_q-IsBlock n (suc s) r w.3)

-- The disks that are neither of two.
abbrev pub neither : ℕ → ℕ → Stripe → Stripe
neither j k r = without j (without k r)

neither-skip :
    (j k s : ℕ) (b : Block) (r : Stripe)
    → (s == j || s == k) ≡ true
    → neither j k ((s, b) ∷ r) ≡ neither j k r
unfolding without
neither-skip j k s b r h = elim (Bool-cases (s == k)) [
  | inl e ↦ rw e refl
  | inr e ↦ let hit : (s == j) ≡ true = ground arith in rw (e, without) (rw hit refl)
]

neither-keep :
    (j k s : ℕ) (b : Block) (r : Stripe)
    → (s == j || s == k) ≡ false
    → neither j k ((s, b) ∷ r) ≡ (s, b) ∷ neither j k r
unfolding without
neither-keep j k s b r h =
    let e : (s == k) ≡ false = ground arith in
    let f : (s == j) ≡ false = ground arith in rw (e, without) (rw f refl)

pub neither-IsStripe : (n lo j k : ℕ) (r : Stripe) → IsStripe n lo r → IsStripe n lo (neither j k r)
neither-IsStripe n lo j k r w = without-IsStripe n lo j (without k r) (without-IsStripe n lo k r w)

pub good_p-row :
    (n lo j k : ℕ) (r : Stripe) (acc : Block)
    → IsStripe n lo r
    → IsBlock n acc
    → good_p j k r acc ≡ xor_inplace acc (row_p n (neither j k r))
unfolding good_p
good_p-row n lo j k [] acc w h = unfold without row in sym (xor-zeros n acc h)
good_p-row n lo j k ((s, b) ∷ r) acc w h = elim (Bool-cases (s == j || s == k)) [
  | inl e ↦ rw (e, neither-skip j k s b r e) (good_p-row n (suc s) j k r acc w.3 h)
  | inr e ↦
      rw (e, neither-keep j k s b r e)
        (good_p-row n (suc s) j k r (xor_inplace acc b) w.3 (xor-IsBlock n acc b h w.2)
          ∙ xor_assoc_blocks n acc b (row_p n (neither j k r)) h w.2
              (row_p-IsBlock n (suc s) _ (neither-IsStripe n (suc s) j k r w.3))
          ∙ unfold row in refl)
]

pub good_q-row :
    (n lo j k : ℕ) (r : Stripe) (acc : Block)
    → 1 ≤ lo
    → IsStripe n lo r
    → IsBlock n acc
    → good_q j k r acc ≡ xor_inplace acc (row_q n (neither j k r))
unfolding good_q
good_q-row n lo j k [] acc p w h = unfold without row in sym (xor-zeros n acc h)
good_q-row n lo j k ((s, b) ∷ r) acc p w h = elim (Bool-cases (s == j || s == k)) [
  | inl e ↦ rw (e, neither-skip j k s b r e) (good_q-row n (suc s) j k r acc (omega arith) w.3 h)
  | inr e ↦
      rw (e, neither-keep j k s b r e, round_q n s acc b (omega arith) w.1 w.2)
        (good_q-row n (suc s) j k r (xor_inplace acc (weighted s b)) (omega arith) w.3
            (xor-IsBlock n acc _ h (weighted-IsBlock n s b w.2))
          ∙ xor_assoc_blocks n acc (weighted s b) (row_q n (neither j k r)) h
              (weighted-IsBlock n s b w.2)
              (row_q-IsBlock n (suc s) _ (neither-IsStripe n (suc s) j k r w.3))
          ∙ unfold row in refl)
]
