-- ===== src/Recovery/Gf/Coefficients.antt =====
-- `gf_exp` of scrub-rs/src/recovery/gf.rs at the 32-bit exponents that a slot number gives.
use rotshield.Prelude.{ℕ, ◌+◌, ◌-◌, ◌%◌, ◌^◌, ◌≤◌, ◌<◌, ◌≡◌, refl, sym, ap, ◌∙◌, false, arith}
use rotshield.Recovery.Gf.{gfexp, gf_exp, as_i32, sub_i32, neg_i32, is_negative, rem_euclid}
use rotshield.Recovery.Gf.Field.{◌⊗◌}
use rotshield.Recovery.Gf.Powers.{power, power-add, power-mod, power-lt}
use rotshield.Recovery.Gf.Tables.{gfexp-power}

pub gf_exp-power : (e : ℕ) → e < 2 ^ 31 → gf_exp e ≡ power e
unfolding gf_exp rem_euclid is_negative
gf_exp-power e h =
    ap gfexp (let r : rem_euclid e 255 ≡ e % 255 = ground arith in r)
    ∙ gfexp-power (e % 255) (omega arith)
    ∙ power-mod e

pub slot_exponent : (s : ℕ) → 1 ≤ s → s < 2 ^ 31 → sub_i32 (as_i32 s) 1 ≡ s - 1
unfolding sub_i32 as_i32
slot_exponent s p q = omega arith

-- The coefficient of slot s in the row syndrome is g^(s-1).
pub slot_coefficient : (s : ℕ) → 1 ≤ s → s < 2 ^ 31 → gf_exp (sub_i32 (as_i32 s) 1) ≡ power (s - 1)
slot_coefficient s p q = ap gf_exp (slot_exponent s p q) ∙ gf_exp-power (s - 1) (omega arith)

opposite : ℕ → ℕ
opposite k = (255 - k % 255) % 255

neg_exponent : (k : ℕ) → k < 2 ^ 31 → rem_euclid (neg_i32 k) 255 ≡ opposite k
unfolding rem_euclid is_negative neg_i32 sub_i32 opposite
neg_exponent k h = ground arith

pub gf_exp-neg : (k : ℕ) → k < 2 ^ 31 → gf_exp (neg_i32 k) ⊗ power k ≡ 1
unfolding gf_exp
gf_exp-neg k h =
    ap (λ (t : ℕ). gfexp t ⊗ power k) (neg_exponent k h)
    ∙ ap (λ (t : ℕ). t ⊗ power k) (gfexp-power (opposite k) (unfold opposite in omega arith))
    ∙ sym (power-add (opposite k) k)
    ∙ sym (power-mod (opposite k + k))
    ∙ ap power (let e : (opposite k + k) % 255 ≡ 0 = unfold opposite in omega arith in e)
    ∙ unfold power in refl

pub gf_exp-neg-lt : (k : ℕ) → k < 2 ^ 31 → gf_exp (neg_i32 k) < 256
unfolding gf_exp
gf_exp-neg-lt k h =
    let e : gfexp (rem_euclid (neg_i32 k) 255) ≡ power (opposite k) =
      ap gfexp (neg_exponent k h) ∙ gfexp-power (opposite k) (unfold opposite in omega arith) in
    rw e (power-lt (opposite k))

pub not_negative : (e : ℕ) → e < 2 ^ 31 → is_negative e ≡ false
unfolding is_negative
not_negative e h = ground arith

-- The difference of two columns, as the two-disk solve takes it.
pub column_difference : (a b : ℕ) → a < b → b < 255 → rem_euclid (sub_i32 b a) 255 ≡ b - a
unfolding rem_euclid sub_i32 is_negative
column_difference a b p q = ground arith
