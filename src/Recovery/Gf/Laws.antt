-- ===== src/Recovery/Gf/Laws.antt =====
-- The functions that scrub-rs/src/recovery/gf.rs exports, against the field.
use rotshield.Prelude.{ℕ, suc, ◌+◌, ◌-◌, ◌%◌, ◌^◌, ◌≤◌, ◌<◌, ◌≡◌, refl, sym, ap, ap₂, ◌∙◌, arith}
use rotshield.Prelude.Xor.{◌⊕◌, xor-lt}
use rotshield.Recovery.Gf.{gf_mul, gf_inv, gf_exp, gf_pow, gfinv, neg_i32}
use rotshield.Recovery.Gf.Field.{◌⊗◌, times-lt, times_comm, times_assoc, times-one, times-xor_right}
use rotshield.Recovery.Gf.Powers.{power, power-lt, power-add, power-mod}
use rotshield.Recovery.Gf.Tables.{gfmul-times}
use rotshield.Recovery.Gf.Inverse.{times-gfinv, gfinv-lt}
use rotshield.Recovery.Gf.Coefficients.{gf_exp-power, gf_exp-neg, gf_exp-neg-lt}
use rotshield.Recovery.Gf.Exponent.{
  pow, pow-lt, gf_inv-gfinv, gf_pow-pow, normalize_small, normalize_negative,
}

gf_mul-times : (a b : ℕ) → a < 256 → b < 256 → gf_mul a b ≡ a ⊗ b
unfolding gf_mul
gf_mul-times a b p q = gfmul-times a b p q

pub gf_mul-lt : (a b : ℕ) → a < 256 → b < 256 → gf_mul a b < 256
gf_mul-lt a b p q = rw (gf_mul-times a b p q) (times-lt a b p)

-- On bytes `gf_mul` gives a byte, is commutative and associative, has 1 as its unit and distributes
-- over exclusive or.
pub gf_mul_ring :
    (a b c : ℕ)
    → a < 256
    → b < 256
    → c < 256
    → (gf_mul a b < 256)
      × (gf_mul a b ≡ gf_mul b a)
      × (gf_mul (gf_mul a b) c ≡ gf_mul a (gf_mul b c))
      × (gf_mul a 1 ≡ a)
      × (gf_mul a (b ⊕ c) ≡ gf_mul a b ⊕ gf_mul a c)
gf_mul_ring a b c p q r = (
  gf_mul-lt a b p q,
  gf_mul-times a b p q ∙ times_comm a b p q ∙ sym (gf_mul-times b a q p),
  gf_mul-times (gf_mul a b) c (gf_mul-lt a b p q) r
      ∙ ap (λ (t : ℕ). t ⊗ c) (gf_mul-times a b p q)
      ∙ times_assoc a b c p q
      ∙ ap (◌⊗◌ a) (sym (gf_mul-times b c q r))
      ∙ sym (gf_mul-times a (gf_mul b c) p (gf_mul-lt b c q r)),
  gf_mul-times a 1 p (omega arith) ∙ times-one a p,
  gf_mul-times a (b ⊕ c) p (xor-lt 8 b c q r)
      ∙ times-xor_right a b c
      ∙ ap₂ (λ s t. s ⊕ t) (sym (gf_mul-times a b p q)) (sym (gf_mul-times a c p r)),
)

-- Every byte but 0 has `gf_inv` of it as its inverse under `gf_mul`.
pub gf_mul-gf_inv : (x : ℕ) → 0 < x → x < 256 → (gf_inv x < 256) × (gf_mul x (gf_inv x) ≡ 1)
gf_mul-gf_inv x p q =
    rw (gf_inv-gfinv x p q)
      (gfinv-lt x p q, gf_mul-times x (gfinv x) q (gfinv-lt x p q) ∙ times-gfinv x p q)

-- `gf_exp` takes sums of exponents to products, opposite exponents to inverses, and has the
-- period 255; an exponent is an `i32` that is not negative, its opposite is the `i32` of `-e`.
pub gf_exp_hom :
    (d e : ℕ)
    → d + e < 2 ^ 31
    → (gf_exp (d + e) ≡ gf_mul (gf_exp d) (gf_exp e))
      × (gf_mul (gf_exp (neg_i32 e)) (gf_exp e) ≡ 1)
      × (gf_exp (e % 255) ≡ gf_exp e)
gf_exp_hom d e h = (
  gf_exp-power (d + e) h
      ∙ power-add d e
      ∙ sym (gf_mul-times (power d) (power e) (power-lt d) (power-lt e))
      ∙ ap₂ gf_mul (sym (gf_exp-power d (omega arith))) (sym (gf_exp-power e (omega arith))),
  ap (gf_mul (gf_exp (neg_i32 e))) (gf_exp-power e (omega arith))
      ∙ gf_mul-times _ (power e) (gf_exp-neg-lt e (omega arith)) (power-lt e)
      ∙ gf_exp-neg e (omega arith),
  gf_exp-power (e % 255) (omega arith) ∙ power-mod e ∙ sym (gf_exp-power e (omega arith)),
)

-- The product of p factors x, by `gf_mul`.
unfoldable pub factors : ℕ → ℕ → ℕ
factors x ℕ.zero = 1
factors x (suc p) = gf_mul x (factors x p)

factors-pow : (x p : ℕ) → x < 256 → factors x p ≡ pow x p
unfolding factors pow
factors-pow x ℕ.zero h = refl
factors-pow x (suc p) h =
    ap (gf_mul x) (factors-pow x p h) ∙ gf_mul-times x (pow x p) h (pow-lt x p h)

-- Repeated squaring computes the product of as many factors as the exponent modulo 255 says, and
-- at the `i32` of -k as many as -k modulo 255 says.
pub gf_pow-factors :
    (x p k : ℕ)
    → x < 256
    → p < 2 ^ 31
    → 0 < k
    → k ≤ 2 ^ 31
    → (gf_pow x p ≡ factors x (p % 255))
      × (gf_pow x (2 ^ 32 - k) ≡ factors x ((255 - k % 255) % 255))
gf_pow-factors x p k h small pos neg = (
  gf_pow-pow x p h ∙ ap (pow x) (normalize_small p small) ∙ sym (factors-pow x (p % 255) h),
  gf_pow-pow x (2 ^ 32 - k) h ∙ ap (pow x) (normalize_negative k pos neg) ∙ sym (factors-pow x _ h),
)
