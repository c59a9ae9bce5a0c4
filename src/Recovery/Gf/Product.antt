-- ===== src/Recovery/Gf/Product.antt =====
-- The product in GF(2^8) as a sum over the digits of the second factor, which is what the loop of
-- `gf_mul_scalar` (scrub-rs/src/recovery/gf.rs) accumulates. It is linear in both factors.
use rotshield.Prelude.{
  ℕ, zero, suc, ◌/◌, ◌%◌, ◌^◌, ◌≤◌, ◌<◌, ◌≡◌, refl, sym, ap, ap₂, ◌∙◌, ◌==◌, ==_ne, if◌then◌else◌,
  bit_and, arith,
}
use native.Mathlib.Nat.{pow-suc}
use rotshield.Prelude.Xor.{
  ◌⊕◌, xor_step, xor-zero, zero-xor, xor_self, xor-lt, xor_assoc, xor_interchange,
}
use rotshield.Recovery.Gf.{double, mul_loop, gf_mul_scalar}
use rotshield.Recovery.Gf.Linear.{bit_and-one, double-xor, double-lt, double-zero}

-- `a` times the lowest digit of `b`.
abbrev pub digit : ℕ → ℕ → ℕ
digit a b = if b % 2 == 0 then 0 else a

unfoldable pub product : ℕ → ℕ → ℕ → ℕ
product zero a b = 0
product (suc n) a b = digit a b ⊕ product n (double a) (b / 2)

pub product-suc : (n a b : ℕ) → product (suc n) a b ≡ digit a b ⊕ product n (double a) (b / 2)
unfolding product
product-suc n a b = refl

pub product-zero : (n a : ℕ) → product n a 0 ≡ 0
unfolding product
product-zero zero a = refl
product-zero (suc n) a = zero-xor _ ∙ product-zero n (double a)

pub zero-product : (n b : ℕ) → product n 0 b ≡ 0
unfolding product
zero-product zero b = refl
zero-product (suc n) b = ground (arith, double-zero, zero-product n (b / 2), zero-xor 0)

pub product-lt : (n a b : ℕ) → a < 256 → product n a b < 256
unfolding product
product-lt zero a b p = omega arith
product-lt (suc n) a b p =
    xor-lt 8 (digit a b) _ (ground arith) (product-lt n (double a) (b / 2) (double-lt a))

digit-xor_left : (a c b : ℕ) → digit (a ⊕ c) b ≡ digit a b ⊕ digit c b
digit-xor_left a c b = ground (arith, zero-xor 0)

digit-xor_right : (a b c : ℕ) → digit a (b ⊕ c) ≡ digit a b ⊕ digit a c
digit-xor_right a b c = ground (arith, xor_step b c, zero-xor a, xor-zero a, xor_self a, zero-xor 0)

pub product-xor_left :
    (n a c b : ℕ) → a < 256 → c < 256 → product n (a ⊕ c) b ≡ product n a b ⊕ product n c b
unfolding product
product-xor_left zero a c b p q = sym (zero-xor 0)
product-xor_left (suc n) a c b p q =
    rw
      (
        digit-xor_left a c b,
        double-xor a c p q,
        product-xor_left n (double a) (double c) (b / 2) (double-lt a) (double-lt c),
      )
      (xor_interchange _ _ _ _)

half-xor : (b c : ℕ) → (b ⊕ c) / 2 ≡ b / 2 ⊕ c / 2
half-xor b c = omega (arith, xor_step b c)

pub product-xor_right : (n a b c : ℕ) → product n a (b ⊕ c) ≡ product n a b ⊕ product n a c
unfolding product
product-xor_right zero a b c = sym (zero-xor 0)
product-xor_right (suc n) a b c =
    rw (digit-xor_right a b c, half-xor b c, product-xor_right n (double a) (b / 2) (c / 2))
      (xor_interchange _ _ _ _)

double-digit : (a b : ℕ) → double (digit a b) ≡ digit (double a) b
double-digit a b = ground (arith, double-zero)

pub product-double_left : (n a b : ℕ) → a < 256 → product n (double a) b ≡ double (product n a b)
unfolding product
product-double_left zero a b p = sym double-zero
product-double_left (suc n) a b p =
    ap₂ (λ x y. x ⊕ y) (sym (double-digit a b))
      (product-double_left n (double a) (b / 2) (double-lt a))
    ∙ sym (
        double-xor (digit a b) (product n (double a) (b / 2)) (ground arith)
          (product-lt n (double a) (b / 2) (double-lt a)))

-- More digits than the second factor has change nothing.
pub product_more : (n a b : ℕ) → b < 2 ^ n → product (suc n) a b ≡ product n a b
product_more zero a b h =
    let e : b ≡ 0 = omega arith in rw e (product-zero 1 a ∙ sym (product-zero 0 a))
product_more (suc n) a b h =
    product-suc (suc n) a b
    ∙ ap (λ (t : ℕ). digit a b ⊕ t) (product_more n (double a) (b / 2) (omega (arith, pow-suc 2 n)))
    ∙ sym (product-suc n a b)

loop_step : (a b v : ℕ) → (if bit_and b 1 == 0 then v else v ⊕ a) ≡ v ⊕ digit a b
loop_step a b v = ground (arith, bit_and-one b, xor-zero v)

mul_loop-product :
    (fuel n a b v : ℕ) → b ≤ fuel → b < 2 ^ n → mul_loop fuel a b v ≡ v ⊕ product n a b
unfolding mul_loop
mul_loop-product zero n a b v h lt =
    let e : b ≡ 0 = omega arith in rw (e, product-zero n a, xor-zero v) refl
mul_loop-product (suc fuel) n a zero v h lt = rw (product-zero n a, xor-zero v) refl
mul_loop-product (suc fuel) zero a (suc b) v h lt = absurd (omega arith)
mul_loop-product (suc fuel) (suc n) a (suc b) v h lt = rw (==_ne (suc b) 0 (omega arith)) (
    mul_loop-product fuel n (double a) (suc b / 2) _ (omega arith) (omega (arith, pow-suc 2 n))
    ∙ ap (λ (t : ℕ). t ⊕ product n (double a) (suc b / 2)) (loop_step a (suc b) v)
    ∙ xor_assoc v (digit a (suc b)) _
    ∙ ap (λ (t : ℕ). v ⊕ t) (sym (product-suc n a (suc b))))

-- The loop computes the product; its fuel is never used up.
pub gf_mul_scalar-product : (n a b : ℕ) → b < 2 ^ n → gf_mul_scalar a b ≡ product n a b
unfolding gf_mul_scalar
gf_mul_scalar-product n a b h =
    mul_loop-product b n a b 0 (omega arith) h ∙ zero-xor (product n a b)
