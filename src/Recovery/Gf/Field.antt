-- ===== src/Recovery/Gf/Field.antt =====
-- GF(2^8) of scrub-rs/src/recovery/gf.rs is a commutative ring: the laws of the product of bytes,
-- from its linearity and from three facts checked at every byte.
use rotshield.Prelude.{
  ℕ, zero, suc, ◌*◌, ◌/◌, ◌%◌, ◌^◌, ◌≤◌, ◌<◌, ◌≡◌, refl, sym, ap, ap₂, ◌∙◌, ◌==◌, ==_iff, leb,
  if◌then◌else◌, true, Bool-cases, inl, inr, arith,
}
use native.Mathlib.Nat.{pow-suc}
use rotshield.Prelude.Xor.{◌⊕◌, xor-zero, zero-xor}
use rotshield.Recovery.Gf.{double, gf_mul_scalar}
use rotshield.Recovery.Gf.Linear.{every_below, every_below_sound, double_shift, double-lt}
use rotshield.Recovery.Gf.Product.{
  digit, product, product-suc, product-zero, zero-product, product-lt, product-xor_left,
  product-xor_right, product-double_left, product_more, gf_mul_scalar-product,
}

infixl 70 ◌⊗◌
unfoldable pub ◌⊗◌ : ℕ → ℕ → ℕ
a ⊗ b = product 8 a b

pub gf_mul_scalar-times : (a b : ℕ) → b < 256 → gf_mul_scalar a b ≡ a ⊗ b
unfolding ◌⊗◌
gf_mul_scalar-times a b h = gf_mul_scalar-product 8 a b h

pub times-lt : (a b : ℕ) → a < 256 → a ⊗ b < 256
unfolding ◌⊗◌
times-lt a b h = product-lt 8 a b h

pub times-zero : (a : ℕ) → a ⊗ 0 ≡ 0
unfolding ◌⊗◌
times-zero a = product-zero 8 a

pub zero-times : (b : ℕ) → 0 ⊗ b ≡ 0
unfolding ◌⊗◌
zero-times b = zero-product 8 b

pub times-xor_left : (a c b : ℕ) → a < 256 → c < 256 → (a ⊕ c) ⊗ b ≡ a ⊗ b ⊕ c ⊗ b
unfolding ◌⊗◌
times-xor_left a c b p q = product-xor_left 8 a c b p q

pub times-xor_right : (a b c : ℕ) → a ⊗ (b ⊕ c) ≡ a ⊗ b ⊕ a ⊗ c
unfolding ◌⊗◌
times-xor_right a b c = product-xor_right 8 a b c

pub double-times : (a b : ℕ) → a < 256 → double a ⊗ b ≡ double (a ⊗ b)
unfolding ◌⊗◌
double-times a b h = product-double_left 8 a b h

one-times_table : every_below 256 (λ b. 1 ⊗ b == b) ≡ true
unfolding every_below ◌⊗◌ product double
one-times_table = refl

pub one-times : (b : ℕ) → b < 256 → 1 ⊗ b ≡ b
one-times b h = (==_iff _ _).0 (every_below_sound 256 (λ b. 1 ⊗ b == b) b one-times_table h)

-- The field polynomial is a multiple of nothing but itself: times it, every byte is 0.
polynomial_table : every_below 256 (λ a. product 9 a 0x11d == 0) ≡ true
unfolding every_below product double
polynomial_table = refl

product_polynomial : (a : ℕ) → a < 256 → product 9 a 0x11d ≡ 0
product_polynomial a h = (==_iff _ _).0 (every_below_sound 256 _ a polynomial_table h)

product-shift : (a b : ℕ) → a < 256 → product 9 a (b * 2) ≡ double (product 8 a b)
product-shift a b h =
    product-suc 8 a (b * 2)
    ∙ (let even : b * 2 % 2 ≡ 0 = omega arith in
        let half : b * 2 / 2 ≡ b = omega arith in
        rw (even, half, zero-xor (product 8 (double a) b)) refl)
    ∙ product-double_left 8 a b h

product-reduce :
    (a b : ℕ)
    → a < 256
    → product 9 a (b * 2 ⊕ (if leb 128 b then 0x11d else 0)) ≡ product 9 a (b * 2)
product-reduce a b h = elim (Bool-cases (leb 128 b)) [
  | inl e ↦ rw (e, product-xor_right 9 a (b * 2) 0x11d, product_polynomial a h, xor-zero) refl
  | inr e ↦ rw (e, xor-zero (b * 2)) refl
]

pub times-double : (a b : ℕ) → a < 256 → b < 256 → a ⊗ double b ≡ double (a ⊗ b)
unfolding ◌⊗◌
times-double a b p q =
    sym (product_more 8 a (double b) (double-lt b))
    ∙ ap (product 9 a) (double_shift b q)
    ∙ product-reduce a b p
    ∙ product-shift a b p

lowest : (a b : ℕ) → a < 256 → (b % 2) ⊗ a ≡ digit a b
lowest a b h = elim (Bool-cases (b % 2 == 0)) [
  | inl e ↦ rw (e, (==_iff (b % 2) 0).0 e) (zero-times a)
  | inr e ↦ let one : b % 2 ≡ 1 = ground arith in rw (one, one-times a h) refl
]

join_digit : (b : ℕ) → b < 256 → b ≡ b % 2 ⊕ double (b / 2)
join_digit b h = (==_iff _ _).0 (every_below_sound 256 (λ b. b == b % 2 ⊕ double (b / 2)) b table h)
  where
    table : every_below 256 (λ b. b == b % 2 ⊕ double (b / 2)) ≡ true
    table = unfold every_below double in refl

comm_digits : (n a b : ℕ) → n ≤ 8 → a < 256 → b < 2 ^ n → b < 256 → product n a b ≡ b ⊗ a
comm_digits zero a b k p h q =
    let e : b ≡ 0 = omega arith in rw (e, product-zero 0 a, zero-times a) refl
comm_digits (suc n) a b k p h q =
    product-suc n a b
    ∙ ap₂ (λ x y. x ⊕ y) (sym (lowest a b p))
        (comm_digits n (double a) (b / 2) (omega arith) (double-lt a) (omega (arith, pow-suc 2 n))
            (omega arith)
          ∙ times-double (b / 2) a (omega arith) p
          ∙ sym (double-times (b / 2) a (omega arith)))
    ∙ sym (times-xor_left (b % 2) (double (b / 2)) a (omega arith) (double-lt (b / 2)))
    ∙ ap (λ (t : ℕ). t ⊗ a) (sym (join_digit b q))

pub times_comm : (a b : ℕ) → a < 256 → b < 256 → a ⊗ b ≡ b ⊗ a
unfolding ◌⊗◌
times_comm a b p q = comm_digits 8 a b (omega arith) p q q

pub times-one : (a : ℕ) → a < 256 → a ⊗ 1 ≡ a
times-one a h = times_comm a 1 h (omega arith) ∙ one-times a h

times-digit : (a b c : ℕ) → a ⊗ digit b c ≡ digit (a ⊗ b) c
times-digit a b c = ground (arith, times-zero a)

assoc_digits : (n a b c : ℕ) → a < 256 → b < 256 → a ⊗ product n b c ≡ product n (a ⊗ b) c
assoc_digits zero a b c p q = rw (product_empty b c, product_empty (a ⊗ b) c) (times-zero a)
  where
    product_empty : (b c : ℕ) → product 0 b c ≡ 0
    product_empty b c = unfold product in refl
assoc_digits (suc n) a b c p q =
    ap (◌⊗◌ a) (product-suc n b c)
    ∙ times-xor_right a (digit b c) (product n (double b) (c / 2))
    ∙ ap₂ (λ x y. x ⊕ y) (times-digit a b c)
        (assoc_digits n a (double b) (c / 2) p (double-lt b)
          ∙ ap (λ (t : ℕ). product n t (c / 2)) (times-double a b p q))
    ∙ sym (product-suc n (a ⊗ b) c)

pub times_assoc : (a b c : ℕ) → a < 256 → b < 256 → a ⊗ b ⊗ c ≡ a ⊗ (b ⊗ c)
unfolding ◌⊗◌
times_assoc a b c p q = sym (assoc_digits 8 a b c p q)
