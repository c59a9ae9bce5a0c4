-- ===== src/Recovery/Gf/Exponent.antt =====
-- Repeated squaring in scrub-rs/src/recovery/gf.rs: `gf_pow_const`, `gf_pow` and `gf_inv` against
-- the plain power, a product of p factors.
use rotshield.Prelude.{
  ℕ, zero, suc, ◌-◌, ◌*◌, ◌/◌, ◌%◌, ◌^◌, ◌≤◌, ◌<◌, ◌≡◌, refl, sym, ap, ◌∙◌, ◌==◌, ==_ne, Bool-cases,
  inl, inr, bit_and, if◌then◌else◌, arith,
}
use rotshield.Recovery.Gf.{
  gf_mul_scalar, gfmul, gfinv, pow_loop, gf_pow_const, gf_pow, gf_inv, normalize, is_negative,
  neg_i32, sub_i32,
}
use rotshield.Recovery.Gf.Linear.{bit_and-one}
use rotshield.Recovery.Gf.Field.{
  ◌⊗◌, times-lt, times_assoc, times-one, one-times, gf_mul_scalar-times,
}
use rotshield.Recovery.Gf.Tables.{gfmul-times, gfinv_entry}

-- The product of n factors a.
unfoldable pub pow : ℕ → ℕ → ℕ
pow a zero = 1
pow a (suc n) = a ⊗ pow a n

pub pow-lt : (a n : ℕ) → a < 256 → pow a n < 256
unfolding pow
pow-lt a zero h = omega arith
pow-lt a (suc n) h = times-lt a (pow a n) h

pow-square : (a n : ℕ) → a < 256 → pow (a ⊗ a) n ≡ pow a (2 * n)
unfolding pow
pow-square a zero h = refl
pow-square a (suc n) h =
    let e : 2 * suc n ≡ suc (suc (2 * n)) = omega arith in
    rw e (ap (◌⊗◌ (a ⊗ a)) (pow-square a n h) ∙ times_assoc a a (pow a (2 * n)) h h)

-- The loop's two updates, on an even and on an odd exponent.
round_step :
    (a p v : ℕ)
    → a < 256
    → v < 256
    → (if bit_and p 1 == 0 then v else v ⊗ a) ⊗ pow (a ⊗ a) (p / 2) ≡ v ⊗ pow a p
unfolding pow
round_step a p v h k = elim (Bool-cases (bit_and p 1 == 0)) [
  | inl e ↦
      let even : p ≡ 2 * (p / 2) = ground (arith, bit_and-one p) in
      rw (e, pow-square a (p / 2) h) (ap (λ (t : ℕ). v ⊗ pow a t) (sym even))
  | inr e ↦
      let odd : p ≡ suc (2 * (p / 2)) = ground (arith, bit_and-one p) in
      rw (e, pow-square a (p / 2) h)
        (times_assoc v a (pow a (2 * (p / 2))) k h ∙ ap (λ (t : ℕ). v ⊗ pow a t) (sym odd))
]

module _ (mul : ℕ → ℕ → ℕ) (mul_times : (x y : ℕ) → x < 256 → y < 256 → mul x y ≡ x ⊗ y) where
  pow_loop-pow :
      (fuel a p v : ℕ) → p ≤ fuel → a < 256 → v < 256 → pow_loop fuel mul a p v ≡ v ⊗ pow a p
  unfolding pow_loop
  pow_loop-pow zero a p v f h k =
      let e : p ≡ 0 = omega arith in rw e (unfold pow in sym (times-one v k))
  pow_loop-pow (suc fuel) a zero v f h k = unfold pow in sym (times-one v k)
  pow_loop-pow (suc fuel) a (suc p) v f h k =
      rw (==_ne (suc p) 0 (omega arith), mul_times a a h h, mul_times v a k h)
        (pow_loop-pow fuel (a ⊗ a) (suc p / 2) (if bit_and (suc p) 1 == 0 then v else v ⊗ a)
            (omega arith) (times-lt a a h) (ground (arith, times-lt v a k))
          ∙ round_step a (suc p) v h k)

pub gf_pow_const-pow : (x p : ℕ) → x < 256 → gf_pow_const x p ≡ pow x p
unfolding gf_pow_const
gf_pow_const-pow x p h =
    pow_loop-pow gf_mul_scalar (λ x y a b. gf_mul_scalar-times x y b) p x p 1 (omega arith) h
      (omega arith)
    ∙ one-times (pow x p) (pow-lt x p h)

pub normalize_small : (p : ℕ) → p < 2 ^ 31 → normalize p ≡ p % 255
unfolding normalize is_negative neg_i32 sub_i32
normalize_small p h = ground arith

pub normalize_negative :
    (k : ℕ) → 0 < k → k ≤ 2 ^ 31 → normalize (2 ^ 32 - k) ≡ (255 - k % 255) % 255
unfolding normalize is_negative neg_i32 sub_i32
normalize_negative k p h = ground arith

pub gf_pow-pow : (x p : ℕ) → x < 256 → gf_pow x p ≡ pow x (normalize p)
unfolding gf_pow
gf_pow-pow x p h =
    pow_loop-pow gfmul gfmul-times (normalize p) x (normalize p) 1 (omega arith) h (omega arith)
    ∙ one-times (pow x (normalize p)) (pow-lt x (normalize p) h)

pub gf_inv-gfinv : (x : ℕ) → 0 < x → x < 256 → gf_inv x ≡ gfinv x
unfolding gf_inv
gf_inv-gfinv x p q = rw (==_ne x 0 (omega arith)) (
    gf_pow-pow x 254 q
    ∙ ap (pow x) (normalize_small 254 (omega arith))
    ∙ sym (gf_pow_const-pow x 254 q)
    ∙ sym (gfinv_entry x p q))
