-- ===== src/Recovery/Gf/Inverse.antt =====
-- Inverses in GF(2^8): the tables GFINV and GFEXI, and `gf_exp` of scrub-rs/src/recovery/gf.rs at
-- the exponents that the engine uses.
use rotshield.Prelude.{
  ℕ, ◌+◌, ◌-◌, ◌*◌, ◌%◌, ◌<◌, ◌≡◌, ◌≢◌, refl, sym, ap, ap₂, ◌∙◌, ◌==◌, ==_iff, true, leb, arith,
}
use rotshield.Prelude.Xor.{◌⊕◌, xor-lt, xor_self, zero-xor, xor_assoc, xor_cancel, xor_comm}
use rotshield.Recovery.Gf.{gf_mul_scalar, pow_loop, gf_pow_const, mul_loop, double, gfinv, gfexi}
use rotshield.Recovery.Gf.Linear.{every_below, every_below_sound}
use rotshield.Recovery.Gf.Product.{product}
use rotshield.Recovery.Gf.Field.{
  ◌⊗◌, times-lt, times-zero, zero-times, times_comm, times_assoc, times-one, one-times,
  times-xor_left, times-xor_right,
}
use rotshield.Recovery.Gf.Powers.{power, power-lt, power-add, power-mod, power-ne-one}
use rotshield.Recovery.Gf.Tables.{gfinv_entry, gfexi_entry}

inverse_table : every_below 255 (λ i. (i + 1) ⊗ gf_pow_const (i + 1) 254 == 1) ≡ true
unfolding every_below ◌⊗◌ product double gf_pow_const pow_loop gf_mul_scalar mul_loop
inverse_table = refl

small_table : every_below 255 (λ i. leb (gf_pow_const (i + 1) 254) 255) ≡ true
unfolding every_below double gf_pow_const pow_loop gf_mul_scalar mul_loop
small_table = refl

pub times-gfinv : (x : ℕ) → 0 < x → x < 256 → x ⊗ gfinv x ≡ 1
times-gfinv x p q =
    ap (◌⊗◌ x) (gfinv_entry x p q)
    ∙ (let same : x - 1 + 1 ≡ x = omega arith in
        rw same at (
          (==_iff _ _).0 (
            every_below_sound 255 (λ i. (i + 1) ⊗ gf_pow_const (i + 1) 254 == 1) (x - 1)
              inverse_table (omega arith))))

pub gfinv-lt : (x : ℕ) → 0 < x → x < 256 → gfinv x < 256
gfinv-lt x p q =
    let same : x - 1 + 1 ≡ x = omega arith in
    rw (gfinv_entry x p q) (
      below (gf_pow_const x 254) (
        rw same at (
          every_below_sound 255 (λ i. leb (gf_pow_const (i + 1) 254) 255) (x - 1) small_table
            (omega arith))))
  where
    below : (n : ℕ) → leb n 255 ≡ true → n < 256
    below n h = ground arith

pub gfinv-times : (x y : ℕ) → 0 < x → x < 256 → y < 256 → gfinv x ⊗ (x ⊗ y) ≡ y
gfinv-times x y p q r =
    sym (times_assoc (gfinv x) x y (gfinv-lt x p q) q)
    ∙ ap (λ (t : ℕ). t ⊗ y) (times_comm (gfinv x) x (gfinv-lt x p q) q ∙ times-gfinv x p q)
    ∙ one-times y r

times-gfinv-times : (x y : ℕ) → 0 < x → x < 256 → y < 256 → x ⊗ (gfinv x ⊗ y) ≡ y
times-gfinv-times x y p q r =
    sym (times_assoc x (gfinv x) y q (gfinv-lt x p q))
    ∙ ap (λ (t : ℕ). t ⊗ y) (times-gfinv x p q)
    ∙ one-times y r

times_cancel : (x y z : ℕ) → 0 < x → x < 256 → y < 256 → z < 256 → x ⊗ y ≡ x ⊗ z → y ≡ z
times_cancel x y z p q r s e =
    sym (gfinv-times x y p q r) ∙ ap (◌⊗◌ (gfinv x)) e ∙ gfinv-times x z p q s

times-pos : (x y : ℕ) → 0 < x → x < 256 → 0 < y → y < 256 → 0 < x ⊗ y
times-pos x y p q r s =
    nonzero (x ⊗ y)
      λ e. omega (arith, sym (gfinv-times x y p q s) ∙ ap (◌⊗◌ (gfinv x)) e ∙ times-zero (gfinv x))
  where
    nonzero : (n : ℕ) → n ≢ 0 → 0 < n
    nonzero n h = omega arith

power-pos : (e : ℕ) → 0 < power e
power-pos e = nonzero (power e) λ z. omega (
  arith,
  laps,
  power-add e (254 * e) ∙ ap (λ (t : ℕ). t ⊗ power (254 * e)) z ∙ zero-times (power (254 * e)),
)
  where
    nonzero : (n : ℕ) → n ≢ 0 → 0 < n
    nonzero n h = omega arith

    laps : power (e + 254 * e) ≡ 1
    laps =
        sym (power-mod (e + 254 * e))
        ∙ (let r : (e + 254 * e) % 255 ≡ 0 = omega arith in ap power r)
        ∙ unfold power in refl

-- Two different columns: their sum is the first times one more than their quotient.
columns : (a b : ℕ) → a < b → power a ⊕ power b ≡ power a ⊗ (power (b - a) ⊕ 1)
columns a b h =
    ap (λ (t : ℕ). power a ⊕ t)
      ((let e : b ≡ a + (b - a) = omega arith in ap power e) ∙ power-add a (b - a))
    ∙ xor_comm (power a) _
    ∙ ap (λ (t : ℕ). power a ⊗ power (b - a) ⊕ t) (sym (times-one (power a) (power-lt a)))
    ∙ sym (times-xor_right (power a) (power (b - a)) 1)

ratio-pos : (d : ℕ) → 0 < d → d < 255 → 0 < power d ⊕ 1
ratio-pos d p q =
    nonzero (power d ⊕ 1)
      λ e. power-ne-one d p q (sym (xor_cancel (power d) 1) ∙ ap (λ (t : ℕ). t ⊕ 1) e)
  where
    nonzero : (n : ℕ) → n ≢ 0 → 0 < n
    nonzero n h = omega arith

module _ (a b : ℕ) (below : a < b) (bound : b < 255) where
  ratio : ℕ
  ratio = power (b - a) ⊕ 1

  ratio-byte : (0 < ratio) × (ratio < 256)
  unfolding ratio
  ratio-byte = (
    ratio-pos (b - a) (omega arith) (omega arith),
    xor-lt 8 (power (b - a)) 1 (power-lt (b - a)) (omega arith),
  )

  gap : ℕ
  gap = power a ⊕ power b

  gap-times : gap ≡ power a ⊗ ratio
  unfolding gap ratio
  gap-times = columns a b below

  gap-byte : (0 < gap) × (gap < 256)
  gap-byte = (
    rw gap-times
        (times-pos (power a) ratio (power-pos a) (power-lt a) (ratio-byte.0) (ratio-byte.1)),
    rw gap-times (times-lt (power a) ratio (power-lt a)),
  )

  -- Times the gap, the quotient of a sum by the ratio is the sum times the lower power.
  gap-quotient : (w : ℕ) → w < 256 → gap ⊗ (gfinv ratio ⊗ w) ≡ power a ⊗ w
  gap-quotient w h =
      ap (λ (t : ℕ). t ⊗ (gfinv ratio ⊗ w)) gap-times
      ∙ times_assoc (power a) ratio _ (power-lt a) (ratio-byte.1)
      ∙ ap (◌⊗◌ (power a)) (times-gfinv-times ratio w (ratio-byte.0) (ratio-byte.1) h)

  module _ (x y : ℕ) (hx : x < 256) (hy : y < 256) where
    weighted : ℕ
    weighted = power a ⊗ x ⊕ power b ⊗ y

    weighted-lt : weighted < 256
    unfolding weighted
    weighted-lt =
        xor-lt 8 _ _ (times-lt (power a) x (power-lt a)) (times-lt (power b) y (power-lt b))

    sums : power a ⊗ (x ⊕ y) ⊕ weighted ≡ gap ⊗ y
    unfolding weighted gap
    sums =
        ap (λ (t : ℕ). t ⊕ (power a ⊗ x ⊕ power b ⊗ y)) (times-xor_right (power a) x y)
        ∙ cc (
          xor_comm (power a ⊗ x) (power a ⊗ y),
          xor_assoc (power a ⊗ y) (power a ⊗ x) (power a ⊗ x ⊕ power b ⊗ y),
          xor_assoc (power a ⊗ x) (power a ⊗ x) (power b ⊗ y),
          xor_self (power a ⊗ x),
          zero-xor (power b ⊗ y),
        )
        ∙ sym (times-xor_left (power a) (power b) y (power-lt a) (power-lt b))

    -- The two coefficients of the two-disk solve isolate the byte of the higher column.
    pub solve_column :
        gfexi (b - a) ⊗ (x ⊕ y) ⊕ gfinv (power a ⊕ power b) ⊗ (power a ⊗ x ⊕ power b ⊗ y) ≡ y
    unfolding weighted gap ratio
    solve_column =
        ap (λ (t : ℕ). t ⊗ (x ⊕ y) ⊕ gfinv gap ⊗ weighted) (gfexi_entry (b - a) (omega arith))
        ∙ times_cancel gap (gfinv ratio ⊗ (x ⊕ y) ⊕ gfinv gap ⊗ weighted) y (gap-byte.0)
            (gap-byte.1)
            (xor-lt 8 _ _
              (times-lt (gfinv ratio) (x ⊕ y) (gfinv-lt ratio (ratio-byte.0) (ratio-byte.1)))
              (times-lt (gfinv gap) weighted (gfinv-lt gap (gap-byte.0) (gap-byte.1))))
            hy
            (times-xor_right gap (gfinv ratio ⊗ (x ⊕ y)) (gfinv gap ⊗ weighted)
              ∙ ap₂ (λ s t. s ⊕ t) (gap-quotient (x ⊕ y) (xor-lt 8 x y hx hy))
                  (times-gfinv-times gap weighted (gap-byte.0) (gap-byte.1) weighted-lt)
              ∙ sums)

  pub solve_coefs : (gfexi (b - a) < 256) × (gfinv (power a ⊕ power b) < 256)
  unfolding gap ratio
  solve_coefs = (
    rw (gfexi_entry (b - a) (omega arith)) (gfinv-lt ratio (ratio-byte.0) (ratio-byte.1)),
    gfinv-lt gap (gap-byte.0) (gap-byte.1),
  )
