-- ===== src/Recovery/Gf/Powers.antt =====
-- The powers of the generator 2 of GF(2^8) (scrub-rs/src/recovery/gf.rs) repeat with period 255,
-- and no smaller one.
use rotshield.Prelude.{
  ℕ, zero, suc, ◌+◌, ◌-◌, ◌*◌, ◌/◌, ◌%◌, ◌<◌, ◌≡◌, ◌≢◌, refl, sym, ap, ◌∙◌, ◌==◌, not, true, arith,
}
use native.Mathlib.Numerals.{add-one}
use rotshield.Recovery.Gf.{double}
use rotshield.Recovery.Gf.Linear.{every_below, every_below_sound, double-lt}
use rotshield.Recovery.Gf.Field.{◌⊗◌, one-times, times-one, double-times}

-- g^e
unfoldable pub power : ℕ → ℕ
power zero = 1
power (suc e) = double (power e)

pub power_next : (e : ℕ) → power (e + 1) ≡ double (power e)
unfolding power
power_next e = rw (add-one e) refl

pub power-lt : (e : ℕ) → power e < 256
unfolding power
power-lt zero = omega arith
power-lt (suc e) = double-lt (power e)

pub power-add : (m n : ℕ) → power (m + n) ≡ power m ⊗ power n
unfolding power
power-add zero n =
    let e : zero + n ≡ n = omega arith in rw (e, one-times (power n) (power-lt n)) refl
power-add (suc m) n =
    let e : suc m + n ≡ suc (m + n) = omega arith in
    rw e (ap double (power-add m n) ∙ sym (double-times (power m) (power n) (power-lt m)))

power_period : power 255 ≡ 1
unfolding power double
power_period = refl

power_laps : (k n : ℕ) → power (k * 255 + n) ≡ power n
power_laps zero n = ap power (omega arith)
power_laps (suc k) n =
    ap power (let e : suc k * 255 + n ≡ k * 255 + n + 255 = omega arith in e)
    ∙ power-add (k * 255 + n) 255
    ∙ ap (◌⊗◌ (power (k * 255 + n))) power_period
    ∙ times-one _ (power-lt (k * 255 + n))
    ∙ power_laps k n

pub power-mod : (n : ℕ) → power (n % 255) ≡ power n
power-mod n =
    sym (power_laps (n / 255) (n % 255))
    ∙ ap power (let e : n / 255 * 255 + n % 255 ≡ n = omega arith in e)

power_table : every_below 254 (λ i. not (power (i + 1) == 1)) ≡ true
unfolding every_below power double
power_table = refl

pub power-ne-one : (e : ℕ) → 0 < e → e < 255 → power e ≢ 1
power-ne-one e p q h = clash (every_below_sound 254 _ (e - 1) power_table (omega arith))
  where
    clash : not (power (e - 1 + 1) == 1) ≡ true → ⊥
    clash t = let same : e - 1 + 1 ≡ e = omega arith in cc (rw (same, h) at t)
