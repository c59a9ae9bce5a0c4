-- ===== src/Recovery/Gf/Linear.antt =====
-- The step `double` of scrub-rs/src/recovery/gf.rs is linear over bytes, and the Boolean tests by
-- which a statement about all bytes is decided.
use Prim.Native.Nat.{digits, bit_and-bitwise}
use native.Mathlib.Decide.{ℕ_discrete}
use rotshield.Prelude.{
  ℕ, zero, suc, ◌*◌, ◌/◌, ◌%◌, ◌<◌, min, ◌≡◌, refl, ◌==◌, ==_iff, leb, if◌then◌else◌, Bool, true,
  false, bit_and, arith,
}
use rotshield.Prelude.Xor.{◌⊕◌, xor-lt}
use rotshield.Recovery.Gf.{double}

-- The test is true at every number below the bound.
unfoldable pub every_below : ℕ → (ℕ → Bool) → Bool
every_below zero test = true
every_below (suc k) test = if test k then every_below k test else false

pub every_below_sound :
    (bound : ℕ) (test : ℕ → Bool) (x : ℕ)
    → every_below bound test ≡ true
    → x < bound
    → test x ≡ true
unfolding every_below
every_below_sound zero test x passed below = absurd (omega arith)
every_below_sound (suc k) test x passed below = elim (ℕ_discrete x k) [
  | yes last ↦ rw last (ground arith)
  | no other ↦ every_below_sound k test x (ground arith) (omega arith)
]

and_digits-zero : (n a : ℕ) → digits (λ b. zero) min n a 0 ≡ 0
and_digits-zero zero a = refl
and_digits-zero (suc n) zero = refl
and_digits-zero (suc n) (suc a) = omega (arith, and_digits-zero n (suc a / 2))

-- `b & 1` is the lowest digit.
pub bit_and-one : (b : ℕ) → bit_and b 1 ≡ b % 2
bit_and-one zero = refl
bit_and-one (suc b) = omega (arith, bit_and-bitwise (suc b) 1, and_digits-zero b (suc b / 2))

double-xor_table :
    every_below 256 (λ a. every_below 256 (λ b. double (a ⊕ b) == double a ⊕ double b)) ≡ true
unfolding every_below double
double-xor_table = refl

pub double-xor : (a b : ℕ) → a < 256 → b < 256 → double (a ⊕ b) ≡ double a ⊕ double b
double-xor a b p q = (==_iff _ _).0 (
    every_below_sound 256 (λ b. double (a ⊕ b) == double a ⊕ double b) b
      (every_below_sound 256 _ a double-xor_table p) q)

pub double-lt : (a : ℕ) → double a < 256
unfolding double
double-lt a = xor-lt 8 _ _ (omega arith) (ground arith)

-- Doubling is a shift, less the field polynomial 0x11d where the high digit escapes.
double_table : every_below 256 (λ b. double b == b * 2 ⊕ (if leb 128 b then 0x11d else 0)) ≡ true
unfolding every_below double
double_table = refl

pub double_shift : (b : ℕ) → b < 256 → double b ≡ b * 2 ⊕ (if leb 128 b then 0x11d else 0)
double_shift b p = (==_iff _ _).0 (every_below_sound 256 _ b double_table p)

pub double-zero : double 0 ≡ 0
unfolding double
double-zero = refl
