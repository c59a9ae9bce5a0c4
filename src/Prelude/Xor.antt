-- ===== src/Prelude/Xor.antt =====
-- Exclusive or of numbers of any width: the group laws of the native `bit_xor`, from its
-- definition as a recursion on binary digits.
use Prim.Native.Nat.{
  ℕ, zero, suc, ◌+◌, ◌-◌, ◌*◌, ◌/◌, ◌%◌, ◌^◌, ◌≤◌, ◌<◌, bit_xor, digits, differ, bit_xor-bitwise,
}
use mathlib.Core.Path.{◌≡◌, refl, sym, ap, ap₂, ◌∙◌}
use native.Mathlib.Nat.{pow-suc}
use native.Mathlib.Omega.{arith}

infixl 65 ◌⊕◌
abbrev pub ◌⊕◌ : ℕ → ℕ → ℕ
a ⊕ b = bit_xor a b

differ_bits : (x y : ℕ) → x < 2 → y < 2 → differ x y ≡ (x + y) % 2
differ_bits zero y p q = omega arith
differ_bits (suc zero) zero p q = omega arith
differ_bits (suc zero) (suc zero) p q = omega arith
differ_bits (suc zero) (suc (suc y)) p q = absurd (omega arith)
differ_bits (suc (suc x)) y p q = absurd (omega arith)

abbrev xor_digits : ℕ → ℕ → ℕ → ℕ
xor_digits n a b = digits (λ b. b) differ n a b

-- One more step of fuel changes nothing once there is enough.
xor_digits-suc : (n a b : ℕ) → a ≤ n → xor_digits (suc n) a b ≡ xor_digits n a b
xor_digits-suc zero a b h = let none_left : a ≡ 0 = omega arith in rw none_left refl
xor_digits-suc (suc n) zero b h = refl
xor_digits-suc (suc n) (suc a) b h =
    let half = xor_digits-suc n (suc a / 2) (b / 2) (omega arith) in
    ap (λ (t : ℕ). t * 2 + differ (suc a % 2) (b % 2)) half

-- Nor do any number of steps more.
xor_digits-more : (extra a b : ℕ) → xor_digits (extra + a) a b ≡ xor_digits a a b
xor_digits-more zero a b = let e : 0 + a ≡ a = omega arith in rw e refl
xor_digits-more (suc extra) a b =
    let e : suc extra + a ≡ suc (extra + a) = omega arith in
    rw e (xor_digits-suc (extra + a) a b (omega arith) ∙ xor_digits-more extra a b)

pub zero-xor : (b : ℕ) → 0 ⊕ b ≡ b
zero-xor b = bit_xor-bitwise 0 b

-- What the fuel of the native definition leaves for the half.
half_digits : (a b : ℕ) → xor_digits a (suc a / 2) b ≡ suc a / 2 ⊕ b
half_digits a b =
    let e : a ≡ a - suc a / 2 + suc a / 2 = omega arith in
    ap (λ (t : ℕ). xor_digits t (suc a / 2) b) e
    ∙ xor_digits-more (a - suc a / 2) (suc a / 2) b
    ∙ sym (bit_xor-bitwise (suc a / 2) b)

-- The lowest digit and the rest.
pub xor_step : (a b : ℕ) → a ⊕ b ≡ (a / 2 ⊕ b / 2) * 2 + (a % 2 + b % 2) % 2
xor_step zero b = let whole = zero-xor b in let half = zero-xor (b / 2) in omega arith
xor_step (suc a) b =
    let bit = differ_bits (suc a % 2) (b % 2) (omega arith) (omega arith) in
    bit_xor-bitwise (suc a) b ∙ ap₂ (λ x y. x * 2 + y) (half_digits a (b / 2)) bit

xor-zero_below : (n a : ℕ) → a ≤ n → a ⊕ 0 ≡ a
xor-zero_below zero a h = let e : a ≡ 0 = omega arith in rw e refl
xor-zero_below (suc n) zero h = refl
xor-zero_below (suc n) (suc a) h =
    omega (arith, xor_step (suc a) 0, xor-zero_below n (suc a / 2) (omega arith))

pub xor-zero : (a : ℕ) → a ⊕ 0 ≡ a
xor-zero a = xor-zero_below a a (omega arith)

xor_self_below : (n a : ℕ) → a ≤ n → a ⊕ a ≡ 0
xor_self_below zero a h = let e : a ≡ 0 = omega arith in rw e refl
xor_self_below (suc n) zero h = refl
xor_self_below (suc n) (suc a) h =
    omega (arith, xor_step (suc a) (suc a), xor_self_below n (suc a / 2) (omega arith))

pub xor_self : (a : ℕ) → a ⊕ a ≡ 0
xor_self a = xor_self_below a a (omega arith)

xor_comm_below : (n a b : ℕ) → a ≤ n → a ⊕ b ≡ b ⊕ a
xor_comm_below zero a b h = let e : a ≡ 0 = omega arith in rw (e, zero-xor) (sym (xor-zero b))
xor_comm_below (suc n) zero b h = zero-xor b ∙ sym (xor-zero b)
xor_comm_below (suc n) (suc a) b h = omega (
  arith,
  xor_step (suc a) b,
  xor_step b (suc a),
  xor_comm_below n (suc a / 2) (b / 2) (omega arith),
)

pub xor_comm : (a b : ℕ) → a ⊕ b ≡ b ⊕ a
xor_comm a b = xor_comm_below a a b (omega arith)

xor_assoc_below : (n a b c : ℕ) → a ≤ n → a ⊕ b ⊕ c ≡ a ⊕ (b ⊕ c)
xor_assoc_below zero a b c h =
    let e : a ≡ 0 = omega arith in rw (e, zero-xor b, zero-xor (b ⊕ c)) refl
xor_assoc_below (suc n) zero b c h = rw (zero-xor b, zero-xor (b ⊕ c)) refl
xor_assoc_below (suc n) (suc a) b c h =
    let (p, q, r, s) = halves in
    omega (
      arith,
      xor_step (suc a ⊕ b) c,
      xor_step (suc a) (b ⊕ c),
      xor_assoc_below n (suc a / 2) (b / 2) (c / 2) (omega arith),
      ap (λ (t : ℕ). t ⊕ c / 2) p,
      ap (λ (t : ℕ). suc a / 2 ⊕ t) r,
      q,
      s,
    )
  where
    halves :
        ((suc a ⊕ b) / 2 ≡ suc a / 2 ⊕ b / 2)
        × ((suc a ⊕ b) % 2 ≡ (suc a % 2 + b % 2) % 2)
        × ((b ⊕ c) / 2 ≡ b / 2 ⊕ c / 2)
        × ((b ⊕ c) % 2 ≡ (b % 2 + c % 2) % 2)
    halves = omega (arith, xor_step (suc a) b, xor_step b c)

pub xor_assoc : (a b c : ℕ) → a ⊕ b ⊕ c ≡ a ⊕ (b ⊕ c)
xor_assoc a b c = xor_assoc_below a a b c (omega arith)

pub xor-lt : (k a b : ℕ) → a < 2 ^ k → b < 2 ^ k → a ⊕ b < 2 ^ k
xor-lt zero a b p q =
    let e : a ≡ 0 = omega arith in let f : b ≡ 0 = omega arith in rw (e, f) (omega arith)
xor-lt (suc k) a b p q = omega (
  arith,
  pow-suc 2 k,
  xor_step a b,
  xor-lt k (a / 2) (b / 2) (omega (arith, pow-suc 2 k)) (omega (arith, pow-suc 2 k)),
)

-- A sum of three with one term twice is the other term.
pub xor_cancel : (a b : ℕ) → a ⊕ b ⊕ b ≡ a
xor_cancel a b = xor_assoc a b b ∙ ap (λ (t : ℕ). a ⊕ t) (xor_self b) ∙ xor-zero a

-- Two sums of two, added crosswise.
pub xor_interchange : (a b c d : ℕ) → a ⊕ b ⊕ (c ⊕ d) ≡ a ⊕ c ⊕ (b ⊕ d)
xor_interchange a b c d =
    cc
      (xor_assoc a b (c ⊕ d), xor_assoc b c d, xor_comm b c, xor_assoc c b d, xor_assoc a c (b ⊕ d))

pub xor_swap_last : (a b c : ℕ) → a ⊕ b ⊕ c ≡ a ⊕ c ⊕ b
xor_swap_last a b c = cc (xor_assoc a b c, xor_comm b c, xor_assoc a c b)
