-- ===== src/Recovery/Gf.antt =====
-- scrub-rs/src/recovery/gf.rs: multiplication in GF(2^8) with the reduction byte 0x1d, and the
-- tables that the crate builds at compile time. A byte is a number below 256 and `^` is `⊕`.
-- A `while` loop takes its fuel from the number that it halves, which it always outlives.
pub mod Linear
pub mod Product
pub mod Field
pub mod Powers
pub mod Tables
pub mod Inverse
pub mod Coefficients
pub mod Exponent
pub mod Laws
mod Tests
use rotshield.Prelude.{
  ℕ, zero, suc, ◌+◌, ◌-◌, ◌*◌, ◌/◌, ◌%◌, ◌^◌, bit_and, Bool, true, false, List, [], ◌∷◌, ◌==◌, leb,
  if◌then◌else◌, replicate,
}
use rotshield.Prelude.Xor.{◌⊕◌}

-- `(a << 1) ^ (if a & 0x80 != 0 { 0x1d } else { 0 })`, the step that three loops share.
pub double : ℕ → ℕ
double a = (a * 2) % 256 ⊕ (if bit_and a 0x80 == 0 then 0 else 0x1d)

pub mul_loop : ℕ → ℕ → ℕ → ℕ → ℕ
mul_loop zero a b v = v
mul_loop (suc fuel) a b v =
    let next = mul_loop fuel (double a) (b / 2) (if bit_and b 1 == 0 then v else v ⊕ a) in
    if b == 0 then v else next

pub gf_mul_scalar : ℕ → ℕ → ℕ
gf_mul_scalar a b = mul_loop b a b 0

-- Indexing of a table by a byte, and the store of one entry; every table has 256 entries, so a
-- byte is in range.
module _ {ℓ} {A : Type ℓ} where
  pub entry : List A → ℕ → A → A
  entry [] i d = d
  entry (x ∷ xs) zero d = x
  entry (x ∷ xs) (suc i) d = entry xs i d

  pub store : List A → ℕ → A → List A
  store [] i v = []
  store (x ∷ xs) zero v = v ∷ xs
  store (x ∷ xs) (suc i) v = x ∷ store xs i v

  -- `while i < n { t[i] = f(i); i += 1; }`, with `left` rounds to go.
  pub fill : (ℕ → A) → ℕ → ℕ → List A → List A
  fill f zero i t = t
  fill f (suc left) i t = fill f left (i + 1) (store t i (f i))

pub build_gfmul : List (List ℕ)
build_gfmul =
    fill (λ a. fill (λ b. gf_mul_scalar a b) 256 0 (replicate 256 0)) 256 0
      (replicate 256 (replicate 256 0))

pub exp_loop : ℕ → ℕ → ℕ → List ℕ → List ℕ
exp_loop zero i v t = t
exp_loop (suc left) i v t = exp_loop left (i + 1) (double v) (store t i v)

pub build_gfexp : List ℕ
build_gfexp = store (exp_loop 255 0 1 (replicate 256 0)) 255 0

pub pow_loop : ℕ → (ℕ → ℕ → ℕ) → ℕ → ℕ → ℕ → ℕ
pow_loop zero mul a p v = v
pow_loop (suc fuel) mul a p v =
    let next = pow_loop fuel mul (mul a a) (p / 2) (if bit_and p 1 == 0 then v else mul v a) in
    if p == 0 then v else next

pub gf_pow_const : ℕ → ℕ → ℕ
gf_pow_const x p = pow_loop p gf_mul_scalar x p 1

pub build_gfinv : List ℕ
build_gfinv = fill (λ i. if i == 0 then 0 else gf_pow_const i 254) 256 0 (replicate 256 0)

pub build_gfexi : List ℕ
build_gfexi = fill (λ i. entry build_gfinv (entry build_gfexp i 0 ⊕ 1) 0) 256 0 (replicate 256 0)

-- The statics GFMUL, GFEXP, GFINV and GFEXI at an index.
pub gfmul : ℕ → ℕ → ℕ
gfmul a b = entry (entry build_gfmul a []) b 0

pub gfexp : ℕ → ℕ
gfexp e = entry build_gfexp e 0

pub gfinv : ℕ → ℕ
gfinv x = entry build_gfinv x 0

pub gfexi : ℕ → ℕ
gfexi e = entry build_gfexi e 0

-- An `i32` is its bit pattern, below 2 ^ 32: `as i32`, `-`, unary `-`, the sign, and `rem_euclid`.
pub as_i32 : ℕ → ℕ
as_i32 n = n % 2 ^ 32

pub sub_i32 : ℕ → ℕ → ℕ
sub_i32 a b = (a + 2 ^ 32 - b) % 2 ^ 32

pub neg_i32 : ℕ → ℕ
neg_i32 a = sub_i32 0 a

pub is_negative : ℕ → Bool
is_negative a = leb (2 ^ 31) a

pub rem_euclid : ℕ → ℕ → ℕ
rem_euclid a m = if is_negative a then (m - (2 ^ 32 - a) % m) % m else a % m

pub gf_exp : ℕ → ℕ
gf_exp e = gfexp (rem_euclid e 255)

-- `p %= 255; if p < 0 { p += 255 }`: the remainder of an `i32` has the sign of the dividend.
pub normalize : ℕ → ℕ
normalize p = if is_negative r then (r + 255) % 2 ^ 32 else r
  where
    r : ℕ
    r = if is_negative p then neg_i32 ((2 ^ 32 - p) % 255) else p % 255

pub gf_pow : ℕ → ℕ → ℕ
gf_pow x p = let r = normalize p in pow_loop r gfmul x r 1

pub gf_inv : ℕ → ℕ
gf_inv x = if x == 0 then 0 else gf_pow x 254

pub gf_mul : ℕ → ℕ → ℕ
gf_mul a b = gfmul a b
