-- ===== src/Prelude/Panics.antt =====
-- A Rust function that may panic: a failed `assert_eq!` or an index out of range.
use mathlib.Core.Path.{◌≡◌, refl, sym, subst}
use rotshield.Prelude.Tests.{if◌then◌else◌}
use mathlib.Core.Bool.{Bool, true, false}

pub data Panics {ℓ} (A : Type ℓ) : Type ℓ where
  returns : A → Panics A
  panic : Panics A

infixl 5 ◌>>=◌ ◌>>◌
abbrev pub ◌>>=◌ {ℓ κ} : {A : Type ℓ} {B : Type κ} → Panics A → (A → Panics B) → Panics B
returns a >>= f = f a
panic >>= f = panic

abbrev pub ◌>>◌ {ℓ} : {B : Type ℓ} → Panics (Unit {0}) → Panics B → Panics B
returns u >> k = k
panic >> k = panic

abbrev pub assert : Bool → Panics (Unit {0})
assert true = returns tt
assert false = panic

-- The function returns, and its result has a property.
abbrev pub Gives {ℓ κ} : {A : Type ℓ} → (A → Type κ) → Panics A → Type (ℓ ⊔ κ)
Gives {A} P m = (a : A) × (m ≡ returns a) × P a

pub Gives-bind {ℓ κ μ ν} :
    {A : Type ℓ} {B : Type κ} (P : A → Type μ) (Q : B → Type ν) (m : Panics A) (f : A → Panics B)
    → Gives P m
    → ((a : A) → P a → Gives Q (f a))
    → Gives Q (m >>= f)
Gives-bind P Q m f (a, e, p) next = let (b, e', q) = next a p in (b, rw e e', q)

-- One branch of a conditional.
pub Gives-true {ℓ κ} :
    {A : Type ℓ} (P : A → Type κ) (b : Bool) (x y : Panics A)
    → b ≡ true
    → Gives P x
    → Gives P (if b then x else y)
Gives-true P b x y e h = subst (λ (t : Bool). Gives P (if t then x else y)) (sym e) h

pub Gives-false {ℓ κ} :
    {A : Type ℓ} (P : A → Type κ) (b : Bool) (x y : Panics A)
    → b ≡ false
    → Gives P y
    → Gives P (if b then x else y)
Gives-false P b x y e h = subst (λ (t : Bool). Gives P (if t then x else y)) (sym e) h

-- Where a chain returns, its first step did, and so did what followed.
pub bind_returns {ℓ κ} :
    {A : Type ℓ} {B : Type κ} {f : A → Panics B} {b : B} (m : Panics A)
    → (m >>= f) ≡ returns b
    → (a : A) × (m ≡ returns a) × (f a ≡ returns b)
bind_returns (returns first) h = (first, refl, h)
bind_returns panic h = absurd (cc)
