-- ===== src/Prelude/Io.antt =====
-- `std::io::Result`: the errors that the modelled code tells apart.
use mathlib.Core.Path.{◌≡◌, refl}

pub data IoError : Type 0 where
  open_failed read_failed write_failed not_found ioctl_failed metadata_failed invalid_data
        unexpected_eof other :
      IoError

pub data IoResult {ℓ} (A : Type ℓ) : Type ℓ where
  ok : A → IoResult A
  err : IoError → IoResult A

infixl 5 ◌>>=◌
abbrev pub ◌>>=◌ {ℓ κ} : {A : Type ℓ} {B : Type κ} → IoResult A → (A → IoResult B) → IoResult B
ok a >>= f = f a
err e >>= f = err e

-- Where a chain succeeds, its first step did, and so did what followed.
pub bind_ok {ℓ κ} :
    {A : Type ℓ} {B : Type κ} {f : A → IoResult B} {b : B} (m : IoResult A)
    → (m >>= f) ≡ ok b
    → (a : A) × (m ≡ ok a) × (f a ≡ ok b)
bind_ok (ok first) h = (first, refl, h)
bind_ok (err e) h = absurd (cc)
