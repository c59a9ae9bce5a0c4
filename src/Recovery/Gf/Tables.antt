-- ===== src/Recovery/Gf/Tables.antt =====
-- What the tables of scrub-rs/src/recovery/gf.rs hold: the loops that build them, entry by entry.
use rotshield.Prelude.{
  ℕ, zero, suc, ◌+◌, ◌≤◌, ◌<◌, ◌≡◌, ◌≢◌, refl, sym, ap, ◌∙◌, ◌==◌, if◌then◌else◌, ==_ne, List, [],
  ◌∷◌, length, replicate, length-replicate, arith,
}
use native.Mathlib.Decide.{ℕ_discrete}
use rotshield.Prelude.Xor.{◌⊕◌}
use rotshield.Recovery.Gf.{
  entry, store, fill, double, exp_loop, gf_mul_scalar, gf_pow_const, build_gfmul, build_gfexp,
  build_gfinv, build_gfexi, gfmul, gfexp, gfinv, gfexi,
}
use rotshield.Recovery.Gf.Field.{◌⊗◌, gf_mul_scalar-times}
use rotshield.Recovery.Gf.Powers.{power, power_next}

module _ {ℓ} {A : Type ℓ} where
  length-store : (t : List A) (i : ℕ) (v : A) → length (store t i v) ≡ length t
  unfolding store
  length-store [] i v = refl
  length-store (x ∷ t) zero v = refl
  length-store (x ∷ t) (suc i) v = ap suc (length-store t i v)

  entry-store_self : (t : List A) (i : ℕ) (v d : A) → i < length t → entry (store t i v) i d ≡ v
  unfolding entry store
  entry-store_self [] i v d h = absurd (omega arith)
  entry-store_self (x ∷ t) zero v d h = refl
  entry-store_self (x ∷ t) (suc i) v d h = entry-store_self t i v d (omega arith)

  entry-store_ne : (t : List A) (i j : ℕ) (v d : A) → i ≢ j → entry (store t i v) j d ≡ entry t j d
  unfolding entry store
  entry-store_ne [] i j v d h = refl
  entry-store_ne (x ∷ t) zero zero v d h = absurd (h refl)
  entry-store_ne (x ∷ t) zero (suc j) v d h = refl
  entry-store_ne (x ∷ t) (suc i) zero v d h = refl
  entry-store_ne (x ∷ t) (suc i) (suc j) v d h = entry-store_ne t i j v d (λ e. h (ap suc e))

  fill_before :
      (f : ℕ → A) (left i j : ℕ) (t : List A) (d : A)
      → j < i
      → entry (fill f left i t) j d ≡ entry t j d
  unfolding fill
  fill_before f zero i j t d h = refl
  fill_before f (suc left) i j t d h =
      fill_before f left (i + 1) j (store t i (f i)) d (omega arith)
      ∙ entry-store_ne t i j (f i) d (omega arith)

  -- The loop leaves `f j` at every index that it passes.
  pub entry-fill :
      (f : ℕ → A) (left i j : ℕ) (t : List A) (d : A)
      → i ≤ j
      → j < i + left
      → i + left ≤ length t
      → entry (fill f left i t) j d ≡ f j
  unfolding fill
  entry-fill f zero i j t d p q r = absurd (omega arith)
  entry-fill f (suc left) i j t d p q r = elim (ℕ_discrete i j) [
    | yes e ↦ rw (← e) (
        fill_before f left (i + 1) i (store t i (f i)) d (omega arith)
        ∙ entry-store_self t i (f i) d (omega arith))
    | no ne ↦
        entry-fill f left (i + 1) j (store t i (f i)) d (omega arith) (omega arith)
          (omega (arith, length-store t i (f i)))
  ]

-- A static of 256 entries.
entry-table {ℓ} :
    {A : Type ℓ} (f : ℕ → A) (z d : A) (i : ℕ)
    → i < 256
    → entry (fill f 256 0 (replicate 256 z)) i d ≡ f i
entry-table f z d i h =
    entry-fill f 256 0 i (replicate 256 z) d (omega arith) (omega arith)
      (omega (arith, length-replicate 256 z))

pub gfmul-times : (a b : ℕ) → a < 256 → b < 256 → gfmul a b ≡ a ⊗ b
unfolding gfmul build_gfmul
gfmul-times a b p q =
    ap (λ row. entry row b 0)
      (entry-table (λ a. fill (gf_mul_scalar a) 256 0 (replicate 256 0)) _ [] a p)
    ∙ entry-table (gf_mul_scalar a) 0 0 b q
    ∙ gf_mul_scalar-times a b q

exp_before : (left i v j : ℕ) (t : List ℕ) → j < i → entry (exp_loop left i v t) j 0 ≡ entry t j 0
unfolding exp_loop
exp_before zero i v j t h = refl
exp_before (suc left) i v j t h =
    exp_before left (i + 1) (double v) j (store t i v) (omega arith)
    ∙ entry-store_ne t i j v 0 (omega arith)

exp_at :
    (left i v j : ℕ) (t : List ℕ)
    → v ≡ power i
    → i ≤ j
    → j < i + left
    → i + left ≤ length t
    → entry (exp_loop left i v t) j 0 ≡ power j
unfolding exp_loop
exp_at zero i v j t e p q r = absurd (omega arith)
exp_at (suc left) i v j t e p q r = elim (ℕ_discrete i j) [
  | yes same ↦ rw (← same) (
      exp_before left (i + 1) (double v) i (store t i v) (omega arith)
      ∙ entry-store_self t i v 0 (omega arith)
      ∙ e)
  | no ne ↦
      exp_at left (i + 1) (double v) j (store t i v) (ap double e ∙ sym (power_next i))
        (omega arith) (omega arith) (omega (arith, length-store t i v))
]

pub gfexp-power : (e : ℕ) → e < 255 → gfexp e ≡ power e
unfolding gfexp build_gfexp
gfexp-power e h =
    entry-store_ne _ 255 e 0 0 (omega arith)
    ∙ exp_at 255 0 1 e (replicate 256 0) (unfold power in refl) (omega arith) (omega arith)
        (omega (arith, length-replicate {A = ℕ} 256 0))

pub gfinv_entry : (x : ℕ) → 0 < x → x < 256 → gfinv x ≡ gf_pow_const x 254
unfolding gfinv build_gfinv
gfinv_entry x p q =
    entry-table (λ i. if i == 0 then 0 else gf_pow_const i 254) 0 0 x q
    ∙ rw (==_ne x 0 (omega arith)) refl

pub gfexi_entry : (e : ℕ) → e < 255 → gfexi e ≡ gfinv (power e ⊕ 1)
unfolding gfexi build_gfexi gfinv
gfexi_entry e h =
    entry-table (λ i. entry build_gfinv (entry build_gfexp i 0 ⊕ 1) 0) 0 0 e (omega arith)
    ∙ ap (λ (t : ℕ). entry build_gfinv (t ⊕ 1) 0) (unfold gfexp in gfexp-power e h)
