-- ===== src/Prelude/Sort.antt =====
-- `sort_by_key`, the stable sort of the standard library, as an insertion sort.
use Prim.Native.Nat.{ℕ, suc}
use mathlib.Core.Path.{◌≡◌, refl, ap, ◌∙◌}
use mathlib.Core.Logic.{inl, inr}
use mathlib.Core.List.{List, [], ◌∷◌}
use rotshield.Prelude.Tests.{leb, if◌then◌else◌, Bool-cases}
use rotshield.Prelude.Lists.{length, All}

unfoldable pub insert_by_key {ℓ} : {A : Type ℓ} → (A → ℕ) → A → List A → List A
insert_by_key key c [] = c ∷ []
insert_by_key key c (d ∷ cs) =
    if leb (key c) (key d) then c ∷ d ∷ cs else d ∷ insert_by_key key c cs

unfoldable pub sort_by_key {ℓ} : {A : Type ℓ} → (A → ℕ) → List A → List A
sort_by_key key [] = []
sort_by_key key (c ∷ cs) = insert_by_key key c (sort_by_key key cs)

module _ {ℓ} {A : Type ℓ} (key : A → ℕ) where
  length-insert_by_key : (c : A) (cs : List A) → length (insert_by_key key c cs) ≡ suc (length cs)
  unfolding insert_by_key
  length-insert_by_key c [] = refl
  length-insert_by_key c (d ∷ cs) = elim (Bool-cases (leb (key c) (key d))) [
    | inl e ↦ rw e refl
    | inr e ↦ rw e (ap suc (length-insert_by_key c cs))
  ]

  pub length-sort_by_key : (cs : List A) → length (sort_by_key key cs) ≡ length cs
  unfolding sort_by_key
  length-sort_by_key [] = refl
  length-sort_by_key (c ∷ cs) =
      length-insert_by_key c (sort_by_key key cs) ∙ ap suc (length-sort_by_key cs)

module _ {ℓ κ} {A : Type ℓ} (key : A → ℕ) (P : A → Type κ) where
  pub All-insert_by_key : (c : A) (cs : List A) → P c → All P cs → All P (insert_by_key key c cs)
  unfolding insert_by_key
  All-insert_by_key c [] p h = (p, tt)
  All-insert_by_key c (d ∷ cs) p h = elim (Bool-cases (leb (key c) (key d))) [
    | inl e ↦ rw e (p, h)
    | inr e ↦ rw e (h.0, All-insert_by_key c cs p h.1)
  ]

  pub All-sort_by_key : (cs : List A) → All P cs → All P (sort_by_key key cs)
  unfolding sort_by_key
  All-sort_by_key [] h = tt
  All-sort_by_key (c ∷ cs) h = All-insert_by_key c (sort_by_key key cs) h.0 (All-sort_by_key cs h.1)
