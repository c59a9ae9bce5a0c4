-- ===== src/Prelude/BinarySearch.antt =====
-- `binary_search_by` of the standard library: the comparison says how an element lies to the target.
use Prim.Native.Nat.{ℕ, zero, suc, ◌+◌, ◌-◌, ◌/◌, ◌≤◌, ◌<◌, Ordering}
use mathlib.Core.Path.{◌≡◌, refl, sym, ap, ◌∙◌}
use mathlib.Core.Logic.{inl, inr}
use mathlib.Core.List.{List}
use mathlib.Core.Option.{Option, none, some}
use native.Mathlib.Omega.{arith}
use rotshield.Prelude.Tests.{ltb, leb, if◌then◌else◌, Bool-cases}
use rotshield.Prelude.Lists.{length, get_elem?}

module _ {ℓ} {A : Type ℓ} (f : A → Ordering) (xs : List A) where
  abbrev pub cmp_at : ℕ → Ordering
  cmp_at i = elim (get_elem? xs i) [ none ↦ Ordering.gt | some x ↦ f x ]

  -- The half that is kept: from the middle on, unless the middle is greater than the target.
  abbrev pub next_base : Ordering → ℕ → ℕ → ℕ
  next_base Ordering.gt base mid = base
  next_base Ordering.eq base mid = mid
  next_base Ordering.lt base mid = mid

  unfoldable pub search_loop : ℕ → ℕ → ℕ → ℕ
  search_loop zero base size = base
  search_loop (suc fuel) base size =
      let mid = base + size / 2 in
      let rest = search_loop fuel (next_base (cmp_at mid) base mid) (size - size / 2) in
      if ltb 1 size then rest else base

  abbrev pub found_at : Ordering → ℕ → Option ℕ
  found_at Ordering.eq base = some base
  found_at Ordering.lt base = none
  found_at Ordering.gt base = none

  unfoldable pub binary_search_by : Option ℕ
  binary_search_by = let base = search_loop (length xs) 0 (length xs) in found_at (cmp_at base) base

  -- The elements below the target come first and those above it last.
  pub record IsSearchable : Type ℓ where
    pub above : (i j : ℕ) → i < j → cmp_at i ≡ Ordering.gt → cmp_at j ≡ Ordering.gt
    pub below : (i j : ℕ) → i < j → cmp_at j ≡ Ordering.lt → cmp_at i ≡ Ordering.lt

  abbrev Holds : ℕ → ℕ → Type 0
  Holds base size = (i : ℕ) × (base ≤ i) × (i < base + size) × (cmp_at i ≡ Ordering.eq)

  module _ (searchable : IsSearchable) where
    next_base-Holds :
        (base size : ℕ) (c : Ordering)
        → 1 < size
        → cmp_at (base + size / 2) ≡ c
        → Holds base size
        → Holds (next_base c base (base + size / 2)) (size - size / 2)
    next_base-Holds base size Ordering.gt big e (i, from, upto, hit) =
        elim (Bool-cases (leb (base + size / 2) i)) [
          | inl late ↦ elim (Bool-cases (ltb (base + size / 2) i)) [
            | inl after ↦
                let high = searchable.above (base + size / 2) i (ground arith) e in absurd (cc)
            | inr same ↦
                let at_mid : base + size / 2 ≡ i = ground arith in
                let both : Ordering.gt ≡ Ordering.eq = sym e ∙ ap cmp_at at_mid ∙ hit in absurd (cc)
          ]
          | inr early ↦ (i, from, ground arith, hit)
        ]
    next_base-Holds base size Ordering.eq big e (i, from, upto, hit) =
        (base + size / 2, omega arith, omega arith, e)
    next_base-Holds base size Ordering.lt big e (i, from, upto, hit) =
        elim (Bool-cases (leb (base + size / 2) i)) [
          | inl late ↦ (i, ground arith, omega arith, hit)
          | inr early ↦
              let low = searchable.below i (base + size / 2) (ground arith) e in absurd (cc)
        ]

    search_loop-Holds :
        (fuel base size : ℕ)
        → size ≤ fuel
        → Holds base size
        → cmp_at (search_loop fuel base size) ≡ Ordering.eq
    unfolding search_loop
    search_loop-Holds zero base size enough (i, from, upto, hit) = absurd (omega arith)
    search_loop-Holds (suc fuel) base size enough h = elim (Bool-cases (ltb 1 size)) [
      | inl more ↦ rw more (
          search_loop-Holds fuel _ (size - size / 2) (ground arith)
            (next_base-Holds base size (cmp_at (base + size / 2)) (ground arith) refl h))
      | inr last ↦
          let (i, from, upto, hit) = h in
          let here : base ≡ i = ground arith in rw last (ap cmp_at here ∙ hit)
    ]

    -- An equal element is found where there is one.
    pub binary_search_by-hit :
        (i : ℕ)
        → i < length xs
        → cmp_at i ≡ Ordering.eq
        → (k : ℕ) × (binary_search_by ≡ some k) × (cmp_at k ≡ Ordering.eq)
    unfolding binary_search_by
    binary_search_by-hit i below hit =
        let base = search_loop (length xs) 0 (length xs) in
        let e : cmp_at base ≡ Ordering.eq =
          search_loop-Holds (length xs) 0 (length xs) (omega arith)
            (i, omega arith, omega arith, hit) in
        (base, ap (λ (c : Ordering). found_at c base) e, e)

  pub binary_search_by-miss : ((k : ℕ) → cmp_at k ≡ Ordering.eq → ⊥) → binary_search_by ≡ none
  unfolding binary_search_by
  binary_search_by-miss miss =
      let base = search_loop (length xs) 0 (length xs) in none_at (cmp_at base) base (miss base)
    where
      none_at : (c : Ordering) (base : ℕ) → (c ≡ Ordering.eq → ⊥) → found_at c base ≡ none
      none_at Ordering.eq base not_eq = absurd (not_eq refl)
      none_at Ordering.lt base not_eq = refl
      none_at Ordering.gt base not_eq = refl
