-- ===== src/Btrfs/ChunkMap/Search.antt =====
-- The binary search of scrub-rs/src/btrfs/chunk.rs over ordered entries.
use Prim.Native.Nat.{Ordering}
use rotshield.Prelude.{
  ℕ, zero, suc, ◌<◌, ◌≡◌, refl, sym, ap, subst, ◌∙◌, ◌⊎◌, inl, inr, leb, ltb, ◌&&◌, Bool, true,
  false, Bool-cases, if◌then◌else◌, List, [], ◌∷◌, All, get_elem?, length, Option, none, some,
  arith,
}
use rotshield.Prelude.BinarySearch.{
  cmp_at, binary_search_by, IsSearchable, binary_search_by-hit, binary_search_by-miss,
}
use rotshield.Btrfs.ChunkMap.{MapEntry, compare_entry, entry_at}
use rotshield.Btrfs.ChunkMap.Order.{Before, Nonempty, Ordered}

-- The entry has the address, and the first one that has it.
abbrev pub hit : ℕ → MapEntry → Bool
hit a e = leb e.begin a && ltb a e.end

abbrev pub first_hit : List MapEntry → ℕ → Option MapEntry
first_hit [] a = none
first_hit (e ∷ es) a = if hit a e then some e else first_hit es a

module _ (a : ℕ) where
  compare_entry-eq : (e : MapEntry) → compare_entry a e ≡ Ordering.eq → hit a e ≡ true
  compare_entry-eq e h = ground arith

  compare_entry-hit : (e : MapEntry) → hit a e ≡ true → compare_entry a e ≡ Ordering.eq
  compare_entry-hit e h = ground arith

  Before-above :
      (e f : MapEntry)
      → Nonempty e
      → Before e f
      → compare_entry a e ≡ Ordering.gt
      → compare_entry a f ≡ Ordering.gt
  Before-above e f ne (inl b) h = ground arith
  Before-above e f ne (inr b) h = subst (λ (x : MapEntry). compare_entry a x ≡ Ordering.gt) b h

  Before-below :
      (e f : MapEntry)
      → Nonempty e
      → Nonempty f
      → Before e f
      → compare_entry a f ≡ Ordering.lt
      → compare_entry a e ≡ Ordering.lt
  Before-below e f ne nf (inl b) h = ground arith
  Before-below e f ne nf (inr b) h =
      subst (λ (x : MapEntry). compare_entry a x ≡ Ordering.lt) (sym b) h

  first-above :
      (e : MapEntry) (es : List MapEntry) (j : ℕ)
      → Nonempty e
      → All (Before e) es
      → compare_entry a e ≡ Ordering.gt
      → cmp_at (compare_entry a) es j ≡ Ordering.gt
  first-above e [] j ne h gt = refl
  first-above e (f ∷ es) zero ne h gt = Before-above e f ne h.0 gt
  first-above e (f ∷ es) (suc j) ne h gt = first-above e es j ne h.1 gt

  first-below :
      (e : MapEntry) (es : List MapEntry) (j : ℕ)
      → Nonempty e
      → Ordered es
      → All (Before e) es
      → cmp_at (compare_entry a) es j ≡ Ordering.lt
      → compare_entry a e ≡ Ordering.lt
  first-below e [] j ne order h lt = absurd (cc)
  first-below e (f ∷ es) zero ne order h lt = Before-below e f ne order.0 h.0 lt
  first-below e (f ∷ es) (suc j) ne order h lt = first-below e es j ne order.2 h.1 lt

  all-above :
      (es : List MapEntry) (i j : ℕ)
      → Ordered es
      → i < j
      → cmp_at (compare_entry a) es i ≡ Ordering.gt
      → cmp_at (compare_entry a) es j ≡ Ordering.gt
  all-above [] i j order lt h = refl
  all-above (e ∷ es) i zero order lt h = absurd (omega arith)
  all-above (e ∷ es) zero (suc j) order lt h = first-above e es j order.0 order.1 h
  all-above (e ∷ es) (suc i) (suc j) order lt h = all-above es i j order.2 (omega arith) h

  all-below :
      (es : List MapEntry) (i j : ℕ)
      → Ordered es
      → i < j
      → cmp_at (compare_entry a) es j ≡ Ordering.lt
      → cmp_at (compare_entry a) es i ≡ Ordering.lt
  all-below [] i j order lt h = absurd (cc)
  all-below (e ∷ es) i zero order lt h = absurd (omega arith)
  all-below (e ∷ es) zero (suc j) order lt h = first-below e es j order.0 order.2 order.1 h
  all-below (e ∷ es) (suc i) (suc j) order lt h = all-below es i j order.2 (omega arith) h

  Ordered-IsSearchable : (es : List MapEntry) → Ordered es → IsSearchable (compare_entry a) es
  Ordered-IsSearchable es order = record {
    above = λ i j lt h. all-above es i j order lt h;
    below = λ i j lt h. all-below es i j order lt h;
  }

  -- Entries that have the address are the same.
  hit-same :
      (e : MapEntry) (es : List MapEntry) (k : ℕ)
      → Nonempty e
      → All (Before e) es
      → hit a e ≡ true
      → cmp_at (compare_entry a) es k ≡ Ordering.eq
      → get_elem? es k ≡ some e
  hit-same e [] k ne h here there = absurd (cc)
  hit-same e (f ∷ es) zero ne (inl b, h) here there =
      let hit_f = compare_entry-eq f there in absurd (ground arith)
  hit-same e (f ∷ es) zero ne (inr b, h) here there = ap some (sym b)
  hit-same e (f ∷ es) (suc k) ne h here there = hit-same e es k ne h.1 here there

  -- An index that compares equal holds the first entry with the address.
  index-hit :
      (es : List MapEntry) (k : ℕ)
      → Ordered es
      → cmp_at (compare_entry a) es k ≡ Ordering.eq
      → get_elem? es k ≡ first_hit es a
  index-hit [] k order h = absurd (cc)
  index-hit (e ∷ es) zero order h = rw (compare_entry-eq e h) refl
  index-hit (e ∷ es) (suc k) order h = elim (Bool-cases (hit a e)) [
    | inl here ↦ rw here (hit-same e es k order.0 order.1 here h)
    | inr other ↦ rw other (index-hit es k order.2 h)
  ]

  -- Either an index compares equal, or there is no entry with the address.
  hit_or_none :
      (es : List MapEntry)
      → ((i : ℕ) × (i < length es) × (cmp_at (compare_entry a) es i ≡ Ordering.eq))
        ⊎ ((first_hit es a ≡ none) × ((k : ℕ) → cmp_at (compare_entry a) es k ≡ Ordering.eq → ⊥))
  hit_or_none [] = inr (refl, λ k h. cc)
  hit_or_none (e ∷ es) = elim (Bool-cases (hit a e)) [
    | inl here ↦ inl (0, omega arith, compare_entry-hit e here)
    | inr other ↦ elim (hit_or_none es) [
      | inl (i, below, h) ↦ inl (suc i, omega arith, h)
      | inr (nothing, nowhere) ↦ inr (rw other nothing, no_index other nowhere)
    ]
  ]
    where
      no_index :
          hit a e ≡ false
          → ((k : ℕ) → cmp_at (compare_entry a) es k ≡ Ordering.eq → ⊥)
          → (k : ℕ) → cmp_at (compare_entry a) (e ∷ es) k ≡ Ordering.eq
          → ⊥
      no_index other nowhere zero h = let here = compare_entry-eq e h in cc
      no_index other nowhere (suc k) h = nowhere k h

  pub search-first_hit :
      (es : List MapEntry)
      → Ordered es
      → entry_at es (binary_search_by (compare_entry a) es) ≡ first_hit es a
  unfolding entry_at
  search-first_hit es order = elim (hit_or_none es) [
    | inl (i, below, h) ↦
        let (k, found, eq) =
          binary_search_by-hit (compare_entry a) es (Ordered-IsSearchable es order) i below h in
        ap (entry_at es) found ∙ index-hit es k order eq
    | inr (nothing, nowhere) ↦
        ap (entry_at es) (binary_search_by-miss (compare_entry a) es nowhere) ∙ sym nothing
  ]
