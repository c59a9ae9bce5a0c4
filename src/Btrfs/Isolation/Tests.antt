-- ===== src/Btrfs/Isolation/Tests.antt =====
-- Tests and instances for the isolation of scrub-rs/src/btrfs/scrub.rs: four sectors of two bytes
-- at address 100, the third of which does not read. The reader counts its failures.
use rotshield.Prelude.{
  ℕ, suc, ◌+◌, ◌*◌, ◌≤◌, ◌≡◌, refl, ◌⊎◌, ◌==◌, ◌&&◌, leb, ltb, Bool-cases, inl, inr, if◌then◌else◌,
  false, [], ◌∷◌, replicate, length-replicate, some, arith,
}
use rotshield.Prelude.Io.{IoResult, ok, err, read_failed}
use rotshield.Recovery.Model.{Block}
use rotshield.Btrfs.Isolation.{
  Isolation, spend, push_good, fail, single, split_loop, split, attempted, isolate_run,
  isolate_run_read,
}
use rotshield.Array.Config.{add_u64}
use rotshield.Btrfs.Isolation.Ranges.{hits, lost, within}
use rotshield.Btrfs.Isolation.Partition.{ReadsInFull, isolate_run_read-partition}
use rotshield.Btrfs.Isolation.Spending.{Counts, isolate_run_read-budget}
use rotshield.Btrfs.Isolation.Exact.{IsExact, isolate_run_read-IsExact}

abbrev read : ℕ → ℕ → ℕ → ℕ × IoResult Block
read w a n =
    if leb a 105 && ltb 104 (a + n) then (suc w, err read_failed) else (w, ok (replicate n 7))

-- The whole range fails, then the third of four pieces.
one_bad_sector :
    isolate_run_read read 2 64 100 8 0
    ≡ some (record {
      world = 2;
      budget = record { remaining = 62; exhausted = false };
      good = (0, 7 ∷ 7 ∷ []) ∷ (2, 7 ∷ 7 ∷ []) ∷ (6, 7 ∷ 7 ∷ []) ∷ [];
      bad = 4 ∷ [];
    })
unfolding isolate_run_read isolate_run attempted split split_loop single fail push_good spend
    add_u64
one_bad_sector = refl

read_cases :
    (w a n : ℕ) → (read w a n ≡ (suc w, err read_failed)) ⊎ (read w a n ≡ (w, ok (replicate n 7)))
read_cases w a n = elim (Bool-cases (leb a 105 && ltb 104 (a + n))) [
  | inl e ↦ inl (rw e refl)
  | inr e ↦ inr (rw e refl)
]

in_full : ReadsInFull read 100 2
in_full w w' a n buf h = elim (read_cases w a n) [
  | inl e ↦ absurd (cc)
  | inr e ↦ let same : replicate n 7 ≡ buf = cc in rw (← same) (length-replicate n 7)
]

counts : Counts read 100 2 (λ w. w)
counts = (
  (λ w w' a n buf h. elim (read_cases w a n) [ inl e ↦ absurd (cc) | inr e ↦ cc ]),
  (λ w w' a n x h. elim (read_cases w a n) [ inl e ↦ cc | inr e ↦ absurd (cc) ]),
)

isolate_run_read-partition_example :
    (st : Isolation ℕ) × (isolate_run_read read 2 64 100 (4 * 2) 0 ≡ some st)
    × ((x : ℕ) → hits st.good x + lost 2 st.bad x ≡ within 0 (4 * 2) x)
isolate_run_read-partition_example =
    isolate_run_read-partition read 100 2 in_full 64 4 0 (omega arith) (omega arith) (omega arith)

isolate_run_read-budget_example :
    (st : Isolation ℕ) × (isolate_run_read read 2 64 100 (4 * 2) 0 ≡ some st)
    × (st.world ≤ 0 + 64)
    × (st.budget.exhausted ≡ (st.world == 0 + 64))
isolate_run_read-budget_example =
    isolate_run_read-budget read 100 2 (λ w. w) counts 64 4 0 (omega arith) (omega arith)
      (omega arith) (omega arith)

isolate_run_read-IsExact_example :
    (st : Isolation ℕ) × (isolate_run_read read 2 64 100 (4 * 2) 0 ≡ some st)
    × IsExact read 100 2 st
isolate_run_read-IsExact_example =
    isolate_run_read-IsExact read 100 2 64 4 0 (omega arith) (omega arith) (omega arith)
