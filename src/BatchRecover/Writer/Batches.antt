-- ===== src/BatchRecover/Writer/Batches.antt =====
-- The candidates of one batch of the writer of scrub-rs/src/batch_recover.rs: the duplicates, and the
-- loop with its deferral.
use rotshield.Prelude.{
  ℕ, ◌+◌, ◌≤◌, ◌<◌, ◌≡◌, refl, ◌==◌, Bool, true, false, Bool-cases, inl, inr, List, [], ◌∷◌, length,
  All, arith,
}
use rotshield.Prelude.Sort.{length-sort_by_key, All-sort_by_key}
use rotshield.Prelude.Panics.{Gives, Gives-bind, Gives-true, Gives-false}
use rotshield.Array.Config.{ArrayConfig}
use rotshield.Array.Stripe.Shapes.{IsLayout, AreBytes}
use rotshield.BatchRecover.Writer.{
  Candidate, Kernel, Progress, sort_by_phys, dedup_after, dedup_by_phys, process_candidate, looked,
  flush_loop,
}
use rotshield.BatchRecover.Writer.Counts.{Grows-join}
use rotshield.BatchRecover.Writer.Steps.{Step, Steps, Steps-trans}
use rotshield.BatchRecover.Writer.Candidates.{Handled, process_candidate-Handled}

pub length-sort_by_phys : (cs : List Candidate) → length (sort_by_phys cs) ≡ length cs
unfolding sort_by_phys
length-sort_by_phys cs = length-sort_by_key (λ (c : Candidate). c.array_phys) cs

length-dedup_after : (c : Candidate) (cs : List Candidate) → length (dedup_after c cs) ≤ length cs
unfolding dedup_after
length-dedup_after c [] = omega arith
length-dedup_after c (d ∷ cs) = elim (Bool-cases (c.array_phys == d.array_phys)) [
  | inl e ↦ rw e (omega (arith, length-dedup_after c cs))
  | inr e ↦ rw e (omega (arith, length-dedup_after d cs))
]

-- The first of the sorted batch is kept.
pub length-dedup_by_phys :
    (cs : List Candidate)
    → (length (dedup_by_phys cs) ≤ length cs) × (0 < length cs → 0 < length (dedup_by_phys cs))
unfolding dedup_by_phys
length-dedup_by_phys [] = (omega arith, λ h. h)
length-dedup_by_phys (c ∷ cs) = (omega (arith, length-dedup_after c cs), λ h. omega arith)

module _ (P : Candidate → Type 0) where
  All-dedup_after : (c : Candidate) (cs : List Candidate) → All P cs → All P (dedup_after c cs)
  unfolding dedup_after
  All-dedup_after c [] h = tt
  All-dedup_after c (d ∷ cs) h = elim (Bool-cases (c.array_phys == d.array_phys)) [
    | inl e ↦ rw e (All-dedup_after c cs h.1)
    | inr e ↦ rw e (h.0, All-dedup_after d cs h.1)
  ]

  pub All-unique : (cs : List Candidate) → All P cs → All P (dedup_by_phys (sort_by_phys cs))
  unfolding dedup_by_phys sort_by_phys
  All-unique cs h =
      kept (sort_by_phys cs) (All-sort_by_key (λ (c : Candidate). c.array_phys) P cs h)
    where
      kept : (cs : List Candidate) → All P cs → All P (dedup_by_phys cs)
      kept [] h = tt
      kept (c ∷ cs) h = (h.0, All-dedup_after c cs h.1)

module _ {ℓ} {W : Type ℓ} (kernel : Kernel W) (cfg : ArrayConfig) (scrub_slot : ℕ) (dry_run : Bool)
    (InBatch : Candidate → Type 0) (layout : IsLayout 1 cfg.data_devs) (slot_from : 1 ≤ scrub_slot)
    (slot_below : scrub_slot < 256) (bytes : (w : W) → AreBytes (kernel.devices w)) where
  -- Of the candidates some have ended in their buckets, at least one if `first` says so and there is
  -- one, and the rest is deferred.
  abbrev pub LoopDone :
      (writes_allowed first : Bool)
      → List Candidate
      → Progress W
      → Progress W × List Candidate
      → Type ℓ
  LoopDone writes_allowed first cands p (p', deferred) =
      (ended : ℕ) × (ended + length deferred ≡ length cands)
      × Handled kernel cfg scrub_slot dry_run writes_allowed InBatch ended p.world p.stats p'
      × All InBatch deferred
      × (first ≡ true → 0 < length cands → 0 < ended)

  -- The clock alone is looked at, and never before the first candidate.
  looked-Steps :
      (writes_allowed : Bool) (began : W) (first : Bool) (w : W)
      → Steps kernel cfg dry_run writes_allowed
          (λ c u. InBatch c)
          w
          (looked kernel cfg scrub_slot dry_run writes_allowed began first w).0
        × ((looked kernel cfg scrub_slot dry_run writes_allowed began first w).1 ≡ true
            → first ≡ true
            → ⊥)
  unfolding looked
  looked-Steps writes_allowed began true w = (Steps.here, λ late e. cc)
  looked-Steps true began false w = (Steps.next Steps.here (Step.waited began refl), λ late e. cc)
  looked-Steps false began false w = (Steps.here, λ late e. cc)

  pub flush_loop-Done :
      (writes_allowed : Bool) (began : W) (first : Bool) (cands : List Candidate) (p : Progress W)
      → All InBatch cands
      → Gives
          (LoopDone writes_allowed first cands p)
          (flush_loop kernel cfg scrub_slot dry_run writes_allowed began first cands p)
  unfolding flush_loop
  flush_loop-Done writes_allowed began first [] p h =
      ((p, []), refl, (0, refl, (omega arith, Steps.here), tt, λ e h'. h'))
  flush_loop-Done writes_allowed began first (c ∷ cands) p h =
      let look = looked kernel cfg scrub_slot dry_run writes_allowed began first p.world in
      let now : Progress W = record p { world = look.0 } in
      let (waits, begun) = looked-Steps writes_allowed began first p.world in
      elim (Bool-cases look.1) [
        | inl late ↦ Gives-true (LoopDone writes_allowed first (c ∷ cands) p) _ _ _ late (
          (now, c ∷ cands),
          refl,
          (0, omega arith, (omega arith, waits), h, λ e h'. absurd (begun late e)),
        )
        | inr early ↦ Gives-false (LoopDone writes_allowed first (c ∷ cands) p) _ _ _ early (
            Gives-bind
              (Handled kernel cfg scrub_slot dry_run writes_allowed InBatch 1 now.world now.stats)
              (LoopDone writes_allowed first (c ∷ cands) p)
              (process_candidate kernel cfg scrub_slot dry_run writes_allowed c now) _
              (process_candidate-Handled kernel cfg scrub_slot dry_run writes_allowed InBatch c h.0
                layout slot_from slot_below bytes now)
              (λ p' one.
                let ((p'', deferred), e, (ended, sum, (grows, trace), rest, begun')) =
                  flush_loop-Done writes_allowed began false cands p' h.1 in
                (
                  (p'', deferred),
                  e,
                  (
                    1 + ended,
                    omega arith,
                    (
                      Grows-join 1 ended p.stats p'.stats p''.stats one.0 grows,
                      Steps-trans kernel cfg dry_run writes_allowed (λ c w. InBatch c) waits
                          (Steps-trans kernel cfg dry_run writes_allowed (λ c w. InBatch c) one.1
                            trace),
                    ),
                    rest,
                    λ e' h'. omega arith,
                  ),
                )))
      ]
