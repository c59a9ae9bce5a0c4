-- ===== src/BatchRecover/Writer/Windows.antt =====
-- The window of one batch of the writer of scrub-rs/src/batch_recover.rs, from the guard to its drop.
use rotshield.Prelude.{
  ℕ, suc, zero, ◌+◌, ◌-◌, ◌≤◌, ◌<◌, ◌≡◌, refl, sym, subst, ◌⊎◌, Bool, true, not, ◌||◌, inl, inr,
  List, length, All, Option, none, some, arith,
}
use rotshield.Prelude.Io.{IoError, other, IoResult, ok, err}
use rotshield.Prelude.Panics.{Gives, Gives-bind}
use rotshield.Array.Config.{ArrayConfig, add_u64}
use rotshield.Array.Stripe.Shapes.{IsLayout, AreBytes}
use rotshield.Freeze.{System, FreezeGuard, guard, take_thaw_error, ioctl_path}
use rotshield.BatchRecover.Writer.{
  Candidate, BatchStats, Kernel, Progress, Flushed, sort_by_phys, dedup_by_phys, flush_loop,
  is_held, has_live_mount, drop_guard, thaw_checked, close_window, window, flush_batch,
}
use rotshield.BatchRecover.Writer.Counts.{Grows, Grows-join, deduped-Grows}
use rotshield.BatchRecover.Writer.Candidates.{Handled}
use rotshield.BatchRecover.Writer.Batches.{
  length-sort_by_phys, length-dedup_by_phys, All-unique, LoopDone, flush_loop-Done,
}

left_lem : (e d n : ℕ) → e + d ≡ n → (0 < n → 0 < e) → d ≤ n - 1
left_lem e d zero sum h = omega arith
left_lem e d (suc n) sum h = let some_end = h (omega arith) in omega arith

module _ {ℓ} {W : Type ℓ} (kernel : Kernel W) (cfg : ArrayConfig) (scrub_slot : ℕ) (dry_run : Bool)
    (InBatch : Candidate → Type 0) (layout : IsLayout 1 cfg.data_devs) (slot_from : 1 ≤ scrub_slot)
    (slot_below : scrub_slot < 256) (bytes : (w : W) → AreBytes (kernel.devices w)) where
  -- The end of a window that a guard, or none, began: `ended` candidates are in their buckets, the
  -- rest is deferred, at least one less than there were; the system is the one after the window
  -- with the guard dropped.
  abbrev pub WindowDone :
      List Candidate → BatchStats → System W × IoResult (Option FreezeGuard) → Flushed W → Type ℓ
  WindowDone cands s (system, result) f =
      (ended : ℕ) × (deferred : List Candidate) × (w : W) × (ended + length deferred ≡ length cands)
      × (length deferred ≤ length cands - 1)
      × Handled kernel cfg scrub_slot dry_run
          (is_held kernel cfg scrub_slot dry_run result
            || not (has_live_mount kernel cfg scrub_slot dry_run system.controller))
          InBatch ended system.kernel s (record { world = w; stats = f.stats })
      × All InBatch deferred
      × (f.system
          ≡ (take_thaw_error (
              drop_guard kernel cfg scrub_slot dry_run
                (is_held kernel cfg scrub_slot dry_run result) (record system { kernel = w }))).0)
      × (((f.deferred ≡ ok deferred)
            × ((drop_guard kernel cfg scrub_slot dry_run
                  (is_held kernel cfg scrub_slot dry_run result)
                  (record system { kernel = w })).controller.last_thaw_error
                ≡ none))
          ⊎ ((f.deferred ≡ err other)
              × ((e : IoError) × ((drop_guard kernel cfg scrub_slot dry_run
                      (is_held kernel cfg scrub_slot dry_run result)
                      (record system { kernel = w })).controller.last_thaw_error
                    ≡ some e))))

  thaw_checked_lem :
      (s : BatchStats) (deferred : List Candidate) (res : System W × Option IoError)
      → ((thaw_checked kernel cfg scrub_slot dry_run s deferred res).system ≡ res.0)
        × ((thaw_checked kernel cfg scrub_slot dry_run s deferred res).stats ≡ s)
        × ((((thaw_checked kernel cfg scrub_slot dry_run s deferred res).deferred ≡ ok deferred)
              × (res.1 ≡ none))
            ⊎ (((thaw_checked kernel cfg scrub_slot dry_run s deferred res).deferred ≡ err other)
                × ((e : IoError) × (res.1 ≡ some e))))
  unfolding thaw_checked
  thaw_checked_lem s deferred (system, none) = (refl, refl, inl (refl, refl))
  thaw_checked_lem s deferred (system, some e) = (refl, refl, inr (refl, (e, refl)))

  window-Done :
      (cands : List Candidate) (s : BatchStats) (guarded : System W × IoResult (Option FreezeGuard))
      → All InBatch cands
      → Gives (WindowDone cands s guarded) (window kernel cfg scrub_slot dry_run cands s guarded)
  unfolding window close_window take_thaw_error
  window-Done cands s (system, result) h =
      let held = is_held kernel cfg scrub_slot dry_run result in
      let allowed = held || not (has_live_mount kernel cfg scrub_slot dry_run system.controller) in
      let start : Progress W = record { world = system.kernel; stats = s } in
      Gives-bind
        (LoopDone kernel cfg scrub_slot dry_run InBatch layout slot_from slot_below bytes allowed
          true cands start)
        (WindowDone cands s (system, result))
        (flush_loop kernel cfg scrub_slot dry_run allowed system.kernel true cands start) _
        (flush_loop-Done kernel cfg scrub_slot dry_run InBatch layout slot_from slot_below bytes
          allowed system.kernel true cands start h)
        (λ (p, deferred) (ended, sum, (grows, trace), rest, begun).
          let (same, stats, told) = thaw_checked_lem p.stats deferred (
            take_thaw_error (
              drop_guard kernel cfg scrub_slot dry_run held
                (record system { kernel = p.world }))) in
          (
            close_window kernel cfg scrub_slot dry_run held system (p, deferred),
            refl,
            (
              ended,
              deferred,
              p.world,
              sum,
              left_lem ended (length deferred) (length cands) sum (begun refl),
              (subst (λ (t : BatchStats). Grows ended s t) (sym stats) grows, trace),
              rest,
              same,
              told,
            ),
          ))

  -- Suppose the layout has ascending slots from 1 that are at most 255, the scrubbed slot is in
  -- that range, the disks hold bytes, and every candidate of the batch satisfies InBatch. Then
  -- flush_batch returns. The sum of the outcome counters and of the counter of duplicates grows by
  -- the number of candidates less the deferred ones, up to the wrap of 64 bits; the deferred ones
  -- satisfy InBatch, and from a batch that is not empty they are fewer than it had. Between the
  -- guard and its drop the world is changed only by re-confirming, by looking at the clock, by
  -- dropping a cache, and by writing, for a candidate that satisfies InBatch, a block of its size
  -- that passes its verifier; and it is written only outside a dry run, and only under a guard or
  -- without a live mount. Then the guard is dropped, and the deferred candidates are returned only
  -- where no thaw error is recorded; otherwise the result is an error and a thaw error is recorded.
  pub flush_batch-Done :
      (cands : List Candidate) (system : System W) (s : BatchStats)
      → All InBatch cands
      → Gives
          (WindowDone cands s (guard (ioctl_path kernel.opens kernel.fifreeze) system))
          (flush_batch kernel cfg scrub_slot dry_run cands system s)
  unfolding flush_batch
  flush_batch-Done cands system s h =
      let unique = dedup_by_phys (sort_by_phys cands) in
      let dropped = length cands - length unique in
      let s' = record s { deduped = add_u64 s.deduped dropped } in
      let (shorter, kept) = length-dedup_by_phys (sort_by_phys cands) in
      let same = length-sort_by_phys cands in
      let (f, e, (ended, deferred, w, sum, less, (grows, trace), rest, same_system, told)) =
        window-Done unique s' (guard (ioctl_path kernel.opens kernel.fifreeze) system)
          (All-unique InBatch cands h) in
      (
        f,
        e,
        (
          dropped + ended,
          deferred,
          w,
          omega arith,
          omega arith,
          (Grows-join dropped ended s s' f.stats (deduped-Grows dropped s) grows, trace),
          rest,
          same_system,
          told,
        ),
      )
