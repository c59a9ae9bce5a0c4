-- ===== src/BatchRecover/Writer/Candidates.antt =====
-- One candidate of the writer of scrub-rs/src/batch_recover.rs, from the re-confirmation to the
-- read-back.
use rotshield.Prelude.{
  ℕ, ◌≤◌, ◌<◌, ◌≡◌, refl, sym, ap, ◌∙◌, Bool, true, false, not, ◌||◌, Bool-cases, inl, inr,
  if◌then◌else◌, Option, none, some, arith,
}
use rotshield.Prelude.Io.{IoResult, ok, err}
use rotshield.Prelude.Panics.{Gives, Gives-bind, Gives-true, Gives-false}
use rotshield.Recovery.Model.{Block, RecoveryInput, RecoveryResult}
use rotshield.Recovery.Engine.{recover_block}
use rotshield.Recovery.Engine.Blocks.{IsBlock, zeros-IsBlock}
use rotshield.Recovery.Engine.Steps.{IsInput}
use rotshield.Recovery.Engine.Outcome.{Honest, recover_block-Honest}
use rotshield.Array.Config.{FilePath, ArrayConfig}
use rotshield.Array.Stripe.{StripeChunks, read_block_or_zeros, gather_stripe}
use rotshield.Array.Stripe.Shapes.{IsLayout, AreBytes, read_block-IsBlock, gather_stripe-shape}
use rotshield.Fs.{ReconfirmRequest, Reconfirm}
use rotshield.BatchRecover.Writer.{
  Candidate, BatchStats, Counter, count, Kernel, Progress, report, write_block, drop_cache,
  reread_counter, read_back, cache_dropped, written, settle, recovery_input, gathered,
  recover_candidate, reread, confirmed, verdict, process_candidate,
}
use rotshield.BatchRecover.Writer.Counts.{Grows, Ends, count-Grows, mismatch-Grows, Grows-join}
use rotshield.BatchRecover.Writer.Steps.{Step, Steps, here, next, asked, wrote}

module _ {ℓ} {W : Type ℓ} (kernel : Kernel W) (cfg : ArrayConfig) (scrub_slot : ℕ)
    (dry_run writes_allowed : Bool) (InBatch : Candidate → Type 0) where
  abbrev pub Trace : W → W → Type ℓ
  Trace = Steps kernel cfg dry_run writes_allowed (λ c w. InBatch c)

  -- The counters grow by n, and the world changed by the writer's steps only.
  abbrev pub Handled : ℕ → W → BatchStats → Progress W → Type ℓ
  Handled n w s p = Grows n s p.stats × Trace w p.world

  report-Handled :
      (c : Counter) (w w' : W) (s : BatchStats)
      → Ends c
      → Trace w w'
      → Gives (Handled 1 w s) (report c w' s)
  unfolding report
  report-Handled c w w' s ends trace =
      (record { world = w'; stats = count c s }, refl, (count-Grows c s ends, trace))

  drop_cache-step :
      (dev : FilePath) (w w' : W) → Trace w w' → Trace w ((drop_cache kernel dev w').0)
  drop_cache-step dev w w' trace = next trace (Step.cache_dropped dev refl)

  module _ (cand : Candidate) (here_in : InBatch cand) where
    reread-Ends :
        (r : IoResult Block)
        → Ends (reread_counter kernel cfg scrub_slot dry_run writes_allowed cand.verify r)
    unfolding reread_counter
    reread-Ends (ok b) = elim (Bool-cases (cand.verify b)) [ inl e ↦ rw e tt | inr e ↦ rw e tt ]
    reread-Ends (err e) = tt

    read_back-Handled :
        (w w' : W) (s : BatchStats)
        → Trace w w'
        → Gives (Handled 1 w s) (read_back kernel cfg scrub_slot dry_run writes_allowed cand s w')
    unfolding read_back
    read_back-Handled w w' s trace =
        report-Handled _ w _ s (reread-Ends _) (drop_cache-step cand.failing_dev w w' trace)

    cache_dropped-Handled :
        (w : W) (s : BatchStats) (res : W × IoResult (Unit {0}))
        → Trace w res.0
        → Gives
            (Handled 1 w s)
            (cache_dropped kernel cfg scrub_slot dry_run writes_allowed cand s res)
    unfolding cache_dropped
    cache_dropped-Handled w s (w', ok u) trace = read_back-Handled w w' s trace
    cache_dropped-Handled w s (w', err e) trace =
        elim (Bool-cases (kernel.is_block_device w' cand.failing_dev)) [
          | inl block ↦ rw block (
              report-Handled Counter.readback_failed w _ s tt
                (drop_cache-step cand.failing_dev w w' trace))
          | inr image ↦ rw image (read_back-Handled w w' s trace)
        ]

    written-Handled :
        (w : W) (s : BatchStats) (res : W × IoResult (Unit {0}))
        → Trace w res.0
        → Gives (Handled 1 w s) (written kernel cfg scrub_slot dry_run writes_allowed cand s res)
    unfolding written
    written-Handled w s (w', ok u) trace =
        cache_dropped-Handled w s (drop_cache kernel cand.failing_dev w')
          (drop_cache-step cand.failing_dev w w' trace)
    written-Handled w s (w', err e) trace = report-Handled Counter.failed w w' s tt trace

    assess_Ends : (b : Bool) → Ends (if b then Counter.recovered else Counter.not_frozen)
    assess_Ends true = tt
    assess_Ends false = tt

    settle-Handled :
        (w w' : W) (s : BatchStats) (input : RecoveryInput) (r : RecoveryResult)
        → input.verifier ≡ cand.verify
        → Trace w w'
        → Honest cand.block_size input r
        → Gives (Handled 1 w s) (settle kernel cfg scrub_slot dry_run writes_allowed cand s w' r)
    unfolding settle
    settle-Handled w w' s input (RecoveryResult.recovered via block) same trace honest =
        elim (Bool-cases (dry_run || not writes_allowed)) [
          | inl assess ↦ rw assess (report-Handled _ w w' s (assess_Ends writes_allowed) trace)
          | inr live ↦
              let wet : dry_run ≡ false = ground arith in
              let allowed : writes_allowed ≡ true = ground arith in
              let verified : cand.verify block ≡ true =
                ap (λ (f : Block → Bool). f block) (sym same) ∙ honest.1 in
              rw live (
                written-Handled w s
                  (write_block kernel cfg cand.failing_dev cand.array_phys block w')
                  (next trace (wrote cand block here_in wet allowed honest.0 verified refl)))
        ]
    settle-Handled w w' s input RecoveryResult.not_corrupt same trace honest =
        report-Handled Counter.not_corrupt w w' s tt trace
    settle-Handled w w' s input (RecoveryResult.failed reason) same trace honest =
        report-Handled Counter.failed w w' s tt trace

    module _ (layout : IsLayout 1 cfg.data_devs) (slot_from : 1 ≤ scrub_slot)
        (slot_below : scrub_slot < 256) (bytes : (w : W) → AreBytes (kernel.devices w)) where
      gathered-Handled :
          (w w' : W) (s : BatchStats) (unreadable : Bool) (corrupt : Block)
          (res : IoResult StripeChunks)
          → Trace w w'
          → IsBlock cand.block_size corrupt
          → gather_stripe (kernel.devices w') cfg cand.array_phys cand.block_size scrub_slot ≡ res
          → Gives (Handled 1 w s) (
              gathered kernel cfg scrub_slot dry_run writes_allowed cand s w' unreadable corrupt
                res)
      unfolding gathered
      gathered-Handled w w' s unreadable corrupt (err e) trace size h =
          report-Handled Counter.failed w w' s tt trace
      gathered-Handled w w' s unreadable corrupt (ok chunks) trace size h =
          let input =
            recovery_input kernel cfg scrub_slot dry_run writes_allowed cand unreadable corrupt
              chunks in
          let (others, slots, p, q) =
            gather_stripe-shape (kernel.devices w') cfg cand.array_phys cand.block_size (bytes w')
              scrub_slot chunks layout h in
          let valid : IsInput cand.block_size input = record {
            slot_from = slot_from;
            slot_below = slot_below;
            corrupt = size;
            others = others;
            slots = slots;
            p_fits = p;
            q_fits = q;
          } in
          Gives-bind (Honest cand.block_size input) (Handled 1 w s)
            (recover_block input cand.block_size) _
            (recover_block-Honest cand.block_size input valid)
            (λ r honest. settle-Handled w w' s input r refl trace honest)

      recover_candidate-Handled :
          (w w' : W) (s : BatchStats) (unreadable : Bool) (corrupt : Block)
          → Trace w w'
          → IsBlock cand.block_size corrupt
          → Gives (Handled 1 w s) (
              recover_candidate kernel cfg scrub_slot dry_run writes_allowed cand s w' unreadable
                corrupt)
      unfolding recover_candidate
      recover_candidate-Handled w w' s unreadable corrupt trace size =
          let (p, e, (grows, trace')) =
            gathered-Handled w w' (count Counter.mismatch s) unreadable corrupt
              (gather_stripe (kernel.devices w') cfg cand.array_phys cand.block_size scrub_slot)
              trace size refl in
          (
            p,
            e,
            (Grows-join 0 1 s (count Counter.mismatch s) p.stats (mismatch-Grows s) grows, trace'),
          )

      reread-Handled :
          (w w' : W) (s : BatchStats) (res : IoResult Block)
          → Trace w w'
          → read_block_or_zeros
              (kernel.devices w')
              cfg
              cand.failing_dev
              cand.array_phys
              cand.block_size
            ≡ res
          → Gives
              (Handled 1 w s)
              (reread kernel cfg scrub_slot dry_run writes_allowed cand s w' res)
      unfolding reread
      reread-Handled w w' s (err e) trace h =
          recover_candidate-Handled w w' s true _ trace (zeros-IsBlock cand.block_size)
      reread-Handled w w' s (ok block) trace h = elim (Bool-cases (cand.verify block)) [
        | inl rewritten ↦ rw rewritten (report-Handled Counter.stale w w' s tt trace)
        | inr mismatch ↦ rw mismatch (
            recover_candidate-Handled w w' s false block trace (
              read_block-IsBlock (kernel.devices w') cfg cand.array_phys cand.block_size (bytes w')
                cand.failing_dev block h))
      ]

      confirmed-Handled :
          (w : W) (s : BatchStats) (res : W × Reconfirm)
          → Trace w res.0
          → Gives
              (Handled 1 w s)
              (confirmed kernel cfg scrub_slot dry_run writes_allowed cand s res)
      unfolding confirmed
      confirmed-Handled w s (w', Reconfirm.stale) trace =
          report-Handled Counter.stale w w' s tt trace
      confirmed-Handled w s (w', Reconfirm.unverifiable) trace =
          report-Handled Counter.skipped w w' s tt trace
      confirmed-Handled w s (w', Reconfirm.corruption) trace = elim (Bool-cases cand.unreadable) [
        | inl eio ↦
            Gives-true (Handled 1 w s) _ _ _ eio
              (recover_candidate-Handled w w' s true _ trace (zeros-IsBlock cand.block_size))
        | inr readable ↦
            Gives-false (Handled 1 w s) _ _ _ readable (reread-Handled w w' s _ trace refl)
      ]

      verdict-Trace :
          (w : W) (req : Option ReconfirmRequest)
          → Trace w ((verdict kernel cfg scrub_slot dry_run writes_allowed w req).0)
      unfolding verdict
      verdict-Trace w none = here
      verdict-Trace w (some req) = next here (asked req refl)

      pub process_candidate-Handled :
          (p : Progress W)
          → Gives
              (Handled 1 p.world p.stats)
              (process_candidate kernel cfg scrub_slot dry_run writes_allowed cand p)
      unfolding process_candidate
      process_candidate-Handled p =
          confirmed-Handled p.world p.stats
            (verdict kernel cfg scrub_slot dry_run writes_allowed p.world cand.reconfirm)
            (verdict-Trace p.world cand.reconfirm)
