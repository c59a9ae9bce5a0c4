-- ===== src/BatchRecover/Writer/Drain.antt =====
-- The thread of the writer of scrub-rs/src/batch_recover.rs: the messages, and the loop that flushes
-- what has been deferred.
use rotshield.Prelude.{
  ℕ, zero, suc, ◌+◌, ◌-◌, ◌≤◌, ◌<◌, ◌≡◌, refl, ap, subst, inl, inr, List, [], ◌∷◌, length, All,
  Bool, some, arith,
}
use rotshield.Prelude.Io.{other, ok, err}
use rotshield.Prelude.Panics.{Panics, ◌>>=◌, Gives, Gives-bind}
use rotshield.Array.Config.{ArrayConfig}
use rotshield.Array.Stripe.Shapes.{IsLayout, AreBytes}
use rotshield.Freeze.{System, guard, ioctl_path}
use rotshield.BatchRecover.{BatchMsg, batch}
use rotshield.BatchRecover.Writer.{
  Candidate, BatchStats, Kernel, Flushed, flush_batch, Ended, drop_controller, flushed, drain,
}
use rotshield.BatchRecover.Writer.Rounds.{Rounds, RunDone, RunDone-more}
use rotshield.BatchRecover.Writer.Windows.{WindowDone, flush_batch-Done}

-- The candidates of the messages that the writer takes.
abbrev pub received : List (BatchMsg Candidate) → ℕ
received [] = 0
received (BatchMsg.done ∷ messages) = 0
received (batch cands ∷ messages) = length cands + received messages

All-unit : (cands : List Candidate) → All {0, 0} (λ c. Unit) cands
All-unit [] = tt
All-unit (c ∷ cands) = (tt, All-unit cands)

module _ {ℓ} {W : Type ℓ} (kernel : Kernel W) (cfg : ArrayConfig) (scrub_slot : ℕ) (dry_run : Bool)
    (layout : IsLayout 1 cfg.data_devs) (slot_from : 1 ≤ scrub_slot) (slot_below : scrub_slot < 256)
    (bytes : (w : W) → AreBytes (kernel.devices w)) where
  abbrev Done : ℕ → System W → BatchStats → Ended kernel cfg scrub_slot dry_run → Type ℓ
  Done = RunDone kernel cfg scrub_slot dry_run

  Done-at :
      (m n : ℕ) (start : System W) (s : BatchStats)
      (run : Panics (Ended kernel cfg scrub_slot dry_run))
      → m ≡ n
      → Gives (Done m start s) run
      → Gives (Done n start s) run
  Done-at m n start s run e done = subst (λ (k : ℕ). Gives (Done k start s) run) e done

  flushed-Done :
      (next : List Candidate → System W → BatchStats → Panics (Ended kernel cfg scrub_slot dry_run))
      (cands : List Candidate) (more : ℕ) (system : System W) (s : BatchStats) (f : Flushed W)
      → WindowDone kernel cfg scrub_slot dry_run
          (λ c. Unit)
          layout
          slot_from
          slot_below
          bytes
          cands
          s
          (guard (ioctl_path kernel.opens kernel.fifreeze) system)
          f
      → ((pending : List Candidate) (s' : BatchStats)
          → length pending ≤ length cands - 1
          → Gives (Done (length pending + more) f.system s') (next pending f.system s'))
      → Gives (Done (length cands + more) system s) (flushed kernel cfg scrub_slot dry_run next f)
  unfolding flushed
  flushed-Done next cands more system s f
        (ended, deferred, w, sum, less, (grows, trace), rest, same, inl (all_well, thawn))
        then_next =
      let (r, e, done) = then_next deferred f.stats less in
      (
        r,
        rw all_well e,
        RunDone-more kernel cfg scrub_slot dry_run ended (length deferred + more)
            (length cands + more) system f.system s f.stats r w trace thawn same (omega arith) grows
            done,
      )
  flushed-Done next cands more system s f
        (ended, deferred, w, sum, less, (grows, trace), rest, same, inr (aborted, (x, recorded)))
        then_next =
      (
        some (drop_controller kernel cfg scrub_slot dry_run f.system, err other),
        rw aborted refl,
        (
          refl,
          (
            system,
            w,
            x,
            Rounds.here,
            trace,
            recorded,
            ap (drop_controller kernel cfg scrub_slot dry_run) same,
          ),
        ),
      )

  -- A flush, and what is done with the candidates that it deferred.
  flush_then :
      (next : List Candidate → System W → BatchStats → Panics (Ended kernel cfg scrub_slot dry_run))
      (cands : List Candidate) (more : ℕ) (system : System W) (s : BatchStats)
      → ((pending : List Candidate) (system' : System W) (s' : BatchStats)
          → length pending ≤ length cands - 1
          → Gives (Done (length pending + more) system' s') (next pending system' s'))
      → Gives (Done (length cands + more) system s) (
          flush_batch kernel cfg scrub_slot dry_run cands system s
          >>= flushed kernel cfg scrub_slot dry_run next)
  flush_then next cands more system s then_next =
      Gives-bind
        (WindowDone kernel cfg scrub_slot dry_run (λ c. Unit) layout slot_from slot_below bytes
          cands s (guard (ioctl_path kernel.opens kernel.fifreeze) system))
        (Done (length cands + more) system s)
        (flush_batch kernel cfg scrub_slot dry_run cands system s) _
        (flush_batch-Done kernel cfg scrub_slot dry_run (λ c. Unit) layout slot_from slot_below
          bytes cands system s (All-unit cands))
        (λ f window.
          flushed-Done next cands more system s f window
            (λ pending s' less. then_next pending f.system s' less))

  pub drain-Done :
      (fuel : ℕ) (pending : List Candidate) (system : System W) (s : BatchStats)
      → length pending < fuel
      → Gives
          (Done (length pending) system s)
          (drain kernel cfg scrub_slot dry_run fuel pending system s)
  unfolding drain
  drain-Done zero pending system s h = absurd (omega arith)
  drain-Done (suc fuel) [] system s h = (
    some (drop_controller kernel cfg scrub_slot dry_run system, ok s),
    refl,
    (system, Rounds.here, refl, omega arith),
  )
  drain-Done (suc fuel) (c ∷ pending) system s h =
      Done-at (length (c ∷ pending) + 0) (length (c ∷ pending)) system s _ (omega arith) (
        flush_then (drain kernel cfg scrub_slot dry_run fuel) (c ∷ pending) 0 system s
          (λ rest system' s' less.
            Done-at (length rest) (length rest + 0) system' s' _ (omega arith)
              (drain-Done fuel rest system' s' (omega arith))))
