-- ===== src/BatchRecover/Writer/Rounds.antt =====
-- The course of the writer thread of scrub-rs/src/batch_recover.rs: one window after the other.
use cubical.Cubical.Data.Empty.Base.{⊥*}
use rotshield.Prelude.{ℕ, ◌+◌, ◌≡◌, Bool, not, ◌||◌, none, some, arith}
use rotshield.Prelude.Io.{IoError, other, ok, err}
use rotshield.Array.Config.{ArrayConfig}
use rotshield.Freeze.{System, guard, take_thaw_error, ioctl_path}
use rotshield.BatchRecover.Writer.{
  BatchStats, Kernel, is_held, has_live_mount, drop_guard, Ended, drop_controller,
}
use rotshield.BatchRecover.Writer.Counts.{Grows}
use rotshield.BatchRecover.Writer.Steps.{Steps}

module _ {ℓ} {W : Type ℓ} (kernel : Kernel W) (cfg : ArrayConfig) (scrub_slot : ℕ)
    (dry_run : Bool) where
  -- The steps of a window that begins with a guard of this system.
  abbrev pub WindowSteps : System W → W → Type ℓ
  WindowSteps system w =
      let guarded = guard (ioctl_path kernel.opens kernel.fifreeze) system in
      Steps kernel cfg dry_run
        (is_held kernel cfg scrub_slot dry_run guarded.1
          || not (has_live_mount kernel cfg scrub_slot dry_run guarded.0.controller))
        (λ c u. Unit) guarded.0.kernel w

  -- The window is over at w, and its guard has been dropped.
  abbrev pub closed : System W → W → System W
  closed system w =
      let guarded = guard (ioctl_path kernel.opens kernel.fifreeze) system in
      drop_guard kernel cfg scrub_slot dry_run (is_held kernel cfg scrub_slot dry_run guarded.1)
        (record guarded.0 { kernel = w })

  -- Windows that left no thaw error, from a system to the last one.
  pub data Rounds (last : System W) : System W → Type ℓ where
    here : Rounds last last
    round :
        {system next : System W} (w : W)
        → WindowSteps system w
        → (closed system w).controller.last_thaw_error ≡ none
        → next ≡ (take_thaw_error (closed system w)).0
        → Rounds last next
        → Rounds last system

  -- After such windows one more, whose guard left a thaw error; and the controller is dropped.
  abbrev pub Aborted : System W → System W → Type ℓ
  Aborted start system =
      (before : System W) × (w : W) × (x : IoError) × Rounds before start
      × WindowSteps before w
      × ((closed before w).controller.last_thaw_error ≡ some x)
      × (system
          ≡ drop_controller kernel cfg scrub_slot dry_run (take_thaw_error (closed before w)).0)

  -- The thread has ended, with n candidates in the counters or with an aborted run.
  abbrev pub RunDone : ℕ → System W → BatchStats → Ended kernel cfg scrub_slot dry_run → Type ℓ
  RunDone n start s none = ⊥*
  RunDone n start s (some (system, ok s')) =
      (last : System W) × Rounds last start
      × (system ≡ drop_controller kernel cfg scrub_slot dry_run last)
      × Grows n s s'
  RunDone n start s (some (system, err e)) = (e ≡ other) × Aborted start system

  pub RunDone-more :
      (a n m : ℕ) (start next : System W) (s s' : BatchStats)
      (r : Ended kernel cfg scrub_slot dry_run) (w : W)
      → WindowSteps start w
      → (closed start w).controller.last_thaw_error ≡ none
      → next ≡ (take_thaw_error (closed start w)).0
      → a + n ≡ m
      → Grows a s s'
      → RunDone n next s' r
      → RunDone m start s r
  RunDone-more a n m start next s s' none w steps thawn same e grows done = done
  RunDone-more a n m start next s s' (some (system, ok s'')) w steps thawn same e grows
        (last, rounds, dropped, more) =
      (last, Rounds.round w steps thawn same rounds, dropped, omega arith)
  RunDone-more a n m start next s s' (some (system, err x)) w steps thawn same e grows
        (is_other, (before, w', y, rounds, steps', recorded, dropped)) =
      (is_other, (before, w', y, Rounds.round w steps thawn same rounds, steps', recorded, dropped))
