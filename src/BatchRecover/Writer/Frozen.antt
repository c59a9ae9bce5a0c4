-- ===== src/BatchRecover/Writer/Frozen.antt =====
-- What is frozen while the writer of scrub-rs/src/batch_recover.rs works through a batch under the
-- controller of scrub-rs/src/freeze.rs.
use rotshield.Prelude.{
  ℕ, ◌≤◌, ◌<◌, ◌≡◌, refl, sym, ap, subst, ◌∙◌, ◌⊎◌, inl, inr, Bool, true, false, not, ◌||◌,
  Bool-cases, List, Option, none, some, All,
}
use rotshield.Prelude.Io.{other, IoResult, ok, err}
use rotshield.Prelude.Panics.{Gives}
use rotshield.Recovery.Model.{Block}
use rotshield.Array.Config.{FilePath, ArrayConfig, raw_offset_for, add_u64}
use rotshield.Array.Stripe.Shapes.{IsLayout, AreBytes}
use rotshield.Fs.{ReconfirmRequest}
use rotshield.Freeze.{System, FreezeGuard, guard, take_thaw_error, ioctl_path, called}
use rotshield.Freeze.Window.{Knows, Tells, IsIoctl, guard-Knows, thaw-Knows, kernel}
use rotshield.BatchRecover.Writer.{
  Candidate, BatchStats, Kernel, Flushed, is_held, has_live_mount, drop_guard, flush_batch,
  write_block, drop_cache, sync_result,
}
use rotshield.BatchRecover.Writer.Steps.{Steps, Keeps, Steps-strengthen, Steps-forbidden}
use rotshield.BatchRecover.Writer.Windows.{WindowDone, flush_batch-Done}

module _ {ℓ} {W : Type ℓ} (kern : Kernel W) (cfg : ArrayConfig) (is_frozen : W → FilePath → Bool)
    (m : FilePath) where
  -- Only the two freeze calls change whether m is frozen.
  pub record LeavesFrozen : Type ℓ where
    pub asking :
        (w : W) (req : ReconfirmRequest) → is_frozen (kern.reconfirm w req).0 m ≡ is_frozen w m
    pub waiting : (began w : W) → is_frozen (kern.timed_out began w).0 m ≡ is_frozen w m
    pub flushing : (w : W) (dev : FilePath) → is_frozen (kern.blkflsbuf w dev).0 m ≡ is_frozen w m
    pub syncing :
        (w : W) (dev : FilePath) (offset : ℕ) (block : Block)
        → is_frozen (kern.write_synced w dev offset block).0 m ≡ is_frozen w m

  called_world : (res : W × Bool) → (called res).0 ≡ res.0
  unfolding called
  called_world (w, true) = refl
  called_world (w, false) = refl

  sync_result_world : (res : W × Bool) → (sync_result kern res).0 ≡ res.0
  unfolding sync_result
  sync_result_world (w, true) = refl
  sync_result_world (w, false) = refl

  module _ (b : Bool) (leaves : LeavesFrozen) where
    abbrev Is : W → Type 0
    Is w = is_frozen w m ≡ b

    drop_cache_keeps : (w : W) (dev : FilePath) → Is w → Is (drop_cache kern dev w).0
    unfolding drop_cache ioctl_path
    drop_cache_keeps w dev now = elim (Bool-cases (kern.opens w dev)) [
      | inl found ↦
          rw found
            (subst Is (sym (called_world (kern.blkflsbuf w dev))) (leaves.flushing w dev ∙ now))
      | inr shut ↦ rw shut now
    ]

    write_block_keeps :
        (w : W) (dev : FilePath) (phys : ℕ) (block : Block)
        → Is w
        → Is (write_block kern cfg dev phys block w).0
    unfolding write_block
    write_block_keeps w dev phys block now =
        let offset = add_u64 phys (raw_offset_for cfg dev) in
        elim (Bool-cases (kern.opens_rw w dev)) [
          | inl found ↦ rw found (
              subst Is (sym (sync_result_world (kern.write_synced w dev offset block)))
                (leaves.syncing w dev offset block ∙ now))
          | inr shut ↦ rw shut now
        ]

    pub frozen-Keeps : Keeps kern cfg Is
    frozen-Keeps = record {
      asking = λ w req now. leaves.asking w req ∙ now;
      waiting = λ began w now. leaves.waiting began w ∙ now;
      dropping = drop_cache_keeps;
      writing = write_block_keeps;
    }

module _ {ℓ} {W : Type ℓ} (kern : Kernel W) (cfg : ArrayConfig) (scrub_slot : ℕ) (dry_run : Bool)
    (InBatch : Candidate → Type 0) (is_frozen : W → FilePath → Bool) (m : FilePath) where
  abbrev freeze_call : W → FilePath → W × IoResult (Unit {0})
  freeze_call = ioctl_path kern.opens kern.fifreeze

  abbrev thaw_call : W → FilePath → W × IoResult (Unit {0})
  thaw_call = ioctl_path kern.opens kern.fithaw

  -- The controller has the mountpoint m, which is not frozen, and knows it.
  abbrev pub Ready : System W → Type 0
  Ready system = Knows freeze_call thaw_call is_frozen m system × (system.controller.frozen ≡ false)

  abbrev allowed : System W × IoResult (Option FreezeGuard) → Bool
  allowed (system, result) =
      is_held kern cfg scrub_slot dry_run result
      || not (has_live_mount kern cfg scrub_slot dry_run system.controller)

  -- From the guard to its drop, a write finds m frozen; and after it m is thawed again or the run is
  -- aborted.
  abbrev pub FrozenWrites : System W × IoResult (Option FreezeGuard) → Flushed W → Type ℓ
  FrozenWrites guarded f =
      (w : W) × Steps kern cfg dry_run (allowed guarded) (λ c u. InBatch c × (is_frozen u m ≡ true))
        guarded.0.kernel w
      × (f.system
          ≡ (take_thaw_error (
              drop_guard kern cfg scrub_slot dry_run (is_held kern cfg scrub_slot dry_run guarded.1)
                (record guarded.0 { kernel = w }))).0)
      × (Ready f.system ⊎ (f.deferred ≡ err other))

  module _ (layout : IsLayout 1 cfg.data_devs) (slot_from : 1 ≤ scrub_slot)
      (slot_below : scrub_slot < 256) (bytes : (w : W) → AreBytes (kern.devices w))
      (laws : IsIoctl kern.opens kern.fifreeze kern.fithaw is_frozen)
      (leaves : LeavesFrozen kern cfg is_frozen m) where
    window-FrozenWrites :
        (cands : List Candidate) (s : BatchStats)
        (guarded : System W × IoResult (Option FreezeGuard)) (f : Flushed W)
        → Knows freeze_call thaw_call is_frozen m guarded.0
        → Tells freeze_call thaw_call is_frozen m guarded
        → WindowDone kern cfg scrub_slot dry_run InBatch layout slot_from slot_below bytes cands s
            guarded f
        → FrozenWrites guarded f
    unfolding is_held has_live_mount drop_guard take_thaw_error
    window-FrozenWrites cands s (system, ok (some g)) f knows tells
          (ended, deferred, w, sum, less, (grows, trace), rest, same, told) =
        let (trace', now) =
          Steps-strengthen kern cfg dry_run (allowed (system, ok (some g))) (λ c u. InBatch c)
            (λ u. is_frozen u m ≡ true) system.kernel w
            (frozen-Keeps kern cfg is_frozen m true leaves) tells trace in
        let open_window : System W = record system { kernel = w } in
        let (knows', thawn) =
          thaw-Knows freeze_call thaw_call is_frozen
            (kernel kern.opens kern.fifreeze kern.fithaw is_frozen laws) m open_window
            (knows.0, knows.1 ∙ tells ∙ sym now) in
        (
          w,
          trace',
          same,
          elim told [
            | inr (aborted, recorded) ↦ inr aborted
            | inl (all_well, unrecorded) ↦ elim thawn [
              | inl (off, free) ↦ inl (subst Ready (sym same) (knows', off))
              | inr (on, (e, recorded)) ↦ absurd (cc)
            ]
          ],
        )
    window-FrozenWrites cands s (system, ok none) f knows tells done = absurd tells
    window-FrozenWrites cands s (system, err e) f knows tells
          (ended, deferred, w, sum, less, (grows, trace), rest, same, told) =
        let shut : not (has_live_mount kern cfg scrub_slot dry_run system.controller) ≡ false =
          ap (λ (o : Option FilePath). not (elim o [ none ↦ false | some p ↦ true ])) knows.0 in
        let (trace', now) =
          Steps-strengthen kern cfg dry_run (allowed (system, err e)) (λ c u. InBatch c)
            (λ u. is_frozen u m ≡ false) system.kernel w
            (frozen-Keeps kern cfg is_frozen m false leaves) tells trace in
        (
          w,
          Steps-forbidden kern cfg dry_run (allowed (system, err e)) (λ c u. InBatch c)
              (λ c u. InBatch c × (is_frozen u m ≡ true)) system.kernel w shut trace,
          same,
          inl (subst Ready (sym same) ((knows.0, knows.1 ∙ tells ∙ sym now), knows.1 ∙ tells)),
        )

    -- Suppose the layout has ascending slots from 1 that are at most 255, the scrubbed slot is in
    -- that range, the disks hold bytes, every candidate of the batch satisfies InBatch, the two
    -- ioctl calls do what they document, and no other call changes whether m is frozen; the
    -- controller has the mountpoint m, knows that it is not frozen and holds no freeze. Then
    -- flush_batch returns. From the guard to its drop, which makes the final system, a block is
    -- written only while m is frozen; and afterwards the controller again has the mountpoint m,
    -- knows that it is not frozen and holds no freeze, unless the run is aborted by an error.
    pub flush_batch-FrozenWrites :
        (cands : List Candidate) (system : System W) (s : BatchStats)
        → All InBatch cands
        → Ready system
        → Gives
            (FrozenWrites (guard (ioctl_path kern.opens kern.fifreeze) system))
            (flush_batch kern cfg scrub_slot dry_run cands system s)
    flush_batch-FrozenWrites cands system s h ready =
        let (f, e, done) =
          flush_batch-Done kern cfg scrub_slot dry_run InBatch layout slot_from slot_below bytes
            cands system s h in
        let (knows, tells) =
          guard-Knows freeze_call thaw_call is_frozen
            (kernel kern.opens kern.fifreeze kern.fithaw is_frozen laws) m system ready.0 ready.1 in
        (
          f,
          e,
          window-FrozenWrites cands s (guard (ioctl_path kern.opens kern.fifreeze) system) f knows
              tells done,
        )
