-- ===== src/BatchRecover/Writer.antt =====
-- The writer thread of scrub-rs/src/batch_recover.rs: a batch is sorted and freed of duplicates, the
-- file system is frozen, and each candidate is re-confirmed, read again, recovered, written back and
-- read back. What the kernel and the reconfirmer do is the parameter `Kernel`, over a state W of the
-- world. The mirrored status counters and the messages are left out.
pub mod Counts
pub mod Steps
pub mod Candidates
pub mod Batches
pub mod Windows
pub mod Frozen
pub mod Rounds
pub mod Drain
mod Tests
use rotshield.Prelude.{
  ℕ, zero, suc, ◌-◌, leb, ◌==◌, ◌&&◌, ◌||◌, not, if◌then◌else◌, Bool, true, false, List, [], ◌∷◌,
  ◌++◌, Option, none, some, length, replicate,
}
use rotshield.Prelude.Io.{
  IoError, open_failed, write_failed, other, ioctl_failed, IoResult, ok, err,
}
use rotshield.Prelude.Panics.{Panics, returns, panic, ◌>>=◌}
use rotshield.Prelude.Sort.{sort_by_key}
use rotshield.Recovery.Model.{Block, RecoveryInput, RecoveryResult}
use rotshield.Recovery.Engine.{recover_block}
use rotshield.Array.Config.{FilePath, ArrayConfig, raw_offset_for, add_u64}
use rotshield.Array.Stripe.{Devices, StripeChunks, read_block_or_zeros, gather_stripe}
use rotshield.Freeze.{
  FreezeController, FreezeGuard, System, guard, thaw, take_thaw_error, ioctl_path,
}
use rotshield.Fs.{ReconfirmRequest, Reconfirm}
use rotshield.BatchRecover.{BatchMsg, batch}

pub record Candidate : Type 0 where
  pub array_phys : ℕ
  pub block_size : ℕ
  pub verify : Block → Bool
  pub raw_phys : ℕ
  pub failing_dev : FilePath
  pub reconfirm : Option ReconfirmRequest
  pub unreadable : Bool

pub record BatchStats : Type 0 where
  pub mismatch : ℕ
  pub stale : ℕ
  pub recovered : ℕ
  pub failed : ℕ
  pub skipped : ℕ
  pub not_frozen : ℕ
  pub readback_failed : ℕ
  pub not_corrupt : ℕ
  pub deduped : ℕ

abbrev pub no_stats : BatchStats
no_stats = record {
  mismatch = 0;
  stale = 0;
  recovered = 0;
  failed = 0;
  skipped = 0;
  not_frozen = 0;
  readback_failed = 0;
  not_corrupt = 0;
  deduped = 0;
}

-- The counter that a line `stats.x += 1` names.
pub data Counter : Type 0 where
  mismatch stale recovered failed skipped not_frozen readback_failed not_corrupt : Counter

unfoldable pub count : Counter → BatchStats → BatchStats
count Counter.mismatch s = record s { mismatch = add_u64 s.mismatch 1 }
count Counter.stale s = record s { stale = add_u64 s.stale 1 }
count Counter.recovered s = record s { recovered = add_u64 s.recovered 1 }
count Counter.failed s = record s { failed = add_u64 s.failed 1 }
count Counter.skipped s = record s { skipped = add_u64 s.skipped 1 }
count Counter.not_frozen s = record s { not_frozen = add_u64 s.not_frozen 1 }
count Counter.readback_failed s = record s { readback_failed = add_u64 s.readback_failed 1 }
count Counter.not_corrupt s = record s { not_corrupt = add_u64 s.not_corrupt 1 }

-- What the writer asks of the kernel and of the file system's reconfirmer. The reads of a world are
-- those of its devices; the time that they take passes when the clock is looked at.
pub record Kernel {ℓ} (W : Type ℓ) : Type ℓ where
  pub devices : W → Devices
  pub opens : W → FilePath → Bool
  pub opens_rw : W → FilePath → Bool
  pub is_block_device : W → FilePath → Bool
  -- seek, `write_all`, `flush` and `sync_all`; false where one of them fails.
  pub write_synced : W → FilePath → ℕ → Block → W × Bool
  pub blkflsbuf : W → FilePath → W × Bool
  pub fifreeze : W → FilePath → W × Bool
  pub fithaw : W → FilePath → W × Bool
  pub reconfirm : W → ReconfirmRequest → W × Reconfirm
  -- The clock at the second world: whether more than the timeout has passed since the first.
  pub timed_out : W → W → W × Bool

-- The stable sort by `array_phys`, and the removal of all but the first of equal neighbours.
pub sort_by_phys : List Candidate → List Candidate
sort_by_phys cs = sort_by_key (λ (c : Candidate). c.array_phys) cs

pub dedup_after : Candidate → List Candidate → List Candidate
dedup_after c [] = []
dedup_after c (d ∷ cs) =
    let same = dedup_after c cs in
    let different = d ∷ dedup_after d cs in if c.array_phys == d.array_phys then same else different

pub dedup_by_phys : List Candidate → List Candidate
dedup_by_phys [] = []
dedup_by_phys (c ∷ cs) = c ∷ dedup_after c cs

pub record Progress {ℓ} (W : Type ℓ) : Type ℓ where
  pub world : W
  pub stats : BatchStats

-- What a flush leaves: the system with its freeze controller, the counts, and the deferred candidates
-- or the error that aborts the run.
pub record Flushed {ℓ} (W : Type ℓ) : Type ℓ where
  pub system : System W
  pub stats : BatchStats
  pub deferred : IoResult (List Candidate)

unfoldable pub report {ℓ} : {W : Type ℓ} → Counter → W → BatchStats → Panics (Progress W)
report counter w s = returns (record { world = w; stats = count counter s })

module _ {ℓ} {W : Type ℓ} (kernel : Kernel W) where
  pub sync_result : W × Bool → W × IoResult (Unit {0})
  sync_result (w, true) = (w, ok tt)
  sync_result (w, false) = (w, err write_failed)

  pub write_block : ArrayConfig → FilePath → ℕ → Block → W → W × IoResult (Unit {0})
  write_block config dev_path array_phys bytes w =
      let raw_phys = add_u64 array_phys (raw_offset_for config dev_path) in
      if kernel.opens_rw w dev_path
      then sync_result (kernel.write_synced w dev_path raw_phys bytes)
      else (w, err open_failed)

  unfoldable pub drop_cache : FilePath → W → W × IoResult (Unit {0})
  drop_cache dev w = ioctl_path kernel.opens kernel.blkflsbuf w dev

  module _ (cfg : ArrayConfig) (scrub_slot : ℕ) (dry_run writes_allowed : Bool) where
    -- The counter of a read-back.
    pub reread_counter : (Block → Bool) → IoResult Block → Counter
    reread_counter verify (ok b) = if verify b then Counter.recovered else Counter.readback_failed
    reread_counter verify (err e) = Counter.readback_failed

    pub read_back : Candidate → BatchStats → W → Panics (Progress W)
    read_back cand s w =
        report
          (reread_counter cand.verify (
            read_block_or_zeros (kernel.devices w) cfg cand.failing_dev cand.array_phys
              cand.block_size))
          ((drop_cache cand.failing_dev w).0) s

    -- The cache has been dropped, so that the read-back reads the platter, or that has failed.
    pub cache_dropped : Candidate → BatchStats → W × IoResult (Unit {0}) → Panics (Progress W)
    cache_dropped cand s (w, ok u) = read_back cand s w
    cache_dropped cand s (w, err e) =
        if kernel.is_block_device w cand.failing_dev
        then report Counter.readback_failed ((drop_cache cand.failing_dev w).0) s
        else read_back cand s w

    pub written : Candidate → BatchStats → W × IoResult (Unit {0}) → Panics (Progress W)
    written cand s (w, ok u) = cache_dropped cand s (drop_cache cand.failing_dev w)
    written cand s (w, err e) = report Counter.failed w s

    -- What is done with the result of `recover_block`.
    pub settle : Candidate → BatchStats → W → RecoveryResult → Panics (Progress W)
    settle cand s w (RecoveryResult.recovered via block) =
        if dry_run || not writes_allowed
        then report (if writes_allowed then Counter.recovered else Counter.not_frozen) w s
        else written cand s (write_block cfg cand.failing_dev cand.array_phys block w)
    settle cand s w RecoveryResult.not_corrupt = report Counter.not_corrupt w s
    settle cand s w (RecoveryResult.failed reason) = report Counter.failed w s

    abbrev pub recovery_input : Candidate → Bool → Block → StripeChunks → RecoveryInput
    recovery_input cand unreadable corrupt_block chunks = record {
      failing_slot = scrub_slot;
      corrupt_block = corrupt_block;
      unreadable_source = unreadable;
      other_blocks = chunks.other_data;
      p_block = chunks.p_block;
      q_block = chunks.q_block;
      verifier = cand.verify;
    }

    pub gathered :
        Candidate → BatchStats → W → Bool → Block → IoResult StripeChunks → Panics (Progress W)
    gathered cand s w unreadable corrupt_block (ok chunks) =
        recover_block (recovery_input cand unreadable corrupt_block chunks) cand.block_size
        >>= settle cand s w
    gathered cand s w unreadable corrupt_block (err e) = report Counter.failed w s

    -- A mismatch: its stripe is gathered.
    pub recover_candidate : Candidate → BatchStats → W → Bool → Block → Panics (Progress W)
    recover_candidate cand s w unreadable corrupt_block =
        gathered cand (count Counter.mismatch s) w unreadable corrupt_block
          (gather_stripe (kernel.devices w) cfg cand.array_phys cand.block_size scrub_slot)

    -- The failing disk has been read again.
    pub reread : Candidate → BatchStats → W → IoResult Block → Panics (Progress W)
    reread cand s w (ok block) =
        if cand.verify block
        then report Counter.stale w s
        else recover_candidate cand s w false block
    reread cand s w (err e) = recover_candidate cand s w true (replicate cand.block_size 0)

    pub confirmed : Candidate → BatchStats → W × Reconfirm → Panics (Progress W)
    confirmed cand s (w, Reconfirm.stale) = report Counter.stale w s
    confirmed cand s (w, Reconfirm.unverifiable) = report Counter.skipped w s
    confirmed cand s (w, Reconfirm.corruption) =
        if cand.unreadable
        then recover_candidate cand s w true (replicate cand.block_size 0)
        else reread cand s w (
            read_block_or_zeros (kernel.devices w) cfg cand.failing_dev cand.array_phys
              cand.block_size)

    pub verdict : W → Option ReconfirmRequest → W × Reconfirm
    verdict w none = (w, Reconfirm.corruption)
    verdict w (some req) = kernel.reconfirm w req

    pub process_candidate : Candidate → Progress W → Panics (Progress W)
    process_candidate cand p = confirmed cand p.stats (verdict p.world cand.reconfirm)

    -- The clock is looked at only where a window is open and a candidate has been processed.
    pub looked : W → Bool → W → W × Bool
    looked began first w =
        if not first && writes_allowed then kernel.timed_out began w else (w, false)

    -- The loop, with the world at which the window began; the first candidate is never deferred.
    pub flush_loop : W → Bool → List Candidate → Progress W → Panics (Progress W × List Candidate)
    flush_loop began first [] p = returns (p, [])
    flush_loop began first (cand ∷ cands) p =
        let look = looked began first p.world in
        let now = record p { world = look.0 } in
        if look.1
        then returns (now, cand ∷ cands)
        else process_candidate cand now >>= λ p'. flush_loop began false cands p'

  module _ (cfg : ArrayConfig) (scrub_slot : ℕ) (dry_run : Bool) where
    pub is_held : IoResult (Option FreezeGuard) → Bool
    is_held (ok (some g)) = true
    is_held (ok none) = false
    is_held (err e) = false

    pub has_live_mount : FreezeController → Bool
    has_live_mount c = elim c.mountpoint [ none ↦ false | some m ↦ true ]

    -- `drop(freeze_guard)` thaws where a guard is held.
    pub drop_guard : Bool → System W → System W
    drop_guard true system = thaw (ioctl_path kernel.opens kernel.fithaw) system
    drop_guard false system = system

    pub thaw_checked : BatchStats → List Candidate → System W × Option IoError → Flushed W
    thaw_checked s deferred (system, none) = record {
      system = system;
      stats = s;
      deferred = ok deferred;
    }
    thaw_checked s deferred (system, some e) = record {
      system = system;
      stats = s;
      deferred = err other;
    }

    -- After the loop: the guard is dropped, and a failed thaw aborts the run.
    pub close_window : Bool → System W → Progress W × List Candidate → Flushed W
    close_window held system (p, deferred) =
        thaw_checked p.stats deferred
          (take_thaw_error (drop_guard held (record system { kernel = p.world })))

    -- Under the guard, or without one.
    pub window :
        List Candidate → BatchStats → System W × IoResult (Option FreezeGuard) → Panics (Flushed W)
    window cands s (system, result) =
        let held = is_held result in
        let writes_allowed = held || not (has_live_mount system.controller) in
        flush_loop cfg scrub_slot dry_run writes_allowed system.kernel true cands
          (record { world = system.kernel; stats = s })
        >>= λ end. returns (close_window held system end)

    pub flush_batch : List Candidate → System W → BatchStats → Panics (Flushed W)
    flush_batch cands system s =
        let unique = dedup_by_phys (sort_by_phys cands) in
        let s' = record s { deduped = add_u64 s.deduped (length cands - length unique) } in
        window unique s' (guard (ioctl_path kernel.opens kernel.fifreeze) system)

    -- The end of the thread; `none` is a run of `drain` that needed more fuel.
    abbrev pub Ended : Type ℓ
    Ended = Option (System W × IoResult BatchStats)

    -- The thread owns the controller, whose drop thaws once more what is still frozen.
    pub drop_controller : System W → System W
    drop_controller system = thaw (ioctl_path kernel.opens kernel.fithaw) system

    -- After a flush: the deferred candidates are pending, or the run is aborted.
    pub flushed : (List Candidate → System W → BatchStats → Panics Ended) → Flushed W → Panics Ended
    flushed next f = elim f.deferred [
      | ok pending ↦ next pending f.system f.stats
      | err e ↦ returns (some (drop_controller f.system, err e))
    ]

    -- `while !pending.is_empty()`.
    pub drain : ℕ → List Candidate → System W → BatchStats → Panics Ended
    drain zero pending system s = returns none
    drain (suc fuel) [] system s = returns (some (drop_controller system, ok s))
    drain (suc fuel) (c ∷ pending) system s =
        flush_batch (c ∷ pending) system s >>= flushed (drain fuel)

    -- The messages up to the disconnection.
    pub run_writer :
        List (BatchMsg Candidate) → List Candidate → System W → BatchStats → Panics Ended
    run_writer [] pending system s = drain (suc (length pending)) pending system s
    run_writer (BatchMsg.done ∷ messages) pending system s =
        drain (suc (length pending)) pending system s
    run_writer (batch cands ∷ messages) pending system s =
        flush_batch (pending ++ cands) system s >>= flushed (run_writer messages)
