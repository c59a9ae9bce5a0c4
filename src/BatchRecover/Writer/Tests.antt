-- ===== src/BatchRecover/Writer/Tests.antt =====
-- Tests and instances for the writer of scrub-rs/src/batch_recover.rs: the array of Array/Tests,
-- whose slot 1 has lost its block until it is written, under a file system that can be frozen.
use text.Mathlib.Text.{◌==◌ as str_eq}
use rotshield.Prelude.{
  ℕ, ◌≡◌, subst, ◌==◌, ◌&&◌, ◌||◌, refl, Bool, true, false, not, List, [], ◌∷◌, none, some,
  if◌then◌else◌, Option, arith,
}
use rotshield.Prelude.Io.{ok}
use rotshield.Prelude.Sort.{sort_by_key, insert_by_key}
use rotshield.Prelude.Panics.{returns, Gives}
use rotshield.Recovery.Model.{Block}
use rotshield.Array.Config.{FilePath}
use rotshield.Array.Tests.{config}
use rotshield.Array.Stripe.{Device, Devices}
use rotshield.Array.Stripe.Bytes.{HoldsBytes}
use rotshield.Array.Stripe.Shapes.{IsLayout, AreBytes}
use rotshield.Recovery.Engine.{
  xor_inplace, xor_all, block_eq, all_zero, xor_others, recover_via_p, p_candidate, p_step,
  accepted, after_p, recover_block,
}
use rotshield.Array.Config.{add_u64, raw_offset_for, offset_in}
use rotshield.Array.Stripe.{
  open_dev, device_size, read_within, read_device, read_block_or_zeros, gather_others,
  gather_parity, gather_stripe,
}
use rotshield.Fs.{ReconfirmRequest, Reconfirm}
use rotshield.Freeze.{
  System, new_controller, guard, guard_at, guarded, ioctl_path, called, thaw, thaw_at, thawed,
  take_thaw_error,
}
use rotshield.Freeze.Window.{IsIoctl}
use rotshield.BatchRecover.{BatchMsg, batch}
use rotshield.BatchRecover.Writer.{
  Candidate, Kernel, no_stats, flush_batch, run_writer, dedup_by_phys, sort_by_phys, dedup_after,
  window, looked, flush_loop, process_candidate, verdict, confirmed, reread, recover_candidate,
  gathered, settle, written, cache_dropped, read_back, reread_counter, report, count, drop_cache,
  write_block, sync_result, close_window, drop_guard, thaw_checked, is_held, has_live_mount,
  flushed, drop_controller, drain,
}
use rotshield.BatchRecover.Writer.Windows.{WindowDone, flush_batch-Done}
use rotshield.BatchRecover.Writer.Frozen.{LeavesFrozen, FrozenWrites, flush_batch-FrozenWrites}

-- Whether the file system is frozen, and whether the block has been written.
abbrev World : Type 0
World = Bool × Bool

abbrev device_of : List ℕ → Device
device_of bytes = record {
  contents = bytes;
  metadata_fails = false;
  is_block_device = true;
  capacity_fails = false;
  read_fails = λ offset size. false;
}

abbrev found : Bool → Device → Option Device → Option Device
found b device next = if b then some device else next

abbrev disks : World → Devices
disks w path =
    found (str_eq path "a")
      (if w.1 then device_of (1 ∷ 2 ∷ 3 ∷ 4 ∷ []) else device_of (1 ∷ 2 ∷ 9 ∷ 4 ∷ []))
      (found (str_eq path "b") (device_of (5 ∷ 6 ∷ 7 ∷ 8 ∷ [])) (
        found (str_eq path "p") (device_of (0 ∷ 0 ∷ 4 ∷ 12 ∷ []))
          (found (str_eq path "q") (device_of (0 ∷ 0 ∷ 13 ∷ 20 ∷ [])) none)))

abbrev is_block : Block → Bool
is_block [] = false
is_block (x ∷ []) = false
is_block (x ∷ y ∷ []) = x == 3 && y == 4
is_block (x ∷ y ∷ z ∷ more) = false

-- The reconfirmer knows one token, for which the checksum is that of the block on the disk.
abbrev kernel : Kernel World
kernel = record {
  devices = disks;
  opens = λ w path. true;
  opens_rw = λ w path. true;
  is_block_device = λ w path. true;
  write_synced = λ w path offset block. ((w.0, w.1 || is_block block), true);
  blkflsbuf = λ w path. (w, true);
  fifreeze = λ w path. ((true, w.1), not w.0);
  fithaw = λ w path. ((false, w.1), true);
  reconfirm = λ w req. (w, if req.token == 7 then Reconfirm.stale else Reconfirm.corruption);
  timed_out = λ began w. (w, w.1);
}

abbrev cand : Option ReconfirmRequest → ℕ → Candidate
cand req phys = record {
  array_phys = phys;
  block_size = 2;
  verify = is_block;
  raw_phys = phys;
  failing_dev = "a";
  reconfirm = req;
  unreadable = false;
}

abbrev cands : List Candidate
cands = cand (some (record { token = 7; stored_csum = [] })) 4 ∷ cand none 2 ∷ cand none 2 ∷ []

abbrev idle : System World
idle = record {
  controller = new_controller (some "/mnt/disk1");
  active_mount = none;
  kernel = (false, false);
}

abbrev idle_after : System World
idle_after = record idle { kernel = (false, true) }

abbrev messages : List (BatchMsg Candidate)
messages = batch cands ∷ BatchMsg.done ∷ []

-- The duplicate is dropped and the block at 2 written; the window is over before the block at 4,
-- which a second window finds rewritten.
whole_run :
    run_writer kernel config 1 false messages [] idle no_stats
    ≡ returns (
        some (
          idle_after,
          ok (record no_stats { mismatch = 1; stale = 1; recovered = 1; deduped = 1 }),
        ))
unfolding run_writer flush_batch dedup_by_phys sort_by_phys sort_by_key insert_by_key dedup_after
    guard guard_at guarded ioctl_path called window looked flush_loop process_candidate verdict
    confirmed reread recover_candidate gathered settle written cache_dropped read_back
    reread_counter report count add_u64 drop_cache write_block sync_result close_window drop_guard
    thaw thaw_at thawed take_thaw_error thaw_checked is_held has_live_mount flushed drop_controller
    drain read_block_or_zeros read_device read_within open_dev device_size raw_offset_for offset_in
    gather_stripe gather_others gather_parity recover_block p_candidate p_step after_p recover_via_p
    xor_others xor_all xor_inplace block_eq all_zero accepted
whole_run = refl

found-Holds :
    (b : Bool) (device : Device) (next : Option Device)
    → HoldsBytes device
    → ((d : Device) → next ≡ some d → HoldsBytes d)
    → (d : Device) → found b device next ≡ some d
    → HoldsBytes d
found-Holds true device next here_h later d e =
    let same : device ≡ d = cc in subst (λ (x : Device). HoldsBytes x) same here_h
found-Holds false device next here_h later d e = later d e

disk_a-Holds :
    (healed : Bool)
    → HoldsBytes (if healed then device_of (1 ∷ 2 ∷ 3 ∷ 4 ∷ []) else device_of (1 ∷ 2 ∷ 9 ∷ 4 ∷ []))
disk_a-Holds true = (omega arith, (omega arith, (omega arith, (omega arith, tt))))
disk_a-Holds false = (omega arith, (omega arith, (omega arith, (omega arith, tt))))

are_bytes : (w : World) → AreBytes (kernel.devices w)
are_bytes w path = found-Holds (str_eq path "a") _ _ (disk_a-Holds w.1) (
    found-Holds (str_eq path "b") _ _ (omega arith, (omega arith, (omega arith, (omega arith, tt))))
      (found-Holds (str_eq path "p") _ _
        (omega arith, (omega arith, (omega arith, (omega arith, tt))))
        (found-Holds (str_eq path "q") _ _
          (omega arith, (omega arith, (omega arith, (omega arith, tt)))) (λ d e. absurd (cc)))))

layout : IsLayout 1 config.data_devs
layout = (omega arith, omega arith, (omega arith, omega arith, tt))

fifreeze_ok : (k k' : World) (m : FilePath) → kernel.fifreeze k m ≡ (k', true) → k'.0 ≡ true
fifreeze_ok k k' m e = cc

fifreeze_refused : (k k' : World) (m : FilePath) → kernel.fifreeze k m ≡ (k', false) → k'.0 ≡ k.0
fifreeze_refused (true, b) k' m e = cc
fifreeze_refused (false, b) k' m e = absurd (cc)

abbrev is_frozen : World → FilePath → Bool
is_frozen w m = w.0

laws : IsIoctl kernel.opens kernel.fifreeze kernel.fithaw is_frozen
laws = record {
  freezes = fifreeze_ok;
  keeps = fifreeze_refused;
  thaws = λ k k' m e. cc;
  stays = λ k k' m e. absurd (cc);
}

leaves : LeavesFrozen kernel config is_frozen "/mnt/disk1"
leaves = record {
  asking = λ w req. refl;
  waiting = λ began w. refl;
  flushing = λ w dev. refl;
  syncing = λ w dev offset block. refl;
}

-- The candidates of the batch are those of slot 1.
abbrev OnSlot : Candidate → Type 0
OnSlot c = c.failing_dev ≡ "a"

flush_batch-Done_example :
    Gives
      (WindowDone kernel config 1 false OnSlot layout
        (omega arith)
        (omega arith)
        are_bytes
        cands
        no_stats
        (guard (ioctl_path kernel.opens kernel.fifreeze) idle))
      (flush_batch kernel config 1 false cands idle no_stats)
flush_batch-Done_example =
    flush_batch-Done kernel config 1 false OnSlot layout (omega arith) (omega arith) are_bytes cands
      idle no_stats (refl, (refl, (refl, tt)))

flush_batch-FrozenWrites_example :
    Gives
      (FrozenWrites kernel config 1 false OnSlot is_frozen "/mnt/disk1"
        (guard (ioctl_path kernel.opens kernel.fifreeze) idle))
      (flush_batch kernel config 1 false cands idle no_stats)
flush_batch-FrozenWrites_example =
    flush_batch-FrozenWrites kernel config 1 false OnSlot is_frozen "/mnt/disk1" layout
      (omega arith) (omega arith) are_bytes laws leaves cands idle no_stats
      (refl, (refl, (refl, tt))) ((refl, refl), refl)
