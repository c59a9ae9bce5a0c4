-- ===== src/Array/Tests.antt =====
-- Tests and instances for scrub-rs/src/array: two disks of four bytes with P and Q, blocks of two
-- bytes at offset 2. Slot 2 answers no read when it fails.
use text.Mathlib.Text.{◌==◌ as str_eq}
use rotshield.Prelude.{
  ℕ, ◌≡◌, refl, subst, false, true, Bool, List, [], ◌∷◌, none, some, if◌then◌else◌, arith,
}
use rotshield.Prelude.Io.{ok, err, read_failed, metadata_failed, ioctl_failed}
use rotshield.Recovery.Engine.Rows.{Stripe, without, row_p, row_q}
use rotshield.Array.Config.{ArrayConfig, raw_offset_for, offset_in, add_u64}
use rotshield.Array.Stripe.{
  Device, Devices, read_block_or_zeros, gather_stripe, read_device, open_dev, device_size,
  read_within,
}
use rotshield.Array.Stripe.Bytes.{read_block_or_zeros_lem, ReadOf, HoldsBytes}
use rotshield.Array.Stripe.Gather.{HoldsBut, Holds, gather_stripe_lem}
use rotshield.Array.Parity.{compute_p, compute_q, compute_p_with_override, compute_q_with_override}
use rotshield.Array.Parity.Sync.{compute_p-compute_q_rows, compute_with_override_rows, replaced}

abbrev device_of : List ℕ → Bool → Device
device_of bytes fails = record {
  contents = bytes;
  metadata_fails = false;
  is_block_device = true;
  capacity_fails = false;
  read_fails = λ offset size. fails;
}

-- The disks of the array; the argument says whether slot 2 fails.
abbrev pub disks : Bool → Devices
disks fails path =
    if str_eq path "a"
    then some (device_of (1 ∷ 2 ∷ 3 ∷ 4 ∷ []) false)
    else if str_eq path "b"
    then some (device_of (5 ∷ 6 ∷ 7 ∷ 8 ∷ []) fails)
    else if str_eq path "p"
    then some (device_of (0 ∷ 0 ∷ 4 ∷ 12 ∷ []) false)
    else if str_eq path "q"
    then some (device_of (0 ∷ 0 ∷ 13 ∷ 20 ∷ []) false)
    else none

abbrev pub config : ArrayConfig
config = record {
  data_devs = (1, "a") ∷ (2, "b") ∷ [];
  parity_p = some "p";
  parity_q = some "q";
  rdev_offsets = [];
}

abbrev pub stripe : Stripe
stripe = (1, 3 ∷ 4 ∷ []) ∷ (2, 7 ∷ 8 ∷ []) ∷ []

reads_a : (fails : Bool) → read_block_or_zeros (disks fails) config "a" 2 2 ≡ ok (3 ∷ 4 ∷ [])
unfolding read_block_or_zeros read_device open_dev device_size read_within raw_offset_for offset_in
    add_u64
reads_a fails = refl

reads_b : read_block_or_zeros (disks false) config "b" 2 2 ≡ ok (7 ∷ 8 ∷ [])
unfolding read_block_or_zeros read_device open_dev device_size read_within raw_offset_for offset_in
    add_u64
reads_b = refl

-- A device that fails is no hole of zeros.
error_b : read_block_or_zeros (disks true) config "b" 2 2 ≡ err read_failed
unfolding read_block_or_zeros read_device open_dev device_size read_within raw_offset_for offset_in
    add_u64
error_b = refl

-- Past the end of the device there are zeros, also if it fails.
past_b : read_block_or_zeros (disks true) config "b" 4 2 ≡ ok (0 ∷ 0 ∷ [])
unfolding read_block_or_zeros read_device open_dev device_size read_within raw_offset_for offset_in
    add_u64
past_b = refl

pub reads_p : (fails : Bool) → read_block_or_zeros (disks fails) config "p" 2 2 ≡ ok (4 ∷ 12 ∷ [])
unfolding read_block_or_zeros read_device open_dev device_size read_within raw_offset_for offset_in
    add_u64
reads_p fails = refl

pub reads_q : (fails : Bool) → read_block_or_zeros (disks fails) config "q" 2 2 ≡ ok (13 ∷ 20 ∷ [])
unfolding read_block_or_zeros read_device open_dev device_size read_within raw_offset_for offset_in
    add_u64
reads_q fails = refl

pub healthy : Holds (disks false) config 2 2 config.data_devs stripe
healthy = (refl, reads_a false, (refl, reads_b, tt))

pub degraded : HoldsBut (disks true) config 2 2 2 config.data_devs stripe
degraded = (refl, (λ ne. reads_a true), (refl, (λ ne. absurd (ne refl)), tt))

-- A size that cannot be told is an error too, and no hole of zeros.
abbrev untold : Bool → Device
untold block = record (device_of (5 ∷ 6 ∷ 7 ∷ 8 ∷ []) false) {
  metadata_fails = if block then false else true;
  capacity_fails = block;
}

untold_block : read_device (untold true) 2 2 ≡ err ioctl_failed
unfolding read_device device_size read_within
untold_block = refl

untold_file : read_device (untold false) 2 2 ≡ err metadata_failed
unfolding read_device device_size read_within
untold_file = refl

holds_bytes : (device : Device) → disks false "b" ≡ some device → HoldsBytes device
holds_bytes device e =
    subst HoldsBytes (unwrap e) (omega arith, (omega arith, (omega arith, (omega arith, tt))))
  where
    unwrap : {x y : Device} → some x ≡ some y → x ≡ y
    unwrap f = cc

read_block_or_zeros_example :
    ReadOf
      (disks false "b")
      (add_u64 3 (raw_offset_for config "b"))
      2
      (read_block_or_zeros (disks false) config "b" 3 2)
read_block_or_zeros_example = read_block_or_zeros_lem (disks false) config "b" 3 2 holds_bytes

gather_stripe_example :
    gather_stripe (disks true) config 2 2 2
    ≡ ok (record {
      other_data = without 2 stripe;
      p_block = some (4 ∷ 12 ∷ []);
      q_block = some (13 ∷ 20 ∷ []);
    })
gather_stripe_example =
    gather_stripe_lem (disks true) config 2 2 2 stripe (some (4 ∷ 12 ∷ [])) (some (13 ∷ 20 ∷ []))
      degraded (reads_p true) (reads_q true)

compute_p-compute_q_rows_example :
    (compute_p (disks false) config 2 2 ≡ ok (row_p 2 stripe))
    × (compute_q (disks false) config 2 2 ≡ ok (row_q 2 stripe))
compute_p-compute_q_rows_example =
    compute_p-compute_q_rows (disks false) config 2 2 stripe (ground arith) healthy

compute_with_override_rows_example :
    (compute_p_with_override (disks true) config 2 2 2 (9 ∷ 9 ∷ [])
      ≡ ok (row_p 2 (replaced 2 (9 ∷ 9 ∷ []) stripe)))
    × (compute_q_with_override (disks true) config 2 2 2 (9 ∷ 9 ∷ [])
        ≡ ok (row_q 2 (replaced 2 (9 ∷ 9 ∷ []) stripe)))
compute_with_override_rows_example =
    compute_with_override_rows (disks true) config 2 2 2 (9 ∷ 9 ∷ []) stripe (ground arith)
      (ground arith) degraded
