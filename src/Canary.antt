-- ===== src/Canary.antt =====
-- scrub-rs/src/canary.rs: the startup probe of the array, which reconstructs a known block from P.
pub mod Probe
mod Tests
use rotshield.Prelude.{ℕ, Option, none, some, replicate}
use rotshield.Prelude.Io.{IoResult, ok, err, not_found, ◌>>=◌}
use rotshield.Prelude.Panics.{Panics}
use rotshield.Recovery.Model.{Block}
use rotshield.Recovery.Engine.{recover_via_p}
use rotshield.Array.Config.{ArrayConfig}
use rotshield.Array.Stripe.{Devices, StripeChunks, gather_stripe}

-- The part after the stripe has been read.
pub probe : ℕ → StripeChunks → Option Block → IoResult (Panics Block)
probe block_size chunks none = err not_found
probe block_size chunks (some p_block) =
    ok (recover_via_p (replicate block_size 0) chunks.other_data p_block block_size)

pub reconstruct_block : Devices → ArrayConfig → ℕ → ℕ → ℕ → IoResult (Panics Block)
reconstruct_block devices config failing_slot array_phys block_size = do
  chunks ← gather_stripe devices config array_phys block_size failing_slot
  probe block_size chunks chunks.p_block
