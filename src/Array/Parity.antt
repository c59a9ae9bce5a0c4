-- ===== src/Array/Parity.antt =====
-- scrub-rs/src/array/parity.rs: the P and Q rows of the data disks at one offset. The byte loops
-- are those of the engine, which has the same bodies.
pub mod Sync
use rotshield.Prelude.{ℕ, ◌==◌, if◌then◌else◌, List, [], ◌∷◌, replicate}
use rotshield.Prelude.Io.{IoResult, ok, err, ◌>>=◌}
use rotshield.Recovery.Model.{Block}
use rotshield.Recovery.Engine.{xor_inplace, gf_mul_xor_inplace, slot_coef}
use rotshield.Array.Config.{FilePath, ArrayConfig}
use rotshield.Array.Stripe.{Devices, read_block_or_zeros}

module _ (devices : Devices) (config : ArrayConfig) (array_phys block_size : ℕ) where
  pub p_loop : List (ℕ × FilePath) → Block → IoResult Block
  p_loop [] p = ok p
  p_loop ((slot, path) ∷ rest) p = do
    block ← read_block_or_zeros devices config path array_phys block_size
    p_loop rest (xor_inplace p block)

  pub compute_p : IoResult Block
  compute_p = p_loop config.data_devs (replicate block_size 0)

  pub q_loop : List (ℕ × FilePath) → Block → IoResult Block
  q_loop [] q = ok q
  q_loop ((slot, path) ∷ rest) q = do
    block ← read_block_or_zeros devices config path array_phys block_size
    q_loop rest (gf_mul_xor_inplace q block (slot_coef slot))

  pub compute_q : IoResult Block
  compute_q = q_loop config.data_devs (replicate block_size 0)

  module _ (override_slot : ℕ) (override_block : Block) where
    pub block_or_override : ℕ → FilePath → IoResult Block
    block_or_override slot path =
        if slot == override_slot
        then ok override_block
        else read_block_or_zeros devices config path array_phys block_size

    pub p_override_loop : List (ℕ × FilePath) → Block → IoResult Block
    p_override_loop [] p = ok p
    p_override_loop ((slot, path) ∷ rest) p = do
      block ← block_or_override slot path
      p_override_loop rest (xor_inplace p block)

    pub compute_p_with_override : IoResult Block
    compute_p_with_override = p_override_loop config.data_devs (replicate block_size 0)

    pub q_override_loop : List (ℕ × FilePath) → Block → IoResult Block
    q_override_loop [] q = ok q
    q_override_loop ((slot, path) ∷ rest) q = do
      block ← block_or_override slot path
      q_override_loop rest (gf_mul_xor_inplace q block (slot_coef slot))

    pub compute_q_with_override : IoResult Block
    compute_q_with_override = q_override_loop config.data_devs (replicate block_size 0)
