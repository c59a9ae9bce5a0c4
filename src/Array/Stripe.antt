-- ===== src/Array/Stripe.antt =====
-- scrub-rs/src/array/stripe.rs: reading aligned blocks of all disks at one array offset. What the
-- kernel does is the parameter `Devices`: which paths open, the bytes that a device or file holds, as
-- many as its size, whether it can tell this size, and which reads inside it fail.
pub mod Bytes
pub mod Gather
pub mod Shapes
use rotshield.Prelude.{
  ℕ, ◌-◌, min, leb, ◌==◌, if◌then◌else◌, not, Bool, List, [], ◌∷◌, ◌++◌, Option, none, some, length,
  replicate, take, drop,
}
use rotshield.Prelude.Io.{
  IoError, open_failed, metadata_failed, ioctl_failed, read_failed, IoResult, ok, err, ◌>>=◌,
}
use rotshield.Recovery.Model.{Block}
use rotshield.Array.Config.{FilePath, ArrayConfig, raw_offset_for, add_u64}

pub record Device : Type 0 where
  pub contents : List ℕ
  -- `metadata()`, the type of the file, and the `ioctl` BLKGETSIZE64 of a block device.
  pub metadata_fails : Bool
  pub is_block_device : Bool
  pub capacity_fails : Bool
  -- The seek and `read_exact` of the second number of bytes at the first offset fail.
  pub read_fails : ℕ → ℕ → Bool

abbrev pub Devices : Type 0
Devices = FilePath → Option Device

pub record StripeChunks : Type 0 where
  pub other_data : List (ℕ × Block)
  pub p_block : Option Block
  pub q_block : Option Block

unfoldable pub open_dev : Devices → FilePath → IoResult Device
open_dev devices path = elim (devices path) [ none ↦ err open_failed | some device ↦ ok device ]

unfoldable pub device_size : Device → IoResult ℕ
device_size device =
    if device.metadata_fails
    then err metadata_failed
    else if not device.is_block_device
    then ok (length device.contents)
    else if device.capacity_fails
    then err ioctl_failed
    else ok (length device.contents)

-- The size decides where the padding with zeros begins.
unfoldable pub read_within : Device → ℕ → ℕ → ℕ → IoResult Block
read_within device raw_phys block_size size =
    if leb size raw_phys
    then ok (replicate block_size 0)
    else (let available = min (size - raw_phys) block_size in
        if device.read_fails raw_phys available
        then err read_failed
        else ok (
            take available (drop raw_phys device.contents) ++ replicate (block_size - available) 0))

unfoldable pub read_device : Device → ℕ → ℕ → IoResult Block
read_device device raw_phys block_size = do
  size ← device_size device
  read_within device raw_phys block_size size

unfoldable pub read_block_or_zeros : Devices → ArrayConfig → FilePath → ℕ → ℕ → IoResult Block
read_block_or_zeros devices config path array_phys block_size = do
  device ← open_dev devices path
  read_device device (add_u64 array_phys (raw_offset_for config path)) block_size

module _ (devices : Devices) (config : ArrayConfig) (array_phys block_size : ℕ) where
  -- The loop over the data disks; the failing one is not read.
  unfoldable pub gather_others : ℕ → List (ℕ × FilePath) → IoResult (List (ℕ × Block))
  gather_others failing_slot [] = ok []
  gather_others failing_slot ((slot, path) ∷ rest) =
      let others = gather_others failing_slot rest in
      if slot == failing_slot then others else (do
        block ← read_block_or_zeros devices config path array_phys block_size
        tail ← others
        ok ((slot, block) ∷ tail))

  unfoldable pub gather_parity : Option FilePath → IoResult (Option Block)
  gather_parity none = ok none
  gather_parity (some path) = do
    block ← read_block_or_zeros devices config path array_phys block_size
    ok (some block)

  unfoldable pub gather_stripe : ℕ → IoResult StripeChunks
  gather_stripe failing_slot = do
    others ← gather_others failing_slot config.data_devs
    p ← gather_parity config.parity_p
    q ← gather_parity config.parity_q
    ok (record { other_data = others; p_block = p; q_block = q })
