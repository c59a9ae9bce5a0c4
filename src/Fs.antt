-- ===== src/Fs.antt =====
-- scrub-rs/src/fs.rs: what a file system implementation promises the recovery. The trait
-- `Reconfirmer` is a function of the world that uses it, a field of `Kernel` in BatchRecover/Writer.
use rotshield.Prelude.{ℕ}
use rotshield.Recovery.Model.{Block}

pub record ReconfirmRequest : Type 0 where
  pub token : ℕ
  pub stored_csum : Block

pub data Reconfirm : Type 0 where
  corruption stale unverifiable : Reconfirm
