-- ===== src/Recovery/Model.antt =====
-- scrub-rs/src/recovery/model.rs: the input of one recovery attempt and its outcomes. A block is
-- the list of its bytes, and the verifier closure is a Boolean function of a block.
use Prim.Native.String.{String}
use rotshield.Prelude.{ℕ, Bool, List, Option}

abbrev pub Block : Type 0
Block = List ℕ

pub record RecoveryInput : Type 0 where
  pub failing_slot : ℕ
  pub corrupt_block : Block
  pub unreadable_source : Bool
  pub other_blocks : List (ℕ × Block)
  pub p_block : Option Block
  pub q_block : Option Block
  pub verifier : Block → Bool

pub data ParityPath : Type 0 where
  p q : ParityPath
  pq : (partner_slot : ℕ) → ParityPath

pub data FailureReason : Type 0 where
  csum_mismatch parity_baked_in parity_absent : (via : ParityPath) → FailureReason
  internal_inconsistency : String → FailureReason
  all_paths_failed :
      (p_reason q_reason : FailureReason) (pq_partners_tried : List ℕ) → FailureReason
  no_q_path_and_p_failed : (p_reason : FailureReason) → FailureReason

pub data RecoveryResult : Type 0 where
  recovered : (via : ParityPath) (block : Block) → RecoveryResult
  not_corrupt : RecoveryResult
  failed : (reason : FailureReason) → RecoveryResult
