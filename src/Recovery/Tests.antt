-- ===== src/Recovery/Tests.antt =====
-- Tests and instances for scrub-rs/src/recovery: a stripe of three disks with two bytes each,
-- whose slot 2 is bad.
use rotshield.Prelude.{◌≡◌, refl, sym, false, inl, inr, [], ◌∷◌, Option, some, none, arith}
use rotshield.Prelude.Panics.{returns}
use rotshield.Recovery.Model.{
  Block, RecoveryInput, RecoveryResult, recovered, failed, all_paths_failed, parity_baked_in,
  ParityPath,
}
use rotshield.Recovery.Engine.{recover_block, recover_via_p, q_candidate, solve_two_disk, block_eq}
use rotshield.Recovery.Engine.Blocks.{block_eq_sound, block_eq_refl}
use rotshield.Recovery.Engine.Rows.{Stripe, find, without, row_p, row_q}
use rotshield.Recovery.Engine.Loops.{row_p-IsBlock, row_q-IsBlock, neither}
use rotshield.Recovery.Engine.Single.{recover_via_p_lem, q_candidate_lem}
use rotshield.Recovery.Engine.TwoDisk.{solve_two_disk_lem}
use rotshield.Recovery.Engine.Steps.{IsInput}
use rotshield.Recovery.Engine.Outcome.{Honest, recover_block-Honest}
use rotshield.Recovery.Engine.Repair.{recover_block_p, recover_block_q}
use rotshield.Recovery.Engine.DoubleFault.{recover_block_two, Rebuilds}
use rotshield.Recovery.Engine.Baked.{recover_block_baked}

abbrev first : Block
first = 0x11 ∷ 0x22 ∷ []

abbrev second : Block
second = 0x33 ∷ 0x44 ∷ []

abbrev third : Block
third = 0x80 ∷ 7 ∷ []

abbrev rotten : Block
rotten = 0x33 ∷ 0x45 ∷ []

abbrev stripe : Stripe
stripe = (1, first) ∷ (2, second) ∷ (3, third) ∷ []

abbrev intact : Stripe
intact = (1, first) ∷ (3, third) ∷ []

-- Slot 3 is bad too.
abbrev spoilt : Stripe
spoilt = (1, first) ∷ (3, rotten) ∷ []

abbrev input_of : Stripe → Option Block → Option Block → RecoveryInput
input_of others p q = record {
  failing_slot = 2;
  corrupt_block = rotten;
  unreadable_source = false;
  other_blocks = others;
  p_block = p;
  q_block = q;
  verifier = λ b. block_eq b second;
}

abbrev both : Stripe → RecoveryInput
both others = input_of others (some (row_p 2 stripe)) (some (row_q 2 stripe))

rejects : block_eq rotten second ≡ false
unfolding block_eq
rejects = refl

held : find 2 stripe ≡ some second
unfolding find
held = refl

partner : find 3 stripe ≡ some third
unfolding find
partner = refl

others_are : without 2 stripe ≡ intact
unfolding without
others_are = refl

spoilt_agrees : without 3 spoilt ≡ neither 3 2 stripe
unfolding without
spoilt_agrees = refl

both-IsInput : IsInput 2 (both intact)
both-IsInput = record {
  slot_from = omega arith;
  slot_below = omega arith;
  corrupt = omega arith;
  others = omega arith;
  slots = omega arith;
  p_fits = row_p-IsBlock 2 1 stripe (omega arith);
  q_fits = row_q-IsBlock 2 1 stripe (omega arith);
}

recover_via_p_example : recover_via_p rotten (without 2 stripe) (row_p 2 stripe) 2 ≡ returns second
recover_via_p_example = recover_via_p_lem 2 2 stripe second (omega arith) held rotten refl

q_candidate_example : q_candidate (without 2 stripe) (row_q 2 stripe) 2 2 ≡ second
q_candidate_example = q_candidate_lem 2 2 stripe second (omega arith) held

solve_two_disk_example :
    solve_two_disk (row_p 2 stripe) (row_q 2 stripe) spoilt 3 2 2 ≡ returns (some second)
solve_two_disk_example =
    solve_two_disk_lem 2 3 2 stripe spoilt second third (omega arith) (omega arith) held partner
      (omega arith) spoilt_agrees (omega arith) (omega arith)

recover_block-Honest_example :
    (r : RecoveryResult) × (recover_block (both intact) 2 ≡ returns r) × Honest 2 (both intact) r
recover_block-Honest_example = recover_block-Honest 2 (both intact) both-IsInput

recover_block_p_example : recover_block (both intact) 2 ≡ returns (recovered ParityPath.p second)
recover_block_p_example =
    recover_block_p 2 (both intact) both-IsInput (inr rejects) stripe second (omega arith) held
      (sym others_are) (block_eq_refl second) refl

abbrev without_p : RecoveryInput
without_p = input_of intact none (some (row_q 2 stripe))

recover_block_q_example : recover_block without_p 2 ≡ returns (recovered ParityPath.q second)
recover_block_q_example =
    recover_block_q 2 without_p
      (record {
        slot_from = omega arith;
        slot_below = omega arith;
        corrupt = omega arith;
        others = omega arith;
        slots = omega arith;
        p_fits = tt;
        q_fits = row_q-IsBlock 2 1 stripe (omega arith);
      })
      (inr rejects) stripe second (omega arith) held (sym others_are) (block_eq_refl second)
      (omega arith) (inl refl) refl

spoilt-IsInput : IsInput 2 (both spoilt)
spoilt-IsInput = record {
  slot_from = omega arith;
  slot_below = omega arith;
  corrupt = omega arith;
  others = omega arith;
  slots = omega arith;
  p_fits = row_p-IsBlock 2 1 stripe (omega arith);
  q_fits = row_q-IsBlock 2 1 stripe (omega arith);
}

listed : find 3 spoilt ≡ some rotten
unfolding find
listed = refl

recover_block_two_example : Rebuilds (both spoilt) 2 second
recover_block_two_example =
    recover_block_two 2 (both spoilt) spoilt-IsInput second (block_eq_refl second)
      (λ b i e. block_eq_sound b second e) (inr rejects) 3 stripe third rotten (omega arith) held
      partner (omega arith) (omega arith) listed spoilt_agrees refl refl

-- Both parities were recomputed over the rotten block.
abbrev resynced : Stripe
resynced = (1, first) ∷ (2, rotten) ∷ (3, third) ∷ []

abbrev resynced_input : RecoveryInput
resynced_input = input_of intact (some (row_p 2 resynced)) (some (row_q 2 resynced))

resynced_held : find 2 resynced ≡ some rotten
unfolding find
resynced_held = refl

resynced_others : intact ≡ without 2 resynced
unfolding without
resynced_others = refl

recover_block_baked_example :
    recover_block resynced_input 2
    ≡ returns (
        failed (
          all_paths_failed
            (parity_baked_in ParityPath.p)
            (parity_baked_in ParityPath.q)
            (1 ∷ 3 ∷ [])))
recover_block_baked_example =
    recover_block_baked 2 resynced_input
      (record {
        slot_from = omega arith;
        slot_below = omega arith;
        corrupt = omega arith;
        others = omega arith;
        slots = omega arith;
        p_fits = row_p-IsBlock 2 1 resynced (omega arith);
        q_fits = row_q-IsBlock 2 1 resynced (omega arith);
      })
      refl rejects resynced (omega arith) resynced_held resynced_others refl refl
