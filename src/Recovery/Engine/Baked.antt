-- ===== src/Recovery/Engine/Baked.antt =====
-- `recover_block` of scrub-rs/src/recovery/engine.rs on a stripe whose parity was recomputed from
-- the corrupt bytes.
use rotshield.Prelude.{
  ℕ, suc, ◌≤◌, ◌≡◌, refl, sym, ap, ap₂, ◌∙◌, ◌==◌, ==_refl, true, false, inr, List, [], ◌∷◌, ◌++◌,
  some, arith,
}
use mathlib.Core.List.{append-nil, append_assoc}
use native.Mathlib.Decide.{ℕ_discrete}
use rotshield.Prelude.Panics.{returns}
use rotshield.Recovery.Model.{
  Block, RecoveryInput, ParityPath, failed, all_paths_failed, parity_baked_in,
}
use rotshield.Recovery.Engine.{
  xor_inplace, p_step, q_step, reason, solve_two_disk, try_partners, last_resort, recover_block,
  recover_via_q, q_result, q_candidate, xor_all, all_zero,
}
use rotshield.Recovery.Engine.Blocks.{length-IsBlock, xor_self_block, all_zero-zeros, block_eq_refl}
use rotshield.Recovery.Engine.Rows.{
  Stripe, IsStripe, find, find-without_ne, find-without_self, without, row_p, row_q, find-IsBlock,
  without-IsStripe,
}
use rotshield.Recovery.Engine.Loops.{row_p-IsBlock, row_q-IsBlock, xor_all-row, neither}
use rotshield.Recovery.Engine.Single.{q_candidate_lem, row_p-split}
use rotshield.Recovery.Engine.TwoDisk.{solve_two_disk_lem}
use rotshield.Recovery.Engine.Steps.{FitSlots, IsInput, try_partners-miss}
use rotshield.Recovery.Engine.Outcome.{slots}
use rotshield.Recovery.Engine.Repair.{enter_last}

module _ (n : ℕ) (input : RecoveryInput) (v : IsInput n input)
    (readable : input.unreadable_source ≡ false)
    (mismatch : input.verifier input.corrupt_block ≡ false) (stripe : Stripe)
    (w : IsStripe n 1 stripe) (here : find input.failing_slot stripe ≡ some input.corrupt_block)
    (others : input.other_blocks ≡ without input.failing_slot stripe)
    (p_baked : input.p_block ≡ some (row_p n stripe))
    (q_baked : input.q_block ≡ some (row_q n stripe)) where
  p_baked_step :
      p_step input n input.p_block ≡ returns (reason (some (parity_baked_in ParityPath.p)))
  unfolding p_step
  p_baked_step =
      ap (p_step input n) p_baked
      ∙ rw (length-IsBlock n _ (row_p-IsBlock n 1 stripe w), ==_refl n, readable, zeroed) refl
    where
      zeroed :
          all_zero (xor_inplace (xor_all input.other_blocks input.corrupt_block) (row_p n stripe))
          ≡ true
      zeroed =
          ap (λ (t : Block). all_zero (xor_inplace t (row_p n stripe)))
            (ap (λ (o : Stripe). xor_all o input.corrupt_block) others
              ∙ xor_all-row n 1 _ input.corrupt_block
                  (without-IsStripe n 1 input.failing_slot stripe w) v.corrupt
              ∙ sym (row_p-split n input.failing_slot stripe input.corrupt_block w here))
          ∙ ap all_zero (xor_self_block n _ (row_p-IsBlock n 1 stripe w))
          ∙ all_zero-zeros n

  q_baked_step :
      q_step input n input.q_block ≡ returns (reason (some (parity_baked_in ParityPath.q)))
  unfolding q_step recover_via_q q_result
  q_baked_step =
      ap (q_step input n) q_baked
      ∙ rw
          (
            length-IsBlock n _ (row_q-IsBlock n 1 stripe w),
            ==_refl n,
            readable,
            candidate,
            block_eq_refl input.corrupt_block,
          )
          refl
    where
      candidate :
          q_candidate input.other_blocks (row_q n stripe) input.failing_slot n ≡ input.corrupt_block
      candidate =
          ap (λ (o : Stripe). q_candidate o (row_q n stripe) input.failing_slot n) others
          ∙ q_candidate_lem n input.failing_slot stripe input.corrupt_block w here

  -- Every partner gives the corrupt block again, and the verifier rejects it.
  partners_reject :
      (lo : ℕ) (ps : Stripe) (tried : List ℕ)
      → 1 ≤ lo
      → IsStripe n lo ps
      → FitSlots input.failing_slot ps
      → ((j : ℕ) (y : Block) → find j ps ≡ some y → find j stripe ≡ some y)
      → try_partners input n
          (row_p n stripe)
          (row_q n stripe)
          (parity_baked_in ParityPath.p)
          (parity_baked_in ParityPath.q)
          ps
          tried
        ≡ returns (
            failed (
              all_paths_failed
                (parity_baked_in ParityPath.p)
                (parity_baked_in ParityPath.q)
                (tried ++ slots ps)))
  unfolding try_partners
  partners_reject lo [] tried l w' f sub = rw append-nil refl
  partners_reject lo ((s, b) ∷ ps) tried l w' f sub =
      try_partners-miss n input v _ _ (row_p-IsBlock n 1 stripe w) (row_q-IsBlock n 1 stripe w) _ _
        s b input.corrupt_block ps tried solves mismatch
      ∙ partners_reject (suc s) ps (tried ++ s ∷ []) (omega arith) w'.3 f.1 inside
      ∙ rw append_assoc refl
    where
      held : find s stripe ≡ some b
      held = sub s b (unfold find in rw (==_refl s) refl)

      agree : without s input.other_blocks ≡ neither s input.failing_slot stripe
      agree = ap (without s) others

      solves :
          solve_two_disk (row_p n stripe) (row_q n stripe) input.other_blocks s input.failing_slot n
          ≡ returns (some input.corrupt_block)
      solves =
          solve_two_disk_lem n s input.failing_slot stripe input.other_blocks input.corrupt_block b
            w v.others here held (f.0.1) agree (f.0.0) v.slot_below

      inside : (j : ℕ) (y : Block) → find j ps ≡ some y → find j stripe ≡ some y
      inside j y e = sub j y (rw (later j y e) e)
        where
          later : (j : ℕ) (y : Block) → find j ps ≡ some y → find j ((s, b) ∷ ps) ≡ find j ps
          later j y e =
              let above : suc s ≤ j = (find-IsBlock n (suc s) j ps y w'.3 e).1 in
              unfold find in (let miss : (s == j) ≡ false = ground arith in rw miss refl)

  -- On an input of the documented form with a readable block that fails the verifier, whose P and
  -- Q were both recomputed from it and the other disks, `recover_block` returns no block: it reports
  -- both parities as baked in, and every other slot as tried.
  pub recover_block_baked :
      recover_block input n
      ≡ returns (
          failed (
            all_paths_failed
              (parity_baked_in ParityPath.p)
              (parity_baked_in ParityPath.q)
              (slots input.other_blocks)))
  unfolding last_resort
  recover_block_baked =
      enter_last n input v (inr mismatch) _ _ p_baked_step q_baked_step
      ∙ ap₂
          (λ op oq.
            last_resort input n op oq (parity_baked_in ParityPath.p) (parity_baked_in ParityPath.q))
          p_baked q_baked
      ∙ partners_reject 1 input.other_blocks [] (omega arith) v.others v.slots held
    where
      found :
          (j : ℕ) (y : Block)
          → find j (without input.failing_slot stripe) ≡ some y
          → find j stripe ≡ some y
      found j y e = elim (ℕ_discrete j input.failing_slot) [
        | yes same ↦ cc (find-without_self input.failing_slot stripe, rw same at e)
        | no ne ↦ sym (find-without_ne j input.failing_slot stripe ne) ∙ e
      ]

      held : (j : ℕ) (y : Block) → find j input.other_blocks ≡ some y → find j stripe ≡ some y
      held j y e = found j y (ap (find j) (sym others) ∙ e)
