-- ===== src/Recovery/Engine/Steps.antt =====
-- Each path of `recover_block` (scrub-rs/src/recovery/engine.rs) on a well-formed input: it does
-- not panic, and what it returns early is a block that the verifier accepts.
use rotshield.Prelude.{
  ℕ, ◌≤◌, ◌<◌, ◌≡◌, ◌≢◌, refl, ap, ==_refl, Bool, true, false, not, ◌&&◌, Bool-cases, inl, inr,
  if◌then◌else◌, List, [], ◌∷◌, ◌++◌, Option, none, some, All, arith,
}
use rotshield.Prelude.Panics.{returns}
use rotshield.Recovery.Model.{
  Block, RecoveryInput, ParityPath, FailureReason, recovered, not_corrupt, failed, parity_absent,
  parity_baked_in, csum_mismatch,
}
use rotshield.Recovery.Engine.{
  xor_inplace, all_zero, xor_all, recover_via_p, p_candidate, p_step, q_recovered, baked_in,
  q_mismatch, block_eq, q_candidate, recover_via_q, q_result, q_step, PathStep, early, reason,
  solve_two_disk, accepted, partner_result, try_partners,
}
use rotshield.Recovery.Engine.Blocks.{IsBlock, length-IsBlock, xor-IsBlock}
use rotshield.Recovery.Engine.Rows.{Stripe, IsStripe, row_p}
use rotshield.Recovery.Engine.Loops.{row_p-IsBlock}
use rotshield.Recovery.Engine.Single.{recover_via_p-row, q_candidate-IsBlock}
use rotshield.Recovery.Engine.TwoDisk.{solve_two_disk-total}

-- Slots that fit the exponent table, none of them the failing one.
abbrev pub FitSlots : ℕ → Stripe → Type 0
FitSlots k = All (λ e. (e.0 < 256) × (e.0 ≢ k))

-- The parity block, where there is one, has the block size.
abbrev pub IsParity : ℕ → Option Block → Type 0
IsParity n none = Unit
IsParity n (some b) = IsBlock n b

-- The documented contract of `recover_block`: slices of `block_size` bytes, the other data disks
-- by their 1-based slots without the failing one.
pub record IsInput (n : ℕ) (input : RecoveryInput) : Type 0 where
  pub slot_from : 1 ≤ input.failing_slot
  pub slot_below : input.failing_slot < 256
  pub corrupt : IsBlock n input.corrupt_block
  pub others : IsStripe n 1 input.other_blocks
  pub slots : FitSlots input.failing_slot input.other_blocks
  pub p_fits : IsParity n input.p_block
  pub q_fits : IsParity n input.q_block

-- A step that returns early returns a block of n bytes that passes the verifier.
abbrev pub Checked : (n : ℕ) → RecoveryInput → PathStep → Type 0
Checked n input (early (recovered via b)) = IsBlock n b × (input.verifier b ≡ true)
Checked n input (early not_corrupt) = ⊥
Checked n input (early (failed r)) = ⊥
Checked n input (reason none) = ⊥
Checked n input (reason (some r)) = Unit

module _ (n : ℕ) (input : RecoveryInput) (v : IsInput n input) where
  p_candidate-Checked :
      (p : Block)
      → IsBlock n p
      → (s : PathStep) × (p_candidate input n p ≡ returns s) × Checked n input s
  unfolding p_candidate
  p_candidate-Checked p h = elim (Bool-cases (input.verifier c)) [
    | inl e ↦ (early (recovered ParityPath.p c), rw (value, e) refl, (block, e))
    | inr e ↦ (reason (some (csum_mismatch ParityPath.p)), rw (value, e) refl, tt)
  ]
    where
      c : Block
      c = xor_inplace (row_p n input.other_blocks) p

      value : recover_via_p input.corrupt_block input.other_blocks p n ≡ returns c
      value =
          recover_via_p-row n 1 input.corrupt_block p input.other_blocks
            (length-IsBlock n input.corrupt_block v.corrupt) h v.others

      block : IsBlock n c
      block = xor-IsBlock n _ p (row_p-IsBlock n 1 input.other_blocks v.others) h

  pub p_step-Checked :
      (o : Option Block)
      → IsParity n o
      → (s : PathStep) × (p_step input n o ≡ returns s) × Checked n input s
  unfolding p_step
  p_step-Checked none h = (reason (some (parity_absent ParityPath.p)), refl, tt)
  p_step-Checked (some p) h = elim (Bool-cases skip) [
    | inl e ↦ (
      reason (some (parity_baked_in ParityPath.p)),
      rw (length-IsBlock n p h, ==_refl n, e) refl,
      tt,
    )
    | inr e ↦
        let (s, r, c) = p_candidate-Checked p h in (s, rw (length-IsBlock n p h, ==_refl n, e) r, c)
  ]
    where
      skip : Bool
      skip =
          not input.unreadable_source
          && all_zero (xor_inplace (xor_all input.other_blocks input.corrupt_block) p)

  q_result-Checked :
      (c : Block) (seen : Block)
      → IsBlock n c
      → (s : PathStep) × (q_result (
            if block_eq c seen
            then baked_in
            else if input.verifier c
            then q_recovered c
            else q_mismatch)
          ≡ s)
        × Checked n input s
  unfolding q_result
  q_result-Checked c seen h = elim (Bool-cases (block_eq c seen)) [
    | inl e ↦ (reason (some (parity_baked_in ParityPath.q)), rw e refl, tt)
    | inr e ↦ elim (Bool-cases (input.verifier c)) [
      | inl f ↦ (early (recovered ParityPath.q c), rw (e, f) refl, (h, f))
      | inr f ↦ (reason (some (csum_mismatch ParityPath.q)), rw (e, f) refl, tt)
    ]
  ]

  pub q_step-Checked :
      (o : Option Block)
      → IsParity n o
      → (s : PathStep) × (q_step input n o ≡ returns s) × Checked n input s
  unfolding q_step recover_via_q
  q_step-Checked none h = (reason (some (parity_absent ParityPath.q)), refl, tt)
  q_step-Checked (some q) h =
      let (s, r, c) =
        q_result-Checked (q_candidate input.other_blocks q input.failing_slot n)
          (if input.unreadable_source then [] else input.corrupt_block)
          (q_candidate-IsBlock n input.failing_slot q input.other_blocks v.slot_from
            (let b : input.failing_slot < 256 = v.slot_below in omega arith) h v.others) in
      (s, rw (length-IsBlock n q h, ==_refl n) (ap returns r), c)

  module _ (p q : Block) (hp : IsBlock n p) (hq : IsBlock n q) where
    -- One partner: its candidate has the block size.
    pub partner_candidate :
        (j : ℕ)
        → 1 ≤ j
        → j < 256
        → j ≢ input.failing_slot
        → (c : Block) × (solve_two_disk p q input.other_blocks j input.failing_slot n
            ≡ returns (some c))
          × IsBlock n c
    partner_candidate j j1 j2 ne =
        solve_two_disk-total n j input.failing_slot p q input.other_blocks hp hq v.others j1 j2
          v.slot_from v.slot_below ne

    module _ (pr qr : FailureReason) (j : ℕ) (b c : Block) (ps : Stripe) (tried : List ℕ)
        (solves : solve_two_disk p q input.other_blocks j input.failing_slot n
          ≡ returns (some c)) where
      pub try_partners-hit :
          input.verifier c ≡ true
          → try_partners input n p q pr qr ((j, b) ∷ ps) tried
            ≡ returns (recovered (ParityPath.pq j) c)
      unfolding try_partners partner_result accepted
      try_partners-hit ok = rw (solves, accepts) refl
        where
          accepts : accepted input.verifier (some c) ≡ some c
          accepts = rw ok refl

      pub try_partners-miss :
          input.verifier c ≡ false
          → try_partners input n p q pr qr ((j, b) ∷ ps) tried
            ≡ try_partners input n p q pr qr ps (tried ++ j ∷ [])
      unfolding try_partners partner_result accepted
      try_partners-miss bad = rw (solves, rejects) refl
        where
          rejects : accepted input.verifier (some c) ≡ none
          rejects = rw bad refl
