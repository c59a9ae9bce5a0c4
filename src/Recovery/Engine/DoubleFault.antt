-- ===== src/Recovery/Engine/DoubleFault.antt =====
-- `recover_block` of scrub-rs/src/recovery/engine.rs with a second bad disk.
use rotshield.Prelude.{
  ℕ, suc, ◌≤◌, ◌<◌, ◌≡◌, ◌≢◌, sym, ap, ap₂, ◌∙◌, ◌==◌, true, false, Bool-cases, inl, inr, List, [],
  ◌∷◌, ◌++◌, none, some, arith,
}
use native.Mathlib.Decide.{ℕ_discrete}
use rotshield.Prelude.Panics.{returns, ◌>>=◌}
use rotshield.Recovery.Model.{
  Block, RecoveryInput, ParityPath, FailureReason, recovered, not_corrupt, failed,
}
use rotshield.Recovery.Engine.{
  PathStep, early, reason, solve_two_disk, try_partners, last_resort, after_q, after_p,
  recover_block, reason_or,
}
use rotshield.Recovery.Engine.Blocks.{IsBlock}
use rotshield.Recovery.Engine.Rows.{Stripe, IsStripe, find, without, row_p, row_q}
use rotshield.Recovery.Engine.Loops.{row_p-IsBlock, row_q-IsBlock, neither}
use rotshield.Recovery.Engine.TwoDisk.{solve_two_disk_lem}
use rotshield.Recovery.Engine.Steps.{
  FitSlots, IsInput, Checked, p_step-Checked, q_step-Checked, partner_candidate, try_partners-hit,
  try_partners-miss,
}
use rotshield.Recovery.Engine.Repair.{IsBad, enter}

-- No other block of n bytes passes the verifier, as for a checksum without a collision.
abbrev pub IsExact : ℕ → RecoveryInput → Block → Type 0
IsExact n input d = (b : Block) → IsBlock n b → input.verifier b ≡ true → b ≡ d

abbrev pub Rebuilds : RecoveryInput → ℕ → Block → Type 0
Rebuilds input n d = (via : ParityPath) × (recover_block input n ≡ returns (recovered via d))

module _ (n : ℕ) (input : RecoveryInput) (v : IsInput n input) (d : Block)
    (valid : input.verifier d ≡ true) (exact : IsExact n input d) where
  module _ (p q : Block) (hp : IsBlock n p) (hq : IsBlock n q) (j : ℕ)
      (solves : solve_two_disk p q input.other_blocks j input.failing_slot n ≡ returns (some d))
      (pr qr : FailureReason) where
    -- The loop over the partners ends at slot j at the latest, and always with the original block.
    partners_rebuild :
        (lo : ℕ) (ps : Stripe) (tried : List ℕ) (z : Block)
        → 1 ≤ lo
        → IsStripe n lo ps
        → FitSlots input.failing_slot ps
        → find j ps ≡ some z
        → (via : ParityPath) × (try_partners input n p q pr qr ps tried ≡ returns (recovered via d))
    unfolding find
    partners_rebuild lo [] tried z l w f e = absurd (cc)
    partners_rebuild lo ((s, b) ∷ ps) tried z l w f e =
        let (c, es, i) = partner_candidate n input v p q hp hq s (omega arith) (f.0.0) (f.0.1) in
        elim (Bool-cases (input.verifier c)) [
          | inl ok ↦ (
            ParityPath.pq s,
            try_partners-hit n input v p q hp hq pr qr s b c ps tried es ok
                ∙ ap (λ t. returns (recovered (ParityPath.pq s) t)) (exact c i ok),
          )
          | inr no_match ↦
              let (via, r) =
                partners_rebuild (suc s) ps (tried ++ s ∷ []) z (omega arith) w.3 f.1
                  (later c es no_match (ℕ_discrete s j)) in
              (via, try_partners-miss n input v p q hp hq pr qr s b c ps tried es no_match ∙ r)
        ]
      where
        later :
            (c : Block)
            → solve_two_disk p q input.other_blocks s input.failing_slot n ≡ returns (some c)
            → input.verifier c ≡ false
            → Dec (s ≡ j)
            → find j ps ≡ some z
        later c es no_match (yes same) = absurd (clash (sym es ∙ moved))
          where
            moved : solve_two_disk p q input.other_blocks s input.failing_slot n ≡ returns (some d)
            moved = rw same solves

            clash : returns (some c) ≡ returns (some d) → ⊥
            clash h = let same_block : c ≡ d = cc in cc (ap input.verifier same_block)
        later c es no_match (no other) = let miss : (s == j) ≡ false = ground arith in rw miss at e

  module _ (bad : IsBad input) (j : ℕ) (stripe : Stripe) (y z : Block) (w : IsStripe n 1 stripe)
      (failing : find input.failing_slot stripe ≡ some d) (partner : find j stripe ≡ some y)
      (ne : j ≢ input.failing_slot) (small : j < 256) (listed : find j input.other_blocks ≡ some z)
      (agree : without j input.other_blocks ≡ neither j input.failing_slot stripe)
      (p_intact : input.p_block ≡ some (row_p n stripe))
      (q_intact : input.q_block ≡ some (row_q n stripe)) where
    last_rebuilds :
        (pr qr : FailureReason)
        → (via : ParityPath) × (last_resort input n input.p_block input.q_block pr qr
            ≡ returns (recovered via d))
    unfolding last_resort
    last_rebuilds pr qr =
        let (via, e) =
          partners_rebuild (row_p n stripe) (row_q n stripe) (row_p-IsBlock n 1 stripe w)
            (row_q-IsBlock n 1 stripe w) j
            (solve_two_disk_lem n j input.failing_slot stripe input.other_blocks d y w v.others
              failing partner ne agree small v.slot_below)
            pr qr 1 input.other_blocks [] z (omega arith) v.others v.slots listed in
        (via, ap₂ (λ op oq. last_resort input n op oq pr qr) p_intact q_intact ∙ e)

    after_q_rebuilds :
        (pr : FailureReason) (s : PathStep)
        → Checked n input s
        → (via : ParityPath) × (after_q input n (some pr) s ≡ returns (recovered via d))
    unfolding after_q reason_or
    after_q_rebuilds pr (early (recovered via b)) c =
        (via, ap (λ t. returns (recovered via t)) (exact b c.0 c.1))
    after_q_rebuilds pr (early not_corrupt) c = absurd c
    after_q_rebuilds pr (early (failed r)) c = absurd c
    after_q_rebuilds pr (reason none) c = absurd c
    after_q_rebuilds pr (reason (some qr)) c = last_rebuilds pr qr

    after_p_rebuilds :
        (s : PathStep)
        → Checked n input s
        → (via : ParityPath) × (after_p input n s ≡ returns (recovered via d))
    unfolding after_p
    after_p_rebuilds (early (recovered via b)) c =
        (via, ap (λ t. returns (recovered via t)) (exact b c.0 c.1))
    after_p_rebuilds (early not_corrupt) c = absurd c
    after_p_rebuilds (early (failed r)) c = absurd c
    after_p_rebuilds (reason none) c = absurd c
    after_p_rebuilds (reason (some pr)) c =
        let (s, e, c') = q_step-Checked n input v input.q_block v.q_fits in
        let (via, r) = after_q_rebuilds pr s c' in
        (via, ap (λ m. m >>= after_q input n (some pr)) e ∙ r)

    -- On an input of the documented form (slots from 1 to 255), with P and Q of the original stripe,
    -- a source that is unreadable or fails the verifier, one more disk j that may hold any bytes, the
    -- other disks intact, and a verifier that among the blocks of n bytes accepts the original one
    -- only, `recover_block` returns the original block as recovered, by one of its paths.
    pub recover_block_two : Rebuilds input n d
    recover_block_two =
        let (s, e, c) = p_step-Checked n input v input.p_block v.p_fits in
        let (via, r) = after_p_rebuilds s c in
        (via, enter n input v bad ∙ ap (λ m. m >>= after_p input n) e ∙ r)
