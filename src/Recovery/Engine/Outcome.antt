-- ===== src/Recovery/Engine/Outcome.antt =====
-- What `recover_block` of scrub-rs/src/recovery/engine.rs promises on every well-formed input.
use rotshield.Prelude.{
  ℕ, suc, ◌≤◌, ◌≡◌, refl, ◌∙◌, ==_refl, Bool, true, false, not, ◌&&◌, Bool-cases, inl, inr, List,
  [], ◌∷◌, ◌++◌, Option, none, some, map, arith,
}
use mathlib.Core.List.{append-nil, append_assoc}
use rotshield.Prelude.Panics.{returns}
use rotshield.Recovery.Model.{
  Block, RecoveryInput, ParityPath, FailureReason, RecoveryResult, recovered, not_corrupt, failed,
  all_paths_failed, no_q_path_and_p_failed,
}
use rotshield.Recovery.Engine.{
  PathStep, early, reason, try_partners, last_resort, after_q, after_p, recover_block,
}
use rotshield.Recovery.Engine.Blocks.{IsBlock, length-IsBlock}
use rotshield.Recovery.Engine.Rows.{Stripe, IsStripe}
use rotshield.Recovery.Engine.Steps.{
  FitSlots, IsParity, IsInput, Checked, p_step-Checked, q_step-Checked, partner_candidate,
  try_partners-hit, try_partners-miss,
}

abbrev pub slots : Stripe → List ℕ
slots = map (λ e. e.0)

-- The report of a failure names what was tried, by the parity disks that the array has.
abbrev pub Reports : Option Block → Option Block → List ℕ → FailureReason → Type 0
Reports (some p) (some q) others (all_paths_failed pr qr tried) = tried ≡ others
Reports none (some q) others (all_paths_failed pr qr tried) = tried ≡ []
Reports p none others (no_q_path_and_p_failed pr) = Unit
Reports p q others r = ⊥

-- A recovered block has the block size and passes the verifier; `NotCorrupt` is said only of a
-- readable block that passes it.
abbrev pub Honest : ℕ → RecoveryInput → RecoveryResult → Type 0
Honest n input (recovered via b) = IsBlock n b × (input.verifier b ≡ true)
Honest n input not_corrupt =
    (input.unreadable_source ≡ false) × (input.verifier input.corrupt_block ≡ true)
Honest n input (failed r) = Reports input.p_block input.q_block (slots input.other_blocks) r

module _ (n : ℕ) (input : RecoveryInput) (v : IsInput n input) where
  module _ (p q : Block) (hp : IsBlock n p) (hq : IsBlock n q) (pr qr : FailureReason)
      (P : RecoveryResult → Type 0)
      (good : (j : ℕ) (b : Block)
        → IsBlock n b
        → input.verifier b ≡ true
        → P (recovered (ParityPath.pq j) b)) where
    -- The loop over the partners ends with an accepted block or has tried every one.
    try_partners_rule :
        (lo : ℕ) (ps : Stripe) (tried : List ℕ)
        → 1 ≤ lo
        → IsStripe n lo ps
        → FitSlots input.failing_slot ps
        → P (failed (all_paths_failed pr qr (tried ++ slots ps)))
        → (r : RecoveryResult) × (try_partners input n p q pr qr ps tried ≡ returns r) × P r
    unfolding try_partners
    try_partners_rule lo [] tried l w f bad =
        (failed (all_paths_failed pr qr tried), refl, rw append-nil at bad)
    try_partners_rule lo ((j, b) ∷ ps) tried l w f bad =
        let (c, e, i) = partner_candidate n input v p q hp hq j (omega arith) (f.0.0) (f.0.1) in
        elim (Bool-cases (input.verifier c)) [
          | inl ok ↦ (
            recovered (ParityPath.pq j) c,
            try_partners-hit n input v p q hp hq pr qr j b c ps tried e ok,
            good j c i ok,
          )
          | inr no_match ↦
              let (r, e', h) =
                try_partners_rule (suc j) ps (tried ++ j ∷ []) (omega arith) w.3 f.1
                  (rw append_assoc bad) in
              (r, try_partners-miss n input v p q hp hq pr qr j b c ps tried e no_match ∙ e', h)
        ]

  last_resort-Honest :
      (op oq : Option Block) (pr qr : FailureReason)
      → IsParity n op
      → IsParity n oq
      → op ≡ input.p_block
      → oq ≡ input.q_block
      → (r : RecoveryResult) × (last_resort input n op oq pr qr ≡ returns r) × Honest n input r
  unfolding last_resort
  last_resort-Honest (some p) (some q) pr qr hp hq ep eq =
      try_partners_rule p q hp hq pr qr (Honest n input) (λ j b i ok. (i, ok)) 1 input.other_blocks
        [] (omega arith) v.others v.slots (rw (← ep, ← eq) refl)
  last_resort-Honest none (some q) pr qr hp hq ep eq =
      (failed (all_paths_failed pr qr []), refl, rw (← ep, ← eq) refl)
  last_resort-Honest (some p) none pr qr hp hq ep eq =
      (failed (no_q_path_and_p_failed pr), refl, rw (← ep, ← eq) tt)
  last_resort-Honest none none pr qr hp hq ep eq =
      (failed (no_q_path_and_p_failed pr), refl, rw (← ep, ← eq) tt)

  after_q-Honest :
      (pr : FailureReason) (s : PathStep)
      → Checked n input s
      → (r : RecoveryResult) × (after_q input n (some pr) s ≡ returns r) × Honest n input r
  unfolding after_q
  after_q-Honest pr (early (recovered via b)) c = (recovered via b, refl, c)
  after_q-Honest pr (early not_corrupt) c = absurd c
  after_q-Honest pr (early (failed r)) c = absurd c
  after_q-Honest pr (reason none) c = absurd c
  after_q-Honest pr (reason (some qr)) c =
      last_resort-Honest input.p_block input.q_block _ _ v.p_fits v.q_fits refl refl

  after_p-Honest :
      (s : PathStep)
      → Checked n input s
      → (r : RecoveryResult) × (after_p input n s ≡ returns r) × Honest n input r
  unfolding after_p
  after_p-Honest (early (recovered via b)) c = (recovered via b, refl, c)
  after_p-Honest (early not_corrupt) c = absurd c
  after_p-Honest (early (failed r)) c = absurd c
  after_p-Honest (reason none) c = absurd c
  after_p-Honest (reason (some pr)) c =
      let (s, e, c') = q_step-Checked n input v input.q_block v.q_fits in
      let (r, e', h) = after_q-Honest pr s c' in (r, rw e e', h)

  -- On an input of the documented form (slots from 1 to 255, all blocks of the block size, the
  -- failing slot not among the others) `recover_block` returns. A block that it calls recovered
  -- has the block size and passes the verifier, `NotCorrupt` is said only of a readable block that
  -- passes it, and a failure is reported by the parity disks present: without Q as such, without P
  -- with no partner, and with both after every other disk was tried as the partner, in order.
  pub recover_block-Honest :
      (r : RecoveryResult) × (recover_block input n ≡ returns r) × Honest n input r
  unfolding recover_block
  recover_block-Honest = elim (Bool-cases passes) [
    | inl e ↦ (
      not_corrupt,
      rw (length-IsBlock n input.corrupt_block v.corrupt, ==_refl n, e) refl,
      (readable e, valid e),
    )
    | inr e ↦
        let (s, es, c) = p_step-Checked n input v input.p_block v.p_fits in
        let (r, er, h) = after_p-Honest s c in
        (r, rw (length-IsBlock n input.corrupt_block v.corrupt, ==_refl n, e, es) er, h)
  ]
    where
      passes : Bool
      passes = not input.unreadable_source && input.verifier input.corrupt_block

      readable : passes ≡ true → input.unreadable_source ≡ false
      readable e = ground arith

      valid : passes ≡ true → input.verifier input.corrupt_block ≡ true
      valid e = ground arith
