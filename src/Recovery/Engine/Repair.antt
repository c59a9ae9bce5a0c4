-- ===== src/Recovery/Engine/Repair.antt =====
-- `recover_block` of scrub-rs/src/recovery/engine.rs on a stripe with one bad block and an intact
-- parity.
use rotshield.Prelude.{
  ℕ, zero, suc, ◌<◌, ◌≡◌, ◌≢◌, ◌⊎◌, refl, sym, ap, ◌∙◌, ==_refl, Bool, true, false, not, ◌&&◌, inl,
  inr, if◌then◌else◌, [], ◌∷◌, none, some, arith,
}
use rotshield.Prelude.Panics.{returns, ◌>>=◌}
use rotshield.Recovery.Model.{
  Block, RecoveryInput, ParityPath, FailureReason, recovered, parity_absent, parity_baked_in,
}
use rotshield.Recovery.Engine.{
  xor_inplace, all_zero, block_eq, xor_all, q_candidate, recover_via_p, p_candidate, p_step,
  recover_via_q, q_result, q_step, early, reason, last_resort, after_q, after_p, recover_block,
  reason_or,
}
use rotshield.Recovery.Engine.Blocks.{
  IsBlock, length-IsBlock, xor-IsBlock, xor-zeros_eq, xor_cancel_blocks, xor_self_block,
  all_zero_sound, all_zero-zeros, block_eq_sound,
}
use rotshield.Recovery.Engine.Rows.{
  Stripe, IsStripe, find, without, row_p, row_q, find-IsBlock, without-IsStripe,
}
use rotshield.Recovery.Engine.Loops.{row_p-IsBlock, row_q-IsBlock, xor_all-row}
use rotshield.Recovery.Engine.Single.{recover_via_p_lem, q_candidate_lem, row_p-split}
use rotshield.Recovery.Engine.Steps.{IsInput}

-- The block on disk is bad: it was not read, or it does not verify.
abbrev pub IsBad : RecoveryInput → Type 0
IsBad input = (input.unreadable_source ≡ true) ⊎ (input.verifier input.corrupt_block ≡ false)

module _ (n : ℕ) (input : RecoveryInput) (v : IsInput n input) (bad : IsBad input) where
  bad_source : (not input.unreadable_source && input.verifier input.corrupt_block) ≡ false
  bad_source = ground arith

  pub enter : recover_block input n ≡ (p_step input n input.p_block >>= after_p input n)
  unfolding recover_block
  enter = rw (length-IsBlock n input.corrupt_block v.corrupt, ==_refl n, bad_source) refl

  -- What follows when the P path leaves a reason.
  pub enter_q :
      (pr : FailureReason)
      → p_step input n input.p_block ≡ returns (reason (some pr))
      → recover_block input n ≡ (q_step input n input.q_block >>= after_q input n (some pr))
  unfolding after_p
  enter_q pr e = enter ∙ ap (λ m. m >>= after_p input n) e

  pub enter_last :
      (pr qr : FailureReason)
      → p_step input n input.p_block ≡ returns (reason (some pr))
      → q_step input n input.q_block ≡ returns (reason (some qr))
      → recover_block input n ≡ last_resort input n input.p_block input.q_block pr qr
  unfolding after_q reason_or
  enter_last pr qr e e' = enter_q pr e ∙ ap (λ m. m >>= after_q input n (some pr)) e'

  differs :
      (d : Block)
      → input.verifier d ≡ true
      → input.unreadable_source ≡ false
      → input.corrupt_block ≢ d
  differs d ok readable e = clash bad
    where
      clash : IsBad input → ⊥
      clash (inl u) = cc
      clash (inr f) = cc (ap input.verifier e)

  module _ (stripe : Stripe) (d : Block) (w : IsStripe n 1 stripe)
      (here : find input.failing_slot stripe ≡ some d)
      (others : input.other_blocks ≡ without input.failing_slot stripe)
      (valid : input.verifier d ≡ true) where
    abbrev left : Stripe
    left = without input.failing_slot stripe

    d-IsBlock : IsBlock n d
    d-IsBlock = (find-IsBlock n 1 input.failing_slot stripe d w here).0

    left-IsStripe : IsStripe n 1 left
    left-IsStripe = without-IsStripe n 1 input.failing_slot stripe w

    zero_acc : Block
    zero_acc = xor_inplace (xor_all input.other_blocks input.corrupt_block) (row_p n stripe)

    -- The baked-in test passes on an intact P only when the block on disk is the original.
    not_baked : (not input.unreadable_source && all_zero zero_acc) ≡ false
    unfolding zero_acc
    not_baked = decide input.unreadable_source (all_zero zero_acc) refl refl
      where
        added :
            xor_all input.other_blocks input.corrupt_block
            ≡ xor_inplace input.corrupt_block (row_p n left)
        added =
            ap (λ (o : Stripe). xor_all o input.corrupt_block) others
            ∙ xor_all-row n 1 left input.corrupt_block left-IsStripe v.corrupt

        same : all_zero zero_acc ≡ true → input.corrupt_block ≡ d
        same e =
            sym (
              xor_cancel_blocks n input.corrupt_block (row_p n left) v.corrupt
                (row_p-IsBlock n 1 left left-IsStripe))
            ∙ ap (λ (t : Block). xor_inplace t (row_p n left))
                (sym added
                  ∙ xor-zeros_eq n (xor_all input.other_blocks input.corrupt_block) (row_p n stripe)
                      sum-IsBlock (row_p-IsBlock n 1 stripe w)
                      (all_zero_sound n _
                        (xor-IsBlock n _ _ sum-IsBlock (row_p-IsBlock n 1 stripe w)) e)
                  ∙ row_p-split n input.failing_slot stripe d w here)
            ∙ xor_cancel_blocks n d (row_p n left) d-IsBlock (row_p-IsBlock n 1 left left-IsStripe)
          where
            sum-IsBlock : IsBlock n (xor_all input.other_blocks input.corrupt_block)
            sum-IsBlock = rw added (
                xor-IsBlock n input.corrupt_block (row_p n left) v.corrupt
                  (row_p-IsBlock n 1 left left-IsStripe))

        decide :
            (u z : Bool)
            → input.unreadable_source ≡ u
            → all_zero zero_acc ≡ z
            → (not u && z) ≡ false
        decide true z eu ez = refl
        decide false false eu ez = refl
        decide false true eu ez = absurd (differs d valid eu (same ez))

    p_intact_step :
        p_step input n (some (row_p n stripe)) ≡ returns (early (recovered ParityPath.p d))
    unfolding p_step p_candidate zero_acc
    p_intact_step =
        rw (length-IsBlock n _ (row_p-IsBlock n 1 stripe w), ==_refl n, not_baked, candidate, valid)
          refl
      where
        candidate :
            recover_via_p input.corrupt_block input.other_blocks (row_p n stripe) n ≡ returns d
        candidate =
            ap (λ (o : Stripe). recover_via_p input.corrupt_block o (row_p n stripe) n) others
            ∙ recover_via_p_lem n input.failing_slot stripe d w here input.corrupt_block
                (length-IsBlock n input.corrupt_block v.corrupt)

    -- On an input of the documented form whose source is unreadable or fails the verifier: if P is
    -- the exclusive or of the original stripe, the other disks hold the original blocks and the
    -- verifier accepts the original block, then it is rebuilt through P, exactly.
    pub recover_block_p :
        input.p_block ≡ some (row_p n stripe)
        → recover_block input n ≡ returns (recovered ParityPath.p d)
    unfolding after_p
    recover_block_p intact =
        enter
        ∙ ap (λ o. p_step input n o >>= after_p input n) intact
        ∙ ap (λ m. m >>= after_p input n) p_intact_step

    seen : Block
    seen = if input.unreadable_source then [] else input.corrupt_block

    unseen : 0 < n → block_eq d seen ≡ false
    unfolding seen
    unseen pos = decide input.unreadable_source (block_eq d seen) refl refl
      where
        nonempty : (n : ℕ) (d : Block) → 0 < n → IsBlock n d → d ≢ []
        nonempty zero d h i e = absurd (omega arith)
        nonempty (suc n) [] h i e = i
        nonempty (suc n) (x ∷ d) h i e = cc

        decide : (u z : Bool) → input.unreadable_source ≡ u → block_eq d seen ≡ z → z ≡ false
        decide u false eu ez = refl
        decide true true eu ez =
            absurd (nonempty n d pos d-IsBlock (block_eq_sound d [] (rw eu at ez)))
        decide false true eu ez =
            absurd (differs d valid eu (sym (block_eq_sound d input.corrupt_block (rw eu at ez))))

    q_intact_step :
        0 < n → q_step input n (some (row_q n stripe)) ≡ returns (early (recovered ParityPath.q d))
    unfolding q_step recover_via_q q_result seen
    q_intact_step pos =
        rw
          (length-IsBlock n _ (row_q-IsBlock n 1 stripe w), ==_refl n, candidate, unseen pos, valid)
          refl
      where
        candidate : q_candidate input.other_blocks (row_q n stripe) input.failing_slot n ≡ d
        candidate =
            ap (λ (o : Stripe). q_candidate o (row_q n stripe) input.failing_slot n) others
            ∙ q_candidate_lem n input.failing_slot stripe d w here

    -- P is of no use: the array has none, or it was recomputed from the corrupt bytes.
    abbrev pub IsUseless : Type 0
    IsUseless =
        (input.p_block ≡ none)
        ⊎ ((input.unreadable_source ≡ false)
            × (input.p_block ≡ some (xor_inplace input.corrupt_block (row_p n input.other_blocks))))

    useless_step :
        IsUseless
        → (pr : FailureReason) × (p_step input n input.p_block ≡ returns (reason (some pr)))
    unfolding p_step
    useless_step (inl e) = (parity_absent ParityPath.p, ap (p_step input n) e)
    useless_step (inr (readable, e)) = (
      parity_baked_in ParityPath.p,
      ap (p_step input n) e ∙ rw (length-IsBlock n _ block, ==_refl n, readable, zeroed) refl,
    )
      where
        block : IsBlock n (xor_inplace input.corrupt_block (row_p n input.other_blocks))
        block = xor-IsBlock n _ _ v.corrupt (row_p-IsBlock n 1 input.other_blocks v.others)

        zeroed :
            all_zero (
              xor_inplace
                (xor_all input.other_blocks input.corrupt_block)
                (xor_inplace input.corrupt_block (row_p n input.other_blocks)))
            ≡ true
        zeroed =
            ap all_zero (
              ap
                (λ (t : Block).
                  xor_inplace t (xor_inplace input.corrupt_block (row_p n input.other_blocks)))
                (xor_all-row n 1 input.other_blocks input.corrupt_block v.others v.corrupt)
              ∙ xor_self_block n _ block)
            ∙ all_zero-zeros n

    -- On an input of the documented form whose source is unreadable or fails the verifier, with
    -- blocks of at least one byte: if the array has no P, or the source is readable and P was
    -- recomputed from its corrupt bytes, and Q is that of the original stripe, the other disks hold
    -- the original blocks and the verifier accepts the original block, then it is rebuilt through Q,
    -- exactly.
    pub recover_block_q :
        0 < n
        → IsUseless
        → input.q_block ≡ some (row_q n stripe)
        → recover_block input n ≡ returns (recovered ParityPath.q d)
    unfolding after_q
    recover_block_q pos useless intact =
        let (pr, e) = useless_step useless in
        enter_q pr e
        ∙ ap (λ o. q_step input n o >>= after_q input n (some pr)) intact
        ∙ ap (λ m. m >>= after_q input n (some pr)) (q_intact_step pos)
