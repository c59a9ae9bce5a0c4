-- ===== src/Recovery/Engine/Single.antt =====
-- One unknown disk: the P-only and the Q-only reconstruction of scrub-rs/src/recovery/engine.rs.
use rotshield.Prelude.{ℕ, ◌-◌, ◌^◌, ◌≤◌, ◌<◌, ◌≡◌, refl, ap, ◌∙◌, ==_refl, some, length, arith}
use rotshield.Prelude.Panics.{returns}
use rotshield.Recovery.Gf.{gf_exp, as_i32, sub_i32, neg_i32}
use rotshield.Recovery.Gf.Field.{◌⊗◌}
use rotshield.Recovery.Gf.Powers.{power, power-lt}
use rotshield.Recovery.Gf.Coefficients.{slot_exponent, gf_exp-neg, gf_exp-neg-lt}
use rotshield.Recovery.Model.{Block}
use rotshield.Recovery.Engine.{xor_inplace, recover_via_p, q_candidate}
use rotshield.Recovery.Engine.Blocks.{
  IsBlock, zeros, scale, length-IsBlock, zeros-IsBlock, xor-IsBlock, scale-IsBlock,
  xor_left_comm_blocks, xor_self_block, xor-zeros, zeros-xor, xor_cancel_blocks, scale-scale,
  one-scale, gf_mul_into-scale,
}
use rotshield.Recovery.Engine.Rows.{
  Stripe, IsStripe, find, without, plain, weighted, row_p, row_q, row_split, find-IsBlock,
  plain-IsBlock, weighted-IsBlock, without-IsStripe,
}
use rotshield.Recovery.Engine.Loops.{
  row_p-IsBlock, row_q-IsBlock, xor_all-row, xor_others-xor_all, mul_xor_others-row,
}

-- What the P path computes, whatever P holds.
pub recover_via_p-row :
    (n lo : ℕ) (corrupt p : Block) (others : Stripe)
    → length corrupt ≡ n
    → IsBlock n p
    → IsStripe n lo others
    → recover_via_p corrupt others p n ≡ returns (xor_inplace (row_p n others) p)
unfolding recover_via_p
recover_via_p-row n lo corrupt p others c h w =
    rw
      (
        c,
        length-IsBlock n p h,
        ==_refl n,
        xor_others-xor_all n lo others (zeros n) w,
        xor_all-row n lo others (zeros n) w (zeros-IsBlock n),
        zeros-xor n (row_p n others) (row_p-IsBlock n lo others w),
      )
      refl

pub inverse_coef : ℕ → ℕ
inverse_coef k = gf_exp (neg_i32 (sub_i32 (as_i32 k) 1))

inverse_coef_lem :
    (k : ℕ) → 1 ≤ k → k < 2 ^ 31 → (inverse_coef k ⊗ power (k - 1) ≡ 1) × (inverse_coef k < 256)
unfolding inverse_coef
inverse_coef_lem k p q =
    rw (slot_exponent k p q) (gf_exp-neg (k - 1) (omega arith), gf_exp-neg-lt (k - 1) (omega arith))

-- What the Q path computes, whatever Q holds.
pub q_candidate-row :
    (n : ℕ) (k : ℕ) (q : Block) (others : Stripe)
    → 1 ≤ k
    → k < 2 ^ 31
    → IsBlock n q
    → IsStripe n 1 others
    → q_candidate others q k n ≡ scale (inverse_coef k) (xor_inplace q (row_q n others))
unfolding q_candidate inverse_coef
q_candidate-row n k q others p lt h w = rw (mul_xor_others-row n 1 others q (omega arith) w h) (
    gf_mul_into-scale n _ (xor_inplace q (row_q n others)) ((inverse_coef_lem k p lt).1)
      (xor-IsBlock n q (row_q n others) h (row_q-IsBlock n 1 others w)))

pub q_candidate-IsBlock :
    (n : ℕ) (k : ℕ) (q : Block) (others : Stripe)
    → 1 ≤ k
    → k < 2 ^ 31
    → IsBlock n q
    → IsStripe n 1 others
    → IsBlock n (q_candidate others q k n)
q_candidate-IsBlock n k q others p lt h w = rw (q_candidate-row n k q others p lt h w) (
    scale-IsBlock n _ _ ((inverse_coef_lem k p lt).1)
      (xor-IsBlock n q (row_q n others) h (row_q-IsBlock n 1 others w)))

module _ (n k : ℕ) (stripe : Stripe) (d : Block) (w : IsStripe n 1 stripe)
    (here : find k stripe ≡ some d) where
  rest : Stripe
  rest = without k stripe

  rest-IsStripe : IsStripe n 1 rest
  unfolding rest
  rest-IsStripe = without-IsStripe n 1 k stripe w

  d-IsBlock : IsBlock n d × (1 ≤ k) × (k < 2 ^ 31)
  d-IsBlock = find-IsBlock n 1 k stripe d w here

  pub row_p-split : row_p n stripe ≡ xor_inplace d (row_p n (without k stripe))
  row_p-split = row_split n plain (plain-IsBlock n) 1 k stripe d w here

  pub row_q-split : row_q n stripe ≡ xor_inplace (weighted k d) (row_q n (without k stripe))
  row_q-split = row_split n weighted (weighted-IsBlock n) 1 k stripe d w here

  -- In a stripe of blocks of n bytes at ascending slots from 1 on, below 2^31, where slot k holds
  -- d: from the blocks of the other slots and P, the exclusive or of all of them, the P-only
  -- reconstruction returns d without a panic, whatever n bytes it is given as the corrupt block.
  pub recover_via_p_lem :
      (corrupt : Block)
      → length corrupt ≡ n
      → recover_via_p corrupt (without k stripe) (row_p n stripe) n ≡ returns d
  unfolding rest
  recover_via_p_lem corrupt c =
      recover_via_p-row n 1 corrupt (row_p n stripe) (without k stripe) c
        (row_p-IsBlock n 1 stripe w) rest-IsStripe
      ∙ ap returns (
          ap (xor_inplace (row_p n (without k stripe))) row_p-split
          ∙ xor_left_comm_blocks n _ d _ (row_p-IsBlock n 1 _ rest-IsStripe) (d-IsBlock.0)
              (row_p-IsBlock n 1 _ rest-IsStripe)
          ∙ ap (xor_inplace d) (xor_self_block n _ (row_p-IsBlock n 1 _ rest-IsStripe))
          ∙ xor-zeros n d (d-IsBlock.0))

  -- In a stripe of blocks of n bytes at ascending slots from 1 on, below 2^31, where slot k holds
  -- d: from the blocks of the other slots and Q, the sum in which the block of slot s has the
  -- coefficient g^(s-1), the candidate of the Q-only reconstruction is d.
  pub q_candidate_lem : q_candidate (without k stripe) (row_q n stripe) k n ≡ d
  unfolding rest
  q_candidate_lem =
      q_candidate-row n k (row_q n stripe) (without k stripe) (d-IsBlock.1) (d-IsBlock.2)
        (row_q-IsBlock n 1 stripe w) rest-IsStripe
      ∙ ap (λ (t : Block). scale (inverse_coef k) (xor_inplace t (row_q n (without k stripe))))
          row_q-split
      ∙ ap (scale (inverse_coef k)) (
          xor_cancel_blocks n (weighted k d) _ (weighted-IsBlock n k d (d-IsBlock.0))
            (row_q-IsBlock n 1 _ rest-IsStripe))
      ∙ scale-scale n (inverse_coef k) (power (k - 1)) d
          ((inverse_coef_lem k (d-IsBlock.1) (d-IsBlock.2)).1) (power-lt (k - 1)) (d-IsBlock.0)
      ∙ ap (λ (t : ℕ). scale t d) ((inverse_coef_lem k (d-IsBlock.1) (d-IsBlock.2)).0)
      ∙ one-scale n d (d-IsBlock.0)
