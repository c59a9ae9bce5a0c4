-- ===== src/Recovery/Engine/TwoDisk.antt =====
-- Two unknown disks: `solve_two_disk` of scrub-rs/src/recovery/engine.rs.
use rotshield.Prelude.{
  ℕ, zero, suc, ◌-◌, ◌^◌, ◌≤◌, ◌<◌, ◌≡◌, ◌≢◌, inl, inr, refl, sym, ap, ap₂, ◌∙◌, ==_ne, ltb, lt_ltb,
  false, Bool-cases, if◌then◌else◌, [], ◌∷◌, some, arith,
}
use native.Mathlib.Decide.{dec_lt}
use rotshield.Prelude.Panics.{returns}
use rotshield.Prelude.Xor.{◌⊕◌, xor-lt}
use rotshield.Recovery.Gf.{gfmul, gfexi, gfinv}
use rotshield.Recovery.Gf.Field.{◌⊗◌, times-lt}
use rotshield.Recovery.Gf.Powers.{power, power-lt}
use rotshield.Recovery.Gf.Tables.{gfmul-times, gfexp-power}
use rotshield.Recovery.Gf.Inverse.{solve_column, solve_coefs}
use rotshield.Recovery.Gf.Coefficients.{slot_exponent, column_difference, not_negative}
use rotshield.Recovery.Model.{Block}
use rotshield.Recovery.Engine.{
  xor_inplace, good_p, good_q, solve_loop, gfexp_at, solve_columns, solve_two_disk,
}
use rotshield.Recovery.Engine.Blocks.{
  IsBlock, zeros, scale, zeros-IsBlock, xor-IsBlock, xor_comm_blocks, xor_assoc_blocks, zeros-xor,
  xor_cancel_blocks,
}
use rotshield.Recovery.Engine.Rows.{
  Stripe, IsStripe, find, find-without_ne, without, without_comm, without_idem, plain, weighted,
  row_p, row_q, find-IsBlock, weighted-IsBlock, without-IsStripe,
}
use rotshield.Recovery.Engine.Loops.{
  row_p-IsBlock, row_q-IsBlock, neither, neither-IsStripe, good_p-row, good_q-row,
}
use rotshield.Recovery.Engine.Single.{row_p-split, row_q-split}

-- The byte loop returns a block on any two blocks.
solve_loop-IsBlock :
    (n pb qm : ℕ) (x y : Block)
    → pb < 256
    → qm < 256
    → IsBlock n x
    → IsBlock n y
    → (z : Block) × (solve_loop n pb qm x y ≡ returns z) × IsBlock n z
unfolding solve_loop
solve_loop-IsBlock zero pb qm x y p q h k = ([], refl, tt)
solve_loop-IsBlock (suc n) pb qm [] y p q h k = absurd h
solve_loop-IsBlock (suc n) pb qm (s ∷ x) [] p q h k = absurd k
solve_loop-IsBlock (suc n) pb qm (s ∷ x) (t ∷ y) p q h k =
    let (z, e, i) = solve_loop-IsBlock n pb qm x y p q h.1 k.1 in
    (
      (gfmul pb s ⊕ gfmul qm t) ∷ z,
      rw e refl,
      (
        rw (gfmul-times pb s p h.0, gfmul-times qm t q k.0)
            (xor-lt 8 (pb ⊗ s) (qm ⊗ t) (times-lt pb s p) (times-lt qm t q)),
        i,
      ),
    )

module _ (a b : ℕ) (below : a < b) (bound : b < 255) where
  abbrev pb : ℕ
  pb = gfexi (b - a)

  abbrev qm : ℕ
  qm = gfinv (power a ⊕ power b)

  -- From the sum of two blocks and their weighted sum it computes the block of the higher column.
  solve_loop-solve :
      (n : ℕ) (x y : Block)
      → IsBlock n x
      → IsBlock n y
      → solve_loop n pb qm (xor_inplace x y) (xor_inplace (scale (power a) x) (scale (power b) y))
        ≡ returns y
  unfolding solve_loop xor_inplace
  solve_loop-solve zero [] [] h k = refl
  solve_loop-solve zero [] (t ∷ y) h k = absurd k
  solve_loop-solve zero (s ∷ x) y h k = absurd h
  solve_loop-solve (suc n) [] y h k = absurd h
  solve_loop-solve (suc n) (s ∷ x) [] h k = absurd k
  solve_loop-solve (suc n) (s ∷ x) (t ∷ y) h k = rw (solve_loop-solve n x y h.1 k.1) (
      ap (λ u. returns (u ∷ y))
        (ap₂ (λ u v. u ⊕ v)
            (gfmul-times pb (s ⊕ t) ((solve_coefs a b below bound).0) (xor-lt 8 s t h.0 k.0))
            (gfmul-times qm _ ((solve_coefs a b below bound).1) (
              xor-lt 8 _ _ (times-lt (power a) s (power-lt a)) (times-lt (power b) t (power-lt b))))
          ∙ solve_column a b below bound s t h.0 k.0))

  module _ (n j k : ℕ) (p q : Block) (others : Stripe) (hp : IsBlock n p) (hq : IsBlock n q)
      (w : IsStripe n 1 others) where
    -- What is left of P and Q when the good disks are taken out.
    abbrev delta_p : Block
    delta_p = xor_inplace p (row_p n (neither j k others))

    abbrev delta_q : Block
    delta_q = xor_inplace q (row_q n (neither j k others))

    abbrev pick : Block → Block
    pick z = if ltb k j then xor_inplace z delta_p else z

    solve_columns_lem :
        (z : Block)
        → solve_loop n pb qm delta_p delta_q ≡ returns z
        → solve_columns a b p q others j k n ≡ returns (some (pick z))
    unfolding solve_columns gfexp_at
    solve_columns_lem z e =
        let good : (good_p j k others (zeros n) ≡ row_p n (neither j k others))
            × (good_q j k others (zeros n) ≡ row_q n (neither j k others)) =
          goods in
        rw
          (
            lt_ltb a 256 (omega arith),
            lt_ltb b 256 (omega arith),
            good.0,
            good.1,
            gfexp-power a (omega arith),
            gfexp-power b bound,
            column_difference a b below bound,
            e,
          )
          refl
      where
        rest : IsStripe n 1 (neither j k others)
        rest = neither-IsStripe n 1 j k others w

        goods :
            (good_p j k others (zeros n) ≡ row_p n (neither j k others))
            × (good_q j k others (zeros n) ≡ row_q n (neither j k others))
        goods = (
          good_p-row n 1 j k others (zeros n) w (zeros-IsBlock n)
              ∙ zeros-xor n _ (row_p-IsBlock n 1 _ rest),
          good_q-row n 1 j k others (zeros n) (omega arith) w (zeros-IsBlock n)
              ∙ zeros-xor n _ (row_q-IsBlock n 1 _ rest),
        )

-- Two slots below 256 open the columns one below each slot, the lower first.
open_columns :
    (p q : Block) (others : Stripe) (j k n : ℕ)
    → 1 ≤ j
    → j < 256
    → 1 ≤ k
    → k < 256
    → j ≢ k
    → solve_two_disk p q others j k n ≡ (
        if ltb k j
        then solve_columns (k - 1) (j - 1) p q others j k n
        else solve_columns (j - 1) (k - 1) p q others j k n)
unfolding solve_two_disk
open_columns p q others j k n j1 j2 k1 k2 ne =
    rw (slot_exponent j j1 (omega arith), slot_exponent k k1 (omega arith))
      (elim (Bool-cases (ltb k j)) [
        | inl e ↦
            rw
              (
                e,
                not_negative (k - 1) (omega arith),
                not_negative (j - 1) (omega arith),
                ==_ne (k - 1) (j - 1) (omega arith),
              )
              refl
        | inr e ↦
            rw
              (
                e,
                not_negative (k - 1) (omega arith),
                not_negative (j - 1) (omega arith),
                ==_ne (j - 1) (k - 1) (omega arith),
              )
              refl
      ])

-- On any two parity blocks the solve returns a candidate of the right length.
pub solve_two_disk-total :
    (n j k : ℕ) (p q : Block) (others : Stripe)
    → IsBlock n p
    → IsBlock n q
    → IsStripe n 1 others
    → 1 ≤ j
    → j < 256
    → 1 ≤ k
    → k < 256
    → j ≢ k
    → (c : Block) × (solve_two_disk p q others j k n ≡ returns (some c)) × IsBlock n c
solve_two_disk-total n j k p q others hp hq w j1 j2 k1 k2 ne = elim (dec_lt k j) [
  | yes lt ↦ finish (k - 1) (j - 1) (omega arith) (omega arith) (rw (lt_ltb k j lt) at opened)
  | no ge ↦
      finish (j - 1) (k - 1) (omega arith) (omega arith)
        (let f : ltb k j ≡ false = ground arith in rw f at opened)
]
  where
    opened : solve_two_disk p q others j k n ≡ (
        if ltb k j
        then solve_columns (k - 1) (j - 1) p q others j k n
        else solve_columns (j - 1) (k - 1) p q others j k n)
    opened = open_columns p q others j k n j1 j2 k1 k2 ne

    rest : IsStripe n 1 (neither j k others)
    rest = neither-IsStripe n 1 j k others w

    dp-IsBlock : IsBlock n (xor_inplace p (row_p n (neither j k others)))
    dp-IsBlock = xor-IsBlock n p _ hp (row_p-IsBlock n 1 _ rest)

    dq-IsBlock : IsBlock n (xor_inplace q (row_q n (neither j k others)))
    dq-IsBlock = xor-IsBlock n q _ hq (row_q-IsBlock n 1 _ rest)

    finish :
        (a b : ℕ)
        → a < b
        → b < 255
        → solve_two_disk p q others j k n ≡ solve_columns a b p q others j k n
        → (c : Block) × (solve_two_disk p q others j k n ≡ returns (some c)) × IsBlock n c
    finish a b below bound e =
        let (z, r, i) =
          solve_loop-IsBlock n (pb a b below bound) (qm a b below bound) _ _
            ((solve_coefs a b below bound).0) ((solve_coefs a b below bound).1) dp-IsBlock
            dq-IsBlock in
        (
          pick a b below bound n j k p q others hp hq w z,
          e ∙ solve_columns_lem a b below bound n j k p q others hp hq w z r,
          ground (arith, xor-IsBlock n z _ i dp-IsBlock, i),
        )

module _ (n j k : ℕ) (stripe others : Stripe) (x y : Block) (w : IsStripe n 1 stripe)
    (w' : IsStripe n 1 others) (failing : find k stripe ≡ some x) (partner : find j stripe ≡ some y)
    (ne : j ≢ k) (agree : without j others ≡ neither j k stripe) (j2 : j < 256) (k2 : k < 256) where
  good : Stripe
  good = neither j k stripe

  good-IsStripe : IsStripe n 1 good
  unfolding good
  good-IsStripe = neither-IsStripe n 1 j k stripe w

  x-IsBlock : IsBlock n x × (1 ≤ k) × (k < 2 ^ 31)
  x-IsBlock = find-IsBlock n 1 k stripe x w failing

  y-IsBlock : IsBlock n y × (1 ≤ j) × (j < 2 ^ 31)
  y-IsBlock = find-IsBlock n 1 j stripe y w partner

  left : find j (without k stripe) ≡ some y
  left = find-without_ne j k stripe ne ∙ partner

  left-IsStripe : IsStripe n 1 (without k stripe)
  left-IsStripe = without-IsStripe n 1 k stripe w

  present : neither j k others ≡ good
  unfolding good
  present =
      without_comm j k others
      ∙ ap (without k) agree
      ∙ without_comm k j (without k stripe)
      ∙ ap (without j) (without_idem k stripe)

  module _ (f : ℕ → Block → Block) (hx : IsBlock n (f k x)) (hy : IsBlock n (f j y)) where
    -- Taking the good disks out of a row leaves the shares of the two.
    isolate :
        (total r : Block) (rest : Block)
        → IsBlock n rest
        → total ≡ xor_inplace (f k x) r
        → r ≡ xor_inplace (f j y) rest
        → xor_inplace total rest ≡ xor_inplace (f k x) (f j y)
    isolate total r rest h e e' =
        rw (e, e')
          (ap (λ (t : Block). xor_inplace t rest)
              (sym (xor_assoc_blocks n (f k x) (f j y) rest hx hy h))
            ∙ xor_cancel_blocks n (xor_inplace (f k x) (f j y)) rest
                (xor-IsBlock n (f k x) (f j y) hx hy) h)

  delta_p-two : xor_inplace (row_p n stripe) (row_p n (neither j k others)) ≡ xor_inplace x y
  unfolding good
  delta_p-two =
      ap (λ (t : Stripe). xor_inplace (row_p n stripe) (row_p n t)) present
      ∙ isolate plain (x-IsBlock.0) (y-IsBlock.0) (row_p n stripe) (row_p n (without k stripe))
          (row_p n good) (row_p-IsBlock n 1 good good-IsStripe) (row_p-split n k stripe x w failing)
          (row_p-split n j (without k stripe) y left-IsStripe left)

  delta_q-two :
      xor_inplace (row_q n stripe) (row_q n (neither j k others))
      ≡ xor_inplace (weighted k x) (weighted j y)
  unfolding good
  delta_q-two =
      ap (λ (t : Stripe). xor_inplace (row_q n stripe) (row_q n t)) present
      ∙ isolate weighted (weighted-IsBlock n k x (x-IsBlock.0))
          (weighted-IsBlock n j y (y-IsBlock.0)) (row_q n stripe) (row_q n (without k stripe))
          (row_q n good) (row_q-IsBlock n 1 good good-IsStripe) (row_q-split n k stripe x w failing)
          (row_q-split n j (without k stripe) y left-IsStripe left)

  solved :
      (a b : ℕ) (below : a < b) (bound : b < 255) (low high : Block)
      → IsBlock n low
      → IsBlock n high
      → xor_inplace (row_p n stripe) (row_p n (neither j k others)) ≡ xor_inplace low high
      → xor_inplace (row_q n stripe) (row_q n (neither j k others))
        ≡ xor_inplace (scale (power a) low) (scale (power b) high)
      → solve_columns a b (row_p n stripe) (row_q n stripe) others j k n
        ≡ returns (some (if ltb k j then xor_inplace high (xor_inplace low high) else high))
  solved a b below bound low high hl hh ep eq =
      solve_columns_lem a b below bound n j k (row_p n stripe) (row_q n stripe) others
        (row_p-IsBlock n 1 stripe w) (row_q-IsBlock n 1 stripe w) w' high
        (ap₂ (solve_loop n (pb a b below bound) (qm a b below bound)) ep eq
          ∙ solve_loop-solve a b below bound n low high hl hh)
      ∙ ap (λ t. returns (some (if ltb k j then xor_inplace high t else high))) ep

  -- With P and Q of the original stripe, blocks of n bytes at slots from 1 on, and every disk but
  -- the failing one and one partner intact, those two at different slots below 256, the solve
  -- against that partner gives back the failing disk's block, without a panic.
  pub solve_two_disk_lem :
      solve_two_disk (row_p n stripe) (row_q n stripe) others j k n ≡ returns (some x)
  solve_two_disk_lem =
      open_columns (row_p n stripe) (row_q n stripe) others j k n (y-IsBlock.1) j2 (x-IsBlock.1) k2
        ne
      ∙ elim (dec_lt k j) [
        | yes lt ↦ rw (lt_ltb k j lt) (
            rw (lt_ltb k j lt) at (
              solved (k - 1) (j - 1) (omega (arith, x-IsBlock)) (omega arith) x y (x-IsBlock.0)
                (y-IsBlock.0) delta_p-two delta_q-two)
            ∙ ap (λ t. returns (some t))
                (ap (xor_inplace y) (xor_comm_blocks n x y (x-IsBlock.0) (y-IsBlock.0))
                  ∙ xor_comm_blocks n y _ (y-IsBlock.0)
                      (xor-IsBlock n y x (y-IsBlock.0) (x-IsBlock.0))
                  ∙ ap (λ (t : Block). xor_inplace t y)
                      (xor_comm_blocks n y x (y-IsBlock.0) (x-IsBlock.0))
                  ∙ xor_cancel_blocks n x y (x-IsBlock.0) (y-IsBlock.0)))
        | no ge ↦
            let f : ltb k j ≡ false = ground arith in
            rw f (
              rw f at (
                solved (j - 1) (k - 1) (omega (arith, y-IsBlock)) (omega arith) y x (y-IsBlock.0)
                  (x-IsBlock.0) (delta_p-two ∙ xor_comm_blocks n x y (x-IsBlock.0) (y-IsBlock.0))
                  (delta_q-two
                    ∙ xor_comm_blocks n _ _ (weighted-IsBlock n k x (x-IsBlock.0))
                        (weighted-IsBlock n j y (y-IsBlock.0)))))
      ]
