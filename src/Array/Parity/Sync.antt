-- ===== src/Array/Parity/Sync.antt =====
-- The rows of scrub-rs/src/array/parity.rs and those of the recovery engine.
use rotshield.Prelude.{
  ℕ, ◌≡◌, ◌≢◌, refl, ap, ◌∙◌, ◌==◌, Bool-cases, inl, inr, if◌then◌else◌, List, [], ◌∷◌, arith,
}
use rotshield.Prelude.Io.{ok}
use rotshield.Recovery.Model.{Block}
use rotshield.Recovery.Engine.{xor_inplace, gf_mul_xor_inplace, xor_all, mul_xor_others, slot_coef}
use rotshield.Recovery.Engine.Blocks.{IsBlock, zeros, zeros-IsBlock, zeros-xor}
use rotshield.Recovery.Engine.Rows.{Stripe, IsStripe, row_p, row_q}
use rotshield.Recovery.Engine.Loops.{row_p-IsBlock, row_q-IsBlock, xor_all-row, mul_xor_others-row}
use rotshield.Array.Config.{FilePath, ArrayConfig}
use rotshield.Array.Stripe.{Devices}
use rotshield.Array.Stripe.Gather.{Reads, Holds, HoldsBut}
use rotshield.Array.Parity.{
  p_loop, compute_p, q_loop, compute_q, block_or_override, p_override_loop, compute_p_with_override,
  q_override_loop, compute_q_with_override,
}

-- The stripe with another block at one slot.
unfoldable pub replaced : ℕ → Block → Stripe → Stripe
replaced k c [] = []
replaced k c ((s, b) ∷ r) = (s, (if s == k then c else b)) ∷ replaced k c r

replaced-IsStripe :
    (n lo k : ℕ) (c : Block) (r : Stripe)
    → IsBlock n c
    → IsStripe n lo r
    → IsStripe n lo (replaced k c r)
unfolding replaced
replaced-IsStripe n lo k c [] h w = tt
replaced-IsStripe n lo k c ((s, b) ∷ r) h w =
    (w.0, w.1, ground (arith, h, w.2), replaced-IsStripe n _ k c r h w.3)

module _ (devices : Devices) (config : ArrayConfig) (array_phys n : ℕ) where
  p_loop-xor_all :
      (disks : List (ℕ × FilePath)) (stripe : Stripe) (acc : Block)
      → Holds devices config array_phys n disks stripe
      → p_loop devices config array_phys n disks acc ≡ ok (xor_all stripe acc)
  unfolding p_loop xor_all
  p_loop-xor_all [] [] acc h = refl
  p_loop-xor_all [] (e ∷ stripe) acc h = absurd h
  p_loop-xor_all (disk ∷ disks) [] acc h = absurd h
  p_loop-xor_all ((s, path) ∷ disks) ((t, b) ∷ stripe) acc h =
      rw (h.1) (p_loop-xor_all disks stripe (xor_inplace acc b) h.2)

  q_loop-mul_xor_others :
      (disks : List (ℕ × FilePath)) (stripe : Stripe) (acc : Block)
      → Holds devices config array_phys n disks stripe
      → q_loop devices config array_phys n disks acc ≡ ok (mul_xor_others stripe acc)
  unfolding q_loop mul_xor_others
  q_loop-mul_xor_others [] [] acc h = refl
  q_loop-mul_xor_others [] (e ∷ stripe) acc h = absurd h
  q_loop-mul_xor_others (disk ∷ disks) [] acc h = absurd h
  q_loop-mul_xor_others ((s, path) ∷ disks) ((t, b) ∷ stripe) acc h =
      rw (h.1, h.0)
        (q_loop-mul_xor_others disks stripe (gf_mul_xor_inplace acc b (slot_coef t)) h.2)

  xor_all-zeros :
      (stripe : Stripe) → IsStripe n 1 stripe → xor_all stripe (zeros n) ≡ row_p n stripe
  xor_all-zeros stripe w =
      xor_all-row n 1 stripe (zeros n) w (zeros-IsBlock n)
      ∙ zeros-xor n (row_p n stripe) (row_p-IsBlock n 1 stripe w)

  mul_xor_others-zeros :
      (stripe : Stripe) → IsStripe n 1 stripe → mul_xor_others stripe (zeros n) ≡ row_q n stripe
  mul_xor_others-zeros stripe w =
      mul_xor_others-row n 1 stripe (zeros n) (omega arith) w (zeros-IsBlock n)
      ∙ zeros-xor n (row_q n stripe) (row_q-IsBlock n 1 stripe w)

  -- If all data disks read, as blocks of n bytes at ascending slots from 1 on, below 2^31, then
  -- `compute_p` and `compute_q` return the rows of the blocks: their exclusive or, and the sum in
  -- which the block of slot s has the coefficient g^(s-1). These are the rows that the recovery
  -- engine inverts.
  pub compute_p-compute_q_rows :
      (stripe : Stripe)
      → IsStripe n 1 stripe
      → Holds devices config array_phys n config.data_devs stripe
      → (compute_p devices config array_phys n ≡ ok (row_p n stripe))
        × (compute_q devices config array_phys n ≡ ok (row_q n stripe))
  unfolding compute_p compute_q
  compute_p-compute_q_rows stripe w h = (
    p_loop-xor_all config.data_devs stripe (zeros n) h ∙ ap ok (xor_all-zeros stripe w),
    q_loop-mul_xor_others config.data_devs stripe (zeros n) h
        ∙ ap ok (mul_xor_others-zeros stripe w),
  )

  module _ (k : ℕ) (c : Block) where
    override_read :
        (s : ℕ) (path : FilePath) (b : Block)
        → (s ≢ k → Reads devices config array_phys n path b)
        → block_or_override devices config array_phys n k c s path ≡ ok (if s == k then c else b)
    unfolding block_or_override
    override_read s path b h = elim (Bool-cases (s == k)) [
      | inl e ↦ rw e refl
      | inr e ↦ let ne : s ≢ k = ground arith in rw (e, h ne) refl
    ]

    p_override_loop-xor_all :
        (disks : List (ℕ × FilePath)) (stripe : Stripe) (acc : Block)
        → HoldsBut devices config array_phys n k disks stripe
        → p_override_loop devices config array_phys n k c disks acc
          ≡ ok (xor_all (replaced k c stripe) acc)
    unfolding p_override_loop xor_all replaced
    p_override_loop-xor_all [] [] acc h = refl
    p_override_loop-xor_all [] (e ∷ stripe) acc h = absurd h
    p_override_loop-xor_all (disk ∷ disks) [] acc h = absurd h
    p_override_loop-xor_all ((s, path) ∷ disks) ((t, b) ∷ stripe) acc h =
        rw (override_read s path b h.1, h.0) (p_override_loop-xor_all disks stripe _ h.2)

    q_override_loop-mul_xor_others :
        (disks : List (ℕ × FilePath)) (stripe : Stripe) (acc : Block)
        → HoldsBut devices config array_phys n k disks stripe
        → q_override_loop devices config array_phys n k c disks acc
          ≡ ok (mul_xor_others (replaced k c stripe) acc)
    unfolding q_override_loop mul_xor_others replaced
    q_override_loop-mul_xor_others [] [] acc h = refl
    q_override_loop-mul_xor_others [] (e ∷ stripe) acc h = absurd h
    q_override_loop-mul_xor_others (disk ∷ disks) [] acc h = absurd h
    q_override_loop-mul_xor_others ((s, path) ∷ disks) ((t, b) ∷ stripe) acc h =
        rw (override_read s path b h.1, h.0) (q_override_loop-mul_xor_others disks stripe _ h.2)

    -- If all data disks but slot k read, the stripe has blocks of n bytes at ascending slots from 1
    -- on, below 2^31, and c is a block of n bytes, then the two functions with the override (k, c)
    -- return the rows of the stripe that has c at slot k, whatever the disk of slot k holds and
    -- even if it cannot be read.
    pub compute_with_override_rows :
        (stripe : Stripe)
        → IsStripe n 1 stripe
        → IsBlock n c
        → HoldsBut devices config array_phys n k config.data_devs stripe
        → (compute_p_with_override devices config array_phys n k c
            ≡ ok (row_p n (replaced k c stripe)))
          × (compute_q_with_override devices config array_phys n k c
              ≡ ok (row_q n (replaced k c stripe)))
    unfolding compute_p_with_override compute_q_with_override
    compute_with_override_rows stripe w b h =
        let w' = replaced-IsStripe n 1 k c stripe b w in
        (
          p_override_loop-xor_all config.data_devs stripe (zeros n) h
              ∙ ap ok (xor_all-zeros (replaced k c stripe) w'),
          q_override_loop-mul_xor_others config.data_devs stripe (zeros n) h
              ∙ ap ok (mul_xor_others-zeros (replaced k c stripe) w'),
        )
