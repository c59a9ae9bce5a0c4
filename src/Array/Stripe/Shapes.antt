-- ===== src/Array/Stripe/Shapes.antt =====
-- What `gather_stripe` of scrub-rs/src/array/stripe.rs returns, whatever the disks hold, has the
-- shape that the recovery engine asks for.
use rotshield.Prelude.{
  ℕ, suc, ◌≤◌, ◌<◌, ◌≡◌, refl, ap, ◌∙◌, ◌==◌, Bool-cases, inl, inr, List, [], ◌∷◌, Option, none,
  some, arith,
}
use rotshield.Prelude.Io.{ok, err, open_failed, bind_ok}
use rotshield.Recovery.Model.{Block}
use rotshield.Recovery.Engine.Blocks.{IsBlock}
use rotshield.Recovery.Engine.Rows.{IsStripe, IsStripe-from}
use rotshield.Recovery.Engine.Steps.{FitSlots, IsParity}
use rotshield.Array.Config.{FilePath, ArrayConfig}
use rotshield.Array.Stripe.{
  Device, Devices, StripeChunks, open_dev, read_block_or_zeros, gather_others, gather_parity,
  gather_stripe,
}
use rotshield.Array.Stripe.Bytes.{HoldsBytes, read_device-IsRead}

-- Ascending slots from `lo` on that fit the exponent table.
abbrev pub IsLayout : ℕ → List (ℕ × FilePath) → Type 0
IsLayout lo [] = Unit
IsLayout lo ((s, path) ∷ disks) = (lo ≤ s) × (s < 256) × IsLayout (suc s) disks

-- Devices hold bytes.
abbrev pub AreBytes : Devices → Type 0
AreBytes devices =
    (path : FilePath) (device : Device) → devices path ≡ some device → HoldsBytes device

module _ (devices : Devices) (config : ArrayConfig) (array_phys n : ℕ)
    (bytes : AreBytes devices) where
  open_dev_ok :
      (path : FilePath) (device : Device)
      → open_dev devices path ≡ ok device
      → devices path ≡ some device
  unfolding open_dev
  open_dev_ok path device e = found (devices path) refl e
    where
      found :
          (o : Option Device)
          → devices path ≡ o
          → elim o [ none ↦ err open_failed | some d ↦ ok d ] ≡ ok device
          → devices path ≡ some device
      found none h e = absurd (cc)
      found (some d) h e = h ∙ ap some (cc)

  pub read_block-IsBlock :
      (path : FilePath) (b : Block)
      → read_block_or_zeros devices config path array_phys n ≡ ok b
      → IsBlock n b
  unfolding read_block_or_zeros
  read_block-IsBlock path b e =
      let (device, opens, reads) = bind_ok (open_dev devices path) e in
      (read_device-IsRead device _ n b (bytes path device (open_dev_ok path device opens)) reads).0

  gather_others-shape :
      (k lo : ℕ) (disks : List (ℕ × FilePath)) (others : List (ℕ × Block))
      → IsLayout lo disks
      → gather_others devices config array_phys n k disks ≡ ok others
      → IsStripe n lo others × FitSlots k others
  unfolding gather_others
  gather_others-shape k lo [] others w e =
      let none_there : [] ≡ others = cc in rw (← none_there) (tt, tt)
  gather_others-shape k lo ((s, path) ∷ disks) others w e = elim (Bool-cases (s == k)) [
    | inl skip ↦
        let (shape, fit) = gather_others-shape k (suc s) disks others w.2 (rw skip at e) in
        (IsStripe-from n (suc s) lo others (omega arith) shape, fit)
    | inr other ↦
        let (b, reads, e') =
          bind_ok (read_block_or_zeros devices config path array_phys n) (rw other at e) in
        let (tail, gathers, e'') = bind_ok (gather_others devices config array_phys n k disks) e' in
        let (shape, fit) = gather_others-shape k (suc s) disks tail w.2 gathers in
        let same : (s, b) ∷ tail ≡ others = cc in
        rw (← same)
          ((w.0, omega arith, read_block-IsBlock path b reads, shape), ((w.1, ground arith), fit))
  ]

  gather_parity-IsParity :
      (path : Option FilePath) (p : Option Block)
      → gather_parity devices config array_phys n path ≡ ok p
      → IsParity n p
  unfolding gather_parity
  gather_parity-IsParity none p e = let same : none ≡ p = cc in rw (← same) tt
  gather_parity-IsParity (some path) p e =
      let (b, reads, e') = bind_ok (read_block_or_zeros devices config path array_phys n) e in
      let same : some b ≡ p = cc in rw (← same) (read_block-IsBlock path b reads)

  -- The blocks have n bytes, the slots ascend without the failing one, and so do the parity blocks.
  pub gather_stripe-shape :
      (k : ℕ) (chunks : StripeChunks)
      → IsLayout 1 config.data_devs
      → gather_stripe devices config array_phys n k ≡ ok chunks
      → IsStripe n 1 chunks.other_data
        × FitSlots k chunks.other_data
        × IsParity n chunks.p_block
        × IsParity n chunks.q_block
  unfolding gather_stripe
  gather_stripe-shape k chunks w e =
      let (others, go, e1) =
        bind_ok (gather_others devices config array_phys n k config.data_devs) e in
      let (p, gp, e2) = bind_ok (gather_parity devices config array_phys n config.parity_p) e1 in
      let (q, gq, e3) = bind_ok (gather_parity devices config array_phys n config.parity_q) e2 in
      let (shape, fit) = gather_others-shape k 1 config.data_devs others w go in
      let same : record { other_data = others; p_block = p; q_block = q } ≡ chunks = cc in
      rw (← same) (
        shape,
        fit,
        gather_parity-IsParity config.parity_p p gp,
        gather_parity-IsParity config.parity_q q gq,
      )
