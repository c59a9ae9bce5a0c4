-- ===== src/Array/Stripe/Gather.antt =====
-- What `gather_stripe` of scrub-rs/src/array/stripe.rs collects, against the stripe on the disks.
use rotshield.Prelude.{
  ℕ, ◌≡◌, ◌≢◌, refl, ◌==◌, Bool-cases, inl, inr, List, [], ◌∷◌, Option, none, some, arith,
}
use rotshield.Prelude.Io.{ok}
use rotshield.Recovery.Model.{Block}
use rotshield.Recovery.Engine.Rows.{Stripe, without}
use rotshield.Array.Config.{FilePath, ArrayConfig}
use rotshield.Array.Stripe.{
  Devices, read_block_or_zeros, gather_others, gather_parity, gather_stripe,
}

module _ (devices : Devices) (config : ArrayConfig) (array_phys n : ℕ) where
  abbrev pub Reads : FilePath → Block → Type 0
  Reads path b = read_block_or_zeros devices config path array_phys n ≡ ok b

  -- The disks hold the stripe, slot by slot, but for slot k, of which nothing is said.
  abbrev pub HoldsBut : ℕ → List (ℕ × FilePath) → Stripe → Type 0
  HoldsBut k [] [] = Unit
  HoldsBut k [] (e ∷ stripe) = ⊥
  HoldsBut k (disk ∷ disks) [] = ⊥
  HoldsBut k (disk ∷ disks) (e ∷ stripe) =
      (disk.0 ≡ e.0) × (disk.0 ≢ k → Reads disk.1 e.1) × HoldsBut k disks stripe

  -- All of the disks do.
  abbrev pub Holds : List (ℕ × FilePath) → Stripe → Type 0
  Holds [] [] = Unit
  Holds [] (e ∷ stripe) = ⊥
  Holds (disk ∷ disks) [] = ⊥
  Holds (disk ∷ disks) (e ∷ stripe) = (disk.0 ≡ e.0) × Reads disk.1 e.1 × Holds disks stripe

  pub gather_others-without :
      (k : ℕ) (disks : List (ℕ × FilePath)) (stripe : Stripe)
      → HoldsBut k disks stripe
      → gather_others devices config array_phys n k disks ≡ ok (without k stripe)
  unfolding gather_others without
  gather_others-without k [] [] h = refl
  gather_others-without k [] (e ∷ stripe) h = absurd h
  gather_others-without k (disk ∷ disks) [] h = absurd h
  gather_others-without k ((s, path) ∷ disks) ((t, b) ∷ stripe) h = elim (Bool-cases (s == k)) [
    | inl e ↦ rw (← h.0, e) (gather_others-without k disks stripe h.2)
    | inr e ↦
        let ne : s ≢ k = ground arith in
        rw (← h.0, e, h.1 ne, gather_others-without k disks stripe h.2) refl
  ]

  abbrev pub ReadsParity : Option FilePath → Option Block → Type 0
  ReadsParity none none = Unit
  ReadsParity none (some b) = ⊥
  ReadsParity (some path) none = ⊥
  ReadsParity (some path) (some b) = Reads path b

  gather_parity_lem :
      (path : Option FilePath) (b : Option Block)
      → ReadsParity path b
      → gather_parity devices config array_phys n path ≡ ok b
  unfolding gather_parity
  gather_parity_lem none none h = refl
  gather_parity_lem none (some b) h = absurd h
  gather_parity_lem (some path) none h = absurd h
  gather_parity_lem (some path) (some b) h = rw h refl

  -- If the disks hold the stripe but for the failing slot, which may hold anything or not even be
  -- readable, and the parity disks that there are give p and q, then `gather_stripe` returns the
  -- blocks of the other slots in order, and p and q.
  pub gather_stripe_lem :
      (k : ℕ) (stripe : Stripe) (p q : Option Block)
      → HoldsBut k config.data_devs stripe
      → ReadsParity config.parity_p p
      → ReadsParity config.parity_q q
      → gather_stripe devices config array_phys n k
        ≡ ok (record { other_data = without k stripe; p_block = p; q_block = q })
  unfolding gather_stripe
  gather_stripe_lem k stripe p q h hp hq =
      rw
        (
          gather_others-without k config.data_devs stripe h,
          gather_parity_lem config.parity_p p hp,
          gather_parity_lem config.parity_q q hq,
        )
        refl
