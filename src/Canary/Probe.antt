-- ===== src/Canary/Probe.antt =====
-- The probe of scrub-rs/src/canary.rs on an array that holds a known stripe.
use rotshield.Prelude.{ℕ, ◌≡◌, refl, sym, ap, ◌∙◌, Option, none, some, replicate}
use rotshield.Prelude.Io.{ok, err, not_found}
use rotshield.Prelude.Panics.{returns}
use rotshield.Recovery.Model.{Block}
use rotshield.Recovery.Engine.Blocks.{zeros-IsBlock, length-IsBlock}
use rotshield.Recovery.Engine.Rows.{Stripe, IsStripe, find, row_p}
use rotshield.Recovery.Engine.Single.{recover_via_p_lem}
use rotshield.Array.Config.{ArrayConfig}
use rotshield.Array.Stripe.{Devices}
use rotshield.Array.Stripe.Gather.{HoldsBut, Holds, ReadsParity, gather_stripe_lem}
use rotshield.Array.Parity.{compute_p}
use rotshield.Array.Parity.Sync.{compute_p-compute_q_rows}
use rotshield.Canary.{probe, reconstruct_block}

ok_inj : {x y : Block} → ok x ≡ ok y → x ≡ y
ok_inj e = cc

-- Suppose the data disks once held a stripe of n-byte blocks at ascending slots from 1 on, below
-- 2^31, and `compute_p` gave p
-- for it. If now P reads as p, Q, where there is one, reads, and all data disks but slot k hold what
-- they held, then `reconstruct_block` returns the block that slot k held, without a panic, whatever
-- is on the disk of slot k now.
pub reconstruct_block_lem :
    (before devices : Devices) (config : ArrayConfig) (array_phys n k : ℕ) (stripe : Stripe)
    (d p : Block) (q : Option Block)
    → IsStripe n 1 stripe
    → Holds before config array_phys n config.data_devs stripe
    → compute_p before config array_phys n ≡ ok p
    → find k stripe ≡ some d
    → HoldsBut devices config array_phys n k config.data_devs stripe
    → ReadsParity devices config array_phys n config.parity_p (some p)
    → ReadsParity devices config array_phys n config.parity_q q
    → reconstruct_block devices config k array_phys n ≡ ok (returns d)
unfolding reconstruct_block probe
reconstruct_block_lem before devices config array_phys n k stripe d p q w old computed here now hp
      hq =
    rw (gather_stripe_lem devices config array_phys n k stripe (some p) q now hp hq, ← same)
      (ap ok (
        recover_via_p_lem n k stripe d w here (replicate n 0)
          (length-IsBlock n _ (zeros-IsBlock n))))
  where
    same : row_p n stripe ≡ p
    same =
        ok_inj
          (sym ((compute_p-compute_q_rows before config array_phys n stripe w old).0) ∙ computed)

-- Without a P disk the probe is an error, once the other disks and Q read.
pub reconstruct_block-not_found :
    (devices : Devices) (config : ArrayConfig) (array_phys n k : ℕ) (stripe : Stripe)
    (q : Option Block)
    → config.parity_p ≡ none
    → HoldsBut devices config array_phys n k config.data_devs stripe
    → ReadsParity devices config array_phys n config.parity_q q
    → reconstruct_block devices config k array_phys n ≡ err not_found
unfolding reconstruct_block probe
reconstruct_block-not_found devices config array_phys n k stripe q absent now hq =
    rw (gather_stripe_lem devices config array_phys n k stripe none q now (rw absent tt) hq) refl
