-- ===== src/Canary/Tests.antt =====
-- Tests and instances for scrub-rs/src/canary.rs, on the array of Array/Tests.antt.
use rotshield.Prelude.{◌≡◌, refl, ap, ◌∙◌, false, true, [], ◌∷◌, some, arith}
use rotshield.Prelude.Io.{ok}
use rotshield.Prelude.Panics.{returns}
use rotshield.Recovery.Engine.Rows.{find, row, row_p}
use rotshield.Array.Parity.{compute_p}
use rotshield.Array.Parity.Sync.{compute_p-compute_q_rows}
use rotshield.Recovery.Engine.{xor_inplace}
use rotshield.Array.Tests.{disks, config, stripe, healthy, degraded, reads_p, reads_q}
use rotshield.Canary.{reconstruct_block}
use rotshield.Canary.Probe.{reconstruct_block_lem}

here : find 2 stripe ≡ some (7 ∷ 8 ∷ [])
unfolding find
here = refl

row_here : row_p 2 stripe ≡ 4 ∷ 12 ∷ []
unfolding row xor_inplace
row_here = refl

computed : compute_p (disks false) config 2 2 ≡ ok (4 ∷ 12 ∷ [])
computed =
    (compute_p-compute_q_rows (disks false) config 2 2 stripe (ground arith) healthy).0
    ∙ ap ok row_here

reconstruct_block_example : reconstruct_block (disks true) config 2 2 2 ≡ ok (returns (7 ∷ 8 ∷ []))
reconstruct_block_example =
    reconstruct_block_lem (disks false) (disks true) config 2 2 2 stripe (7 ∷ 8 ∷ []) (4 ∷ 12 ∷ [])
      (some (13 ∷ 20 ∷ [])) (ground arith) healthy computed here degraded (reads_p true)
      (reads_q true)
