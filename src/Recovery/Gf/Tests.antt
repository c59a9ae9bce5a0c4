-- ===== src/Recovery/Gf/Tests.antt =====
-- Tests and instances for scrub-rs/src/recovery/gf.rs.
use rotshield.Prelude.{◌+◌, ◌-◌, ◌%◌, ◌^◌, ◌<◌, ◌≡◌, refl, arith}
use rotshield.Prelude.Xor.{◌⊕◌}
use rotshield.Recovery.Gf.{gf_mul_scalar, mul_loop, double, gf_mul, gf_inv, gf_exp, gf_pow, neg_i32}
use rotshield.Recovery.Gf.Laws.{gf_mul_ring, gf_mul-gf_inv, gf_exp_hom, gf_pow-factors, factors}

aes_pair : gf_mul_scalar 0x53 0xca ≡ 0x8f
unfolding gf_mul_scalar mul_loop double
aes_pair = refl

gf_mul_ring_example :
    (gf_mul 3 7 < 256)
    × (gf_mul 3 7 ≡ gf_mul 7 3)
    × (gf_mul (gf_mul 3 7) 200 ≡ gf_mul 3 (gf_mul 7 200))
    × (gf_mul 3 1 ≡ 3)
    × (gf_mul 3 (7 ⊕ 200) ≡ gf_mul 3 7 ⊕ gf_mul 3 200)
gf_mul_ring_example = gf_mul_ring 3 7 200 (omega arith) (omega arith) (omega arith)

gf_mul-gf_inv_example : (gf_inv 0x8e < 256) × (gf_mul 0x8e (gf_inv 0x8e) ≡ 1)
gf_mul-gf_inv_example = gf_mul-gf_inv 0x8e (omega arith) (omega arith)

gf_exp_hom_example :
    (gf_exp (200 + 100) ≡ gf_mul (gf_exp 200) (gf_exp 100))
    × (gf_mul (gf_exp (neg_i32 100)) (gf_exp 100) ≡ 1)
    × (gf_exp (100 % 255) ≡ gf_exp 100)
gf_exp_hom_example = gf_exp_hom 200 100 (omega arith)

gf_pow-factors_example :
    (gf_pow 3 257 ≡ factors 3 (257 % 255))
    × (gf_pow 3 (2 ^ 32 - 1) ≡ factors 3 ((255 - 1 % 255) % 255))
gf_pow-factors_example =
    gf_pow-factors 3 257 1 (omega arith) (omega arith) (omega arith) (omega arith)
