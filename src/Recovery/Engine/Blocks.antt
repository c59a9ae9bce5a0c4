-- ===== src/Recovery/Engine/Blocks.antt =====
-- Blocks of one length under the byte loops of scrub-rs/src/recovery/engine.rs: exclusive or makes
-- them a group, and the product by a coefficient is linear.
use rotshield.Prelude.{
  ℕ, zero, suc, ◌<◌, ◌≡◌, refl, sym, ap, ap₂, ◌∙◌, ==_refl, true, [], ◌∷◌, length, replicate, map,
  arith,
}
use rotshield.Prelude.Xor.{◌⊕◌, xor-lt, xor_comm, xor_assoc, xor_self, xor-zero}
use rotshield.Recovery.Gf.Field.{◌⊗◌, times-lt, times-xor_right, times_assoc, one-times}
use rotshield.Recovery.Gf.Tables.{gfmul-times}
use rotshield.Recovery.Model.{Block}
use rotshield.Recovery.Engine.{xor_inplace, gf_mul_xor_inplace, gf_mul_into, all_zero, block_eq}

-- A list of n bytes.
abbrev pub IsBlock : ℕ → Block → Type 0
IsBlock zero [] = Unit
IsBlock zero (x ∷ b) = ⊥
IsBlock (suc n) [] = ⊥
IsBlock (suc n) (x ∷ b) = (x < 256) × IsBlock n b

abbrev pub zeros : ℕ → Block
zeros n = replicate n 0

-- The product of every byte by a coefficient.
abbrev pub scale : ℕ → Block → Block
scale c = map (λ x. c ⊗ x)

pub length-IsBlock : (n : ℕ) (b : Block) → IsBlock n b → length b ≡ n
length-IsBlock zero [] h = refl
length-IsBlock zero (x ∷ b) h = absurd h
length-IsBlock (suc n) [] h = absurd h
length-IsBlock (suc n) (x ∷ b) h = ap suc (length-IsBlock n b h.1)

pub zeros-IsBlock : (n : ℕ) → IsBlock n (zeros n)
zeros-IsBlock zero = tt
zeros-IsBlock (suc n) = (omega arith, zeros-IsBlock n)

pub xor-IsBlock : (n : ℕ) (a b : Block) → IsBlock n a → IsBlock n b → IsBlock n (xor_inplace a b)
unfolding xor_inplace
xor-IsBlock zero [] b p q = tt
xor-IsBlock zero (x ∷ a) b p q = absurd p
xor-IsBlock (suc n) [] b p q = absurd p
xor-IsBlock (suc n) (x ∷ a) [] p q = absurd q
xor-IsBlock (suc n) (x ∷ a) (y ∷ b) p q = (xor-lt 8 x y p.0 q.0, xor-IsBlock n a b p.1 q.1)

pub scale-IsBlock : (n c : ℕ) (b : Block) → c < 256 → IsBlock n b → IsBlock n (scale c b)
scale-IsBlock zero c [] h p = tt
scale-IsBlock zero c (x ∷ b) h p = absurd p
scale-IsBlock (suc n) c [] h p = absurd p
scale-IsBlock (suc n) c (x ∷ b) h p = (times-lt c x h, scale-IsBlock n c b h p.1)

pub xor_comm_blocks :
    (n : ℕ) (a b : Block) → IsBlock n a → IsBlock n b → xor_inplace a b ≡ xor_inplace b a
unfolding xor_inplace
xor_comm_blocks zero [] [] p q = refl
xor_comm_blocks zero [] (y ∷ b) p q = absurd q
xor_comm_blocks zero (x ∷ a) b p q = absurd p
xor_comm_blocks (suc n) [] b p q = absurd p
xor_comm_blocks (suc n) (x ∷ a) [] p q = absurd q
xor_comm_blocks (suc n) (x ∷ a) (y ∷ b) p q =
    ap₂ (λ t u. t ∷ u) (xor_comm x y) (xor_comm_blocks n a b p.1 q.1)

pub xor_assoc_blocks :
    (n : ℕ) (a b c : Block)
    → IsBlock n a
    → IsBlock n b
    → IsBlock n c
    → xor_inplace (xor_inplace a b) c ≡ xor_inplace a (xor_inplace b c)
unfolding xor_inplace
xor_assoc_blocks zero [] b c p q r = refl
xor_assoc_blocks zero (x ∷ a) b c p q r = absurd p
xor_assoc_blocks (suc n) [] b c p q r = absurd p
xor_assoc_blocks (suc n) (x ∷ a) [] c p q r = absurd q
xor_assoc_blocks (suc n) (x ∷ a) (y ∷ b) [] p q r = absurd r
xor_assoc_blocks (suc n) (x ∷ a) (y ∷ b) (z ∷ c) p q r =
    ap₂ (λ t u. t ∷ u) (xor_assoc x y z) (xor_assoc_blocks n a b c p.1 q.1 r.1)

pub xor_self_block : (n : ℕ) (a : Block) → IsBlock n a → xor_inplace a a ≡ zeros n
unfolding xor_inplace
xor_self_block zero [] p = refl
xor_self_block zero (x ∷ a) p = absurd p
xor_self_block (suc n) [] p = absurd p
xor_self_block (suc n) (x ∷ a) p = ap₂ (λ t u. t ∷ u) (xor_self x) (xor_self_block n a p.1)

pub xor-zeros : (n : ℕ) (a : Block) → IsBlock n a → xor_inplace a (zeros n) ≡ a
unfolding xor_inplace
xor-zeros zero [] p = refl
xor-zeros zero (x ∷ a) p = absurd p
xor-zeros (suc n) [] p = absurd p
xor-zeros (suc n) (x ∷ a) p = ap₂ (λ t u. t ∷ u) (xor-zero x) (xor-zeros n a p.1)

pub zeros-xor : (n : ℕ) (a : Block) → IsBlock n a → xor_inplace (zeros n) a ≡ a
zeros-xor n a p = xor_comm_blocks n (zeros n) a (zeros-IsBlock n) p ∙ xor-zeros n a p

pub xor_cancel_blocks :
    (n : ℕ) (a b : Block) → IsBlock n a → IsBlock n b → xor_inplace (xor_inplace a b) b ≡ a
xor_cancel_blocks n a b p q =
    xor_assoc_blocks n a b b p q q ∙ ap (xor_inplace a) (xor_self_block n b q) ∙ xor-zeros n a p

pub xor_left_comm_blocks :
    (n : ℕ) (x y z : Block)
    → IsBlock n x
    → IsBlock n y
    → IsBlock n z
    → xor_inplace x (xor_inplace y z) ≡ xor_inplace y (xor_inplace x z)
xor_left_comm_blocks n x y z p q t =
    sym (xor_assoc_blocks n x y z p q t)
    ∙ ap (λ (u : Block). xor_inplace u z) (xor_comm_blocks n x y p q)
    ∙ xor_assoc_blocks n y x z q p t

-- A sum that is zero has equal terms.
pub xor-zeros_eq :
    (n : ℕ) (a b : Block) → IsBlock n a → IsBlock n b → xor_inplace a b ≡ zeros n → a ≡ b
xor-zeros_eq n a b p q e =
    sym (xor_cancel_blocks n a b p q) ∙ ap (λ (t : Block). xor_inplace t b) e ∙ zeros-xor n b q

pub scale-xor :
    (n c : ℕ) (a b : Block)
    → IsBlock n a
    → IsBlock n b
    → scale c (xor_inplace a b) ≡ xor_inplace (scale c a) (scale c b)
unfolding xor_inplace
scale-xor zero c [] b p q = refl
scale-xor zero c (x ∷ a) b p q = absurd p
scale-xor (suc n) c [] b p q = absurd p
scale-xor (suc n) c (x ∷ a) [] p q = absurd q
scale-xor (suc n) c (x ∷ a) (y ∷ b) p q =
    ap₂ (λ t u. t ∷ u) (times-xor_right c x y) (scale-xor n c a b p.1 q.1)

pub scale-scale :
    (n c d : ℕ) (a : Block)
    → c < 256
    → d < 256
    → IsBlock n a
    → scale c (scale d a) ≡ scale (c ⊗ d) a
scale-scale zero c d [] h k p = refl
scale-scale zero c d (x ∷ a) h k p = absurd p
scale-scale (suc n) c d [] h k p = absurd p
scale-scale (suc n) c d (x ∷ a) h k p =
    ap₂ (λ t u. t ∷ u) (sym (times_assoc c d x h k)) (scale-scale n c d a h k p.1)

pub one-scale : (n : ℕ) (a : Block) → IsBlock n a → scale 1 a ≡ a
one-scale zero [] p = refl
one-scale zero (x ∷ a) p = absurd p
one-scale (suc n) [] p = absurd p
one-scale (suc n) (x ∷ a) p = ap₂ (λ t u. t ∷ u) (one-times x p.0) (one-scale n a p.1)

-- The table loops, on bytes.
pub gf_mul_xor_inplace-scale :
    (n c : ℕ) (a b : Block)
    → c < 256
    → IsBlock n b
    → gf_mul_xor_inplace a b c ≡ xor_inplace a (scale c b)
unfolding gf_mul_xor_inplace xor_inplace
gf_mul_xor_inplace-scale n c [] b h p = refl
gf_mul_xor_inplace-scale n c (x ∷ a) [] h p = refl
gf_mul_xor_inplace-scale zero c (x ∷ a) (y ∷ b) h p = absurd p
gf_mul_xor_inplace-scale (suc n) c (x ∷ a) (y ∷ b) h p =
    ap₂ (λ t u. (x ⊕ t) ∷ u) (gfmul-times c y h p.0) (gf_mul_xor_inplace-scale n c a b h p.1)

pub gf_mul_into-scale :
    (n c : ℕ) (src : Block) → c < 256 → IsBlock n src → gf_mul_into (zeros n) src c ≡ scale c src
unfolding gf_mul_into
gf_mul_into-scale zero c [] h p = refl
gf_mul_into-scale zero c (x ∷ src) h p = absurd p
gf_mul_into-scale (suc n) c [] h p = absurd p
gf_mul_into-scale (suc n) c (x ∷ src) h p =
    ap₂ (λ t u. t ∷ u) (gfmul-times c x h p.0) (gf_mul_into-scale n c src h p.1)

pub all_zero-zeros : (n : ℕ) → all_zero (zeros n) ≡ true
unfolding all_zero
all_zero-zeros zero = refl
all_zero-zeros (suc n) = all_zero-zeros n

pub all_zero_sound : (n : ℕ) (a : Block) → IsBlock n a → all_zero a ≡ true → a ≡ zeros n
unfolding all_zero
all_zero_sound zero [] p h = refl
all_zero_sound zero (x ∷ a) p h = absurd p
all_zero_sound (suc n) [] p h = absurd p
all_zero_sound (suc n) (x ∷ a) p h = ground (arith, all_zero_sound n a p.1)

pub block_eq_refl : (a : Block) → block_eq a a ≡ true
unfolding block_eq
block_eq_refl [] = refl
block_eq_refl (x ∷ a) = rw (==_refl x, block_eq_refl a) refl

pub block_eq_sound : (a b : Block) → block_eq a b ≡ true → a ≡ b
unfolding block_eq
block_eq_sound [] [] h = refl
block_eq_sound [] (y ∷ b) h = cc
block_eq_sound (x ∷ a) [] h = cc
block_eq_sound (x ∷ a) (y ∷ b) h = ground (arith, block_eq_sound a b)
