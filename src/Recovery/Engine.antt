-- ===== src/Recovery/Engine.antt =====
-- scrub-rs/src/recovery/engine.rs: the recovery cascade, P alone, then Q alone, then P and Q
-- against each other disk. A failed `assert_eq!` or an index out of range is `panic`; the
-- `debug_assert` lines have no effect in the release build, which this models.
pub mod Blocks
pub mod Rows
pub mod Loops
pub mod Single
pub mod TwoDisk
pub mod Steps
pub mod Repair
pub mod Outcome
pub mod DoubleFault
pub mod Baked
use Prim.Native.String.{String}
use rotshield.Prelude.{
  ℕ, zero, suc, ◌-◌, Bool, true, false, not, ◌&&◌, ◌||◌, ◌==◌, ltb, if◌then◌else◌, List, [], ◌∷◌,
  ◌++◌, Option, none, some, length, replicate,
}
use rotshield.Prelude.Xor.{◌⊕◌}
use rotshield.Prelude.Panics.{Panics, returns, panic, ◌>>=◌, ◌>>◌, assert}
use rotshield.Recovery.Gf.{
  gfmul, gfexp, gfinv, gfexi, gf_exp, as_i32, sub_i32, neg_i32, is_negative, rem_euclid,
}
use rotshield.Recovery.Model.{
  Block, RecoveryInput, ParityPath, FailureReason, csum_mismatch, parity_baked_in, parity_absent,
  internal_inconsistency, all_paths_failed, no_q_path_and_p_failed, RecoveryResult, recovered,
  not_corrupt, failed,
}

-- The loops over `zip` stop at the shorter slice and leave the rest of `a`.
unfoldable pub xor_inplace : Block → Block → Block
xor_inplace [] b = []
xor_inplace (x ∷ a) [] = x ∷ a
xor_inplace (x ∷ a) (y ∷ b) = (x ⊕ y) ∷ xor_inplace a b

pub gf_mul_xor_inplace : Block → Block → ℕ → Block
gf_mul_xor_inplace [] b coef = []
gf_mul_xor_inplace (x ∷ a) [] coef = x ∷ a
gf_mul_xor_inplace (x ∷ a) (y ∷ b) coef = (x ⊕ gfmul coef y) ∷ gf_mul_xor_inplace a b coef

pub gf_mul_into : Block → Block → ℕ → Block
gf_mul_into [] src coef = []
gf_mul_into (d ∷ dest) [] coef = d ∷ dest
gf_mul_into (d ∷ dest) (s ∷ src) coef = gfmul coef s ∷ gf_mul_into dest src coef

unfoldable pub all_zero : Block → Bool
all_zero [] = true
all_zero (x ∷ b) = x == 0 && all_zero b

unfoldable pub block_eq : Block → Block → Bool
block_eq [] [] = true
block_eq [] (y ∷ b) = false
block_eq (x ∷ a) [] = false
block_eq (x ∷ a) (y ∷ b) = x == y && block_eq a b

unfoldable pub xor_others : ℕ → List (ℕ × Block) → Block → Panics Block
xor_others block_size [] acc = returns acc
xor_others block_size ((slot, b) ∷ others) acc = do
  assert (length b == block_size)
  xor_others block_size others (xor_inplace acc b)

unfoldable pub recover_via_p : Block → List (ℕ × Block) → Block → ℕ → Panics Block
recover_via_p corrupt other_blocks p_block block_size = do
  assert (length corrupt == block_size)
  assert (length p_block == block_size)
  acc ← xor_others block_size other_blocks (replicate block_size 0)
  returns (xor_inplace acc p_block)

pub data QOutcome : Type 0 where
  q_recovered : (block : Block) → QOutcome
  baked_in : QOutcome
  q_mismatch : QOutcome

-- `gf::gf_exp((slot as i32) - 1)`
pub slot_coef : ℕ → ℕ
slot_coef slot = gf_exp (sub_i32 (as_i32 slot) 1)

unfoldable pub mul_xor_others : List (ℕ × Block) → Block → Block
mul_xor_others [] acc = acc
mul_xor_others ((slot, b) ∷ others) acc =
    mul_xor_others others (gf_mul_xor_inplace acc b (slot_coef slot))

pub q_candidate : List (ℕ × Block) → Block → ℕ → ℕ → Block
q_candidate other_blocks q_block failing_slot block_size =
    gf_mul_into (replicate block_size 0) (mul_xor_others other_blocks q_block)
      (gf_exp (neg_i32 (sub_i32 (as_i32 failing_slot) 1)))

pub recover_via_q : List (ℕ × Block) → Block → ℕ → ℕ → (Block → Bool) → Block → Panics QOutcome
recover_via_q other_blocks q_block failing_slot block_size verifier corrupt = do
  assert (length q_block == block_size)
  let candidate = q_candidate other_blocks q_block failing_slot block_size
  returns (
      if block_eq candidate corrupt
      then baked_in
      else if verifier candidate
      then q_recovered candidate
      else q_mismatch)

-- The syndromes of the good disks: every disk but the partner and the failing one.
pub good_p : ℕ → ℕ → List (ℕ × Block) → Block → Block
good_p partner failing [] acc = acc
good_p partner failing ((slot, b) ∷ others) acc =
    good_p partner failing others
      (if slot == partner || slot == failing then acc else xor_inplace acc b)

pub good_q : ℕ → ℕ → List (ℕ × Block) → Block → Block
good_q partner failing [] acc = acc
good_q partner failing ((slot, b) ∷ others) acc =
    good_q partner failing others (
      if slot == partner || slot == failing then acc else gf_mul_xor_inplace acc b (slot_coef slot))

-- `d_b[i] = pbmul[delta_p[i]] ^ qmul[delta_q[i]]` for the `n` indices that are left.
pub solve_loop : ℕ → ℕ → ℕ → Block → Block → Panics Block
solve_loop zero pbmul qmul delta_p delta_q = returns []
solve_loop (suc n) pbmul qmul [] delta_q = panic
solve_loop (suc n) pbmul qmul (x ∷ delta_p) [] = panic
solve_loop (suc n) pbmul qmul (x ∷ delta_p) (y ∷ delta_q) = do
  rest ← solve_loop n pbmul qmul delta_p delta_q
  returns ((gfmul pbmul x ⊕ gfmul qmul y) ∷ rest)

-- `GFEXP[a as usize]`
pub gfexp_at : ℕ → Panics ℕ
gfexp_at a = if ltb a 256 then returns (gfexp a) else panic

-- The part after the two columns `a` and `b` have been found to differ.
pub solve_columns : ℕ → ℕ → Block → Block → List (ℕ × Block) → ℕ → ℕ → ℕ → Panics (Option Block)
solve_columns a b p_block q_block other_blocks partner_slot failing_slot block_size = do
  let diff = rem_euclid (sub_i32 b a) 255
  ga ← gfexp_at a
  gb ← gfexp_at b
  let zeros = replicate block_size 0
  let delta_p = xor_inplace p_block (good_p partner_slot failing_slot other_blocks zeros)
  let delta_q = xor_inplace q_block (good_q partner_slot failing_slot other_blocks zeros)
  d_b ← solve_loop block_size (gfexi diff) (gfinv (ga ⊕ gb)) delta_p delta_q
  let d_a = xor_inplace d_b delta_p
  returns (some (if ltb failing_slot partner_slot then d_a else d_b))

pub solve_two_disk : Block → Block → List (ℕ × Block) → ℕ → ℕ → ℕ → Panics (Option Block)
solve_two_disk p_block q_block other_blocks partner_slot failing_slot block_size =
    let lower = ltb failing_slot partner_slot in
    let f = sub_i32 (as_i32 failing_slot) 1 in
    let p = sub_i32 (as_i32 partner_slot) 1 in
    let a = if lower then f else p in
    let b = if lower then p else f in
    if is_negative a || is_negative b || a == b
    then returns none
    else solve_columns a b p_block q_block other_blocks partner_slot failing_slot block_size

-- One path of the cascade returns from `recover_block`, or leaves its reason.
pub data PathStep : Type 0 where
  early : RecoveryResult → PathStep
  reason : Option FailureReason → PathStep

unfoldable pub xor_all : List (ℕ × Block) → Block → Block
xor_all [] acc = acc
xor_all ((slot, b) ∷ others) acc = xor_all others (xor_inplace acc b)

unfoldable pub p_candidate : RecoveryInput → ℕ → Block → Panics PathStep
p_candidate input block_size p_block = do
  candidate ← recover_via_p input.corrupt_block input.other_blocks p_block block_size
  returns (
      if input.verifier candidate
      then early (recovered ParityPath.p candidate)
      else reason (some (csum_mismatch ParityPath.p)))

unfoldable pub p_step : RecoveryInput → ℕ → Option Block → Panics PathStep
p_step input block_size none = returns (reason (some (parity_absent ParityPath.p)))
p_step input block_size (some p_block) = do
  assert (length p_block == block_size)
  let zero_acc = xor_inplace (xor_all input.other_blocks input.corrupt_block) p_block
  (if not input.unreadable_source && all_zero zero_acc
      then returns (reason (some (parity_baked_in ParityPath.p)))
      else p_candidate input block_size p_block)

pub q_result : QOutcome → PathStep
q_result (q_recovered block) = early (recovered ParityPath.q block)
q_result baked_in = reason (some (parity_baked_in ParityPath.q))
q_result q_mismatch = reason (some (csum_mismatch ParityPath.q))

pub q_step : RecoveryInput → ℕ → Option Block → Panics PathStep
q_step input block_size none = returns (reason (some (parity_absent ParityPath.q)))
q_step input block_size (some q_block) = do
  assert (length q_block == block_size)
  outcome ←
      recover_via_q input.other_blocks q_block input.failing_slot block_size input.verifier
        (if input.unreadable_source then [] else input.corrupt_block)
  returns (q_result outcome)

pub reason_or : Option FailureReason → String → FailureReason
reason_or none text = internal_inconsistency text
reason_or (some r) text = r

unfoldable pub accepted : (Block → Bool) → Option Block → Option Block
accepted verifier none = none
accepted verifier (some candidate) = if verifier candidate then some candidate else none

-- A candidate that verifies ends the loop; otherwise the wrong partner was tried.
pub partner_result : ℕ → Option Block → Panics RecoveryResult → Panics RecoveryResult
partner_result slot none rest = rest
partner_result slot (some block) rest = returns (recovered (ParityPath.pq slot) block)

-- The loop over the partners; `tried` are those before.
pub try_partners :
    RecoveryInput
    → ℕ
    → Block
    → Block
    → FailureReason
    → FailureReason
    → List (ℕ × Block)
    → List ℕ
    → Panics RecoveryResult
try_partners input block_size p_block q_block p_reason q_reason [] tried =
    returns (failed (all_paths_failed p_reason q_reason tried))
try_partners input block_size p_block q_block p_reason q_reason ((slot, b) ∷ partners) tried =
    solve_two_disk p_block q_block input.other_blocks slot input.failing_slot block_size
    >>= λ candidate. partner_result slot (accepted input.verifier candidate) (
        try_partners input block_size p_block q_block p_reason q_reason partners
          (tried ++ slot ∷ []))

pub last_resort :
    RecoveryInput
    → ℕ
    → Option Block
    → Option Block
    → FailureReason
    → FailureReason
    → Panics RecoveryResult
last_resort input block_size (some p_block) (some q_block) p_reason q_reason =
    try_partners input block_size p_block q_block p_reason q_reason input.other_blocks []
last_resort input block_size none (some q_block) p_reason q_reason =
    returns (failed (all_paths_failed p_reason q_reason []))
last_resort input block_size (some p_block) none p_reason q_reason =
    returns (failed (no_q_path_and_p_failed p_reason))
last_resort input block_size none none p_reason q_reason =
    returns (failed (no_q_path_and_p_failed p_reason))

pub after_q : RecoveryInput → ℕ → Option FailureReason → PathStep → Panics RecoveryResult
after_q input block_size p_reason (early result) = returns result
after_q input block_size p_reason (reason q_reason) =
    last_resort input block_size input.p_block input.q_block
      (reason_or p_reason "internal: P path returned no reason")
      (reason_or q_reason "internal: Q path returned no reason")

unfoldable pub after_p : RecoveryInput → ℕ → PathStep → Panics RecoveryResult
after_p input block_size (early result) = returns result
after_p input block_size (reason p_reason) =
    q_step input block_size input.q_block >>= after_q input block_size p_reason

unfoldable pub recover_block : RecoveryInput → ℕ → Panics RecoveryResult
recover_block input block_size = do
  assert (length input.corrupt_block == block_size)
  (if not input.unreadable_source && input.verifier input.corrupt_block
      then returns not_corrupt
      else p_step input block_size input.p_block >>= after_p input block_size)
