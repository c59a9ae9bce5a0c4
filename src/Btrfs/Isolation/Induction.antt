-- ===== src/Btrfs/Isolation/Induction.antt =====
-- The induction that all properties of `isolate_run` of scrub-rs/src/btrfs/scrub.rs share: a
-- relation of the states before and after that holds of each way in which a range ends, and that
-- two adjoining ranges pass on, holds of every run, and every run with enough fuel ends.
use native.Mathlib.Nat.{
  suc-mul, zero-add, le-mul_of_pos_right, zero-mul, add-mul, mod-add-mod, mul-div_cancel,
  mul-mod_left, mod-lt, div-add-mod, mul-le-mul_right, mod_self, div_self,
}
use rotshield.Prelude.{
  ℕ, zero, suc, ◌+◌, ◌-◌, ◌*◌, ◌/◌, ◌%◌, ◌^◌, ◌≤◌, ◌<◌, ◌≡◌, refl, sym, ap, ◌∙◌, subst, min, leb,
  ltb, ◌==◌, Bool, Bool-cases, inl, inr, if◌then◌else◌, true, false, some, arith,
}
use rotshield.Prelude.Io.{IoError, IoResult, ok, err}
use rotshield.Recovery.Model.{Block}
use rotshield.Array.Config.{add_u64}
use rotshield.Btrfs.Isolation.Ranges.{add_u64_small, sector_start}
use rotshield.Btrfs.Isolation.{
  Isolation, IsolationBudget, spend, mark_bad, push_good, fail, single, Run, split_loop, split,
  attempted, isolate_run, isolate_run_read, eio_split_factor, fresh,
}

-- A range is m sectors from the s-th on; its address is `base` and its start, in 64 bits.
pub record Rules {ℓ κ} {W : Type ℓ} (read : W → ℕ → ℕ → W × IoResult Block) (base sz : ℕ)
    (P : ℕ → ℕ → Isolation W → Isolation W → Type κ) : Type (ℓ ⊔ κ) where
  pub empty : (s : ℕ) (st : Isolation W) → P s 0 st st
  pub spent :
      (s m : ℕ) (st : Isolation W)
      → (s + m) * sz < 2 ^ 64
      → st.budget.exhausted ≡ true
      → P s m st (mark_bad (s * sz) sz m st)
  pub reads :
      (s m : ℕ) (st : Isolation W) (w : W) (buf : Block)
      → st.budget.exhausted ≡ false
      → read st.world (add_u64 base (s * sz)) (m * sz) ≡ (w, ok buf)
      → P s m st (push_good (s * sz) buf w st)
  pub fails_one :
      (s : ℕ) (st : Isolation W) (w : W) (e : IoError)
      → st.budget.exhausted ≡ false
      → read st.world (add_u64 base (s * sz)) (1 * sz) ≡ (w, err e)
      → P s 1 st (single (s * sz) st (w, err e))
  pub fails :
      (s m : ℕ) (st st' : Isolation W) (w : W) (e : IoError)
      → st.budget.exhausted ≡ false
      → read st.world (add_u64 base (s * sz)) (m * sz) ≡ (w, err e)
      → P s m (fail w st) st'
      → P s m st st'
  pub joins :
      (s a b : ℕ) (st st1 st2 : Isolation W)
      → P s a st st1
      → P (s + a) b st1 st2
      → P s (a + b) st st2

add_u64-zero : (a : ℕ) → a < 2 ^ 64 → add_u64 a 0 ≡ a
add_u64-zero a h = add_u64_small a 0 (omega arith) ∙ (let e : a + 0 ≡ a = omega arith in e)

add_u64_assoc : (a b c : ℕ) → add_u64 (add_u64 a b) c ≡ add_u64 a (b + c)
unfolding add_u64
add_u64_assoc a b c =
    mod-add-mod (a + b) (2 ^ 64) c
    ∙ ap (λ (t : ℕ). t % 2 ^ 64) (let e : a + b + c ≡ a + (b + c) = omega arith in e)

if_true {ℓ} : {A : Type ℓ} {b : Bool} (x y : A) → b ≡ true → (if b then x else y) ≡ x
if_true x y e = rw e refl

if_false {ℓ} : {A : Type ℓ} {b : Bool} (x y : A) → b ≡ false → (if b then x else y) ≡ y
if_false x y e = rw e refl

-- A piece has fewer sectors than the range, if that has two or more.
pub piece_lt : (m : ℕ) → 2 ≤ m → (let k = min eio_split_factor m in m / k + min (m % k) 1 < m)
piece_lt m h = elim (Bool-cases (leb 8 m)) [
  | inl big ↦
      let big' : 8 ≤ m = ground arith in
      let k : min 8 m ≡ 8 = omega arith in
      rw k (let e : m / 8 + min (m % 8) 1 < m = omega arith in e)
  | inr few ↦
      let few' : m < 8 = ground arith in
      let k : min 8 m ≡ m = omega arith in
      rw (k, div_self (let e : 0 < m = omega arith in e), mod_self m) (omega arith)
]

pieces_sum : (m : ℕ) → 1 ≤ m → (let k = min eio_split_factor m in k * (m / k) + m % k ≡ m)
pieces_sum m h = div-add-mod m (min eio_split_factor m)

module _ {ℓ κ} {W : Type ℓ} (read : W → ℕ → ℕ → W × IoResult Block) (base sz : ℕ)
    (P : ℕ → ℕ → Isolation W → Isolation W → Type κ) (rules : Rules read base sz P)
    (pos : 0 < sz) where
  abbrev Ends : Run W → ℕ → ℕ → Isolation W → Type (ℓ ⊔ κ)
  Ends run s m st =
      (st' : Isolation W) × (run (add_u64 base (s * sz)) (s * sz) (m * sz) st ≡ some st')
      × P s m st st'

  -- The run ends on the ranges of fewer sectors than the bound.
  abbrev RunsBelow : Run W → ℕ → Type (ℓ ⊔ κ)
  RunsBelow run bound =
      (s m : ℕ) (st : Isolation W) → m < bound → (s + m) * sz < 2 ^ 64 → Ends run s m st

  below : (s o p m : ℕ) → o + p ≤ m → (s + m) * sz < 2 ^ 64 → (s + o + p) * sz < 2 ^ 64
  below s o p m h lt =
      let e : s + o + p ≤ s + m = omega arith in let f = mul-le-mul_right sz e in omega arith

  -- One piece of the loop.
  split_loop_step :
      (run : Run W) (s b r n i o : ℕ) (st st1 : Isolation W)
      → (let p = b + (if ltb i r then 1 else 0) in
          ((s + o + p) * sz < 2 ^ 64)
          → run (add_u64 base ((s + o) * sz)) ((s + o) * sz) (p * sz) st ≡ some st1
          → split_loop run (add_u64 base (s * sz)) (s * sz) sz b r (suc n) i (o * sz) st
            ≡ split_loop run (add_u64 base (s * sz)) (s * sz) sz b r n (suc i) ((o + p) * sz) st1)
  unfolding split_loop
  split_loop_step run s b r n i o st st1 lt e =
      rw (split_loop, address, start, e, ← add-mul o p sz) refl
    where
      p : ℕ
      p = b + (if ltb i r then 1 else 0)

      address : add_u64 (add_u64 base (s * sz)) (o * sz) ≡ add_u64 base ((s + o) * sz)
      address = add_u64_assoc base (s * sz) (o * sz) ∙ ap (add_u64 base) (sym (add-mul s o sz))

      start : add_u64 (s * sz) (o * sz) ≡ (s + o) * sz
      start = sector_start sz s o p lt

  split_loop-Ends :
      (run : Run W) (bound s m b r n i o : ℕ) (st0 st : Isolation W)
      → RunsBelow run bound
      → (s + m) * sz < 2 ^ 64
      → b + min r 1 < bound
      → o + (n * b + (r - i)) ≡ m
      → r ≤ i + n
      → P s o st0 st
      → (st' : Isolation W) × (split_loop run
            (add_u64 base (s * sz))
            (s * sz)
            sz
            b
            r
            n
            i
            (o * sz)
            st
          ≡ some st')
        × P s m st0 st'
  split_loop-Ends run bound s m b r zero i o st0 st ih lt small sum enough p =
      let e : o ≡ m = omega arith in
      (st, unfold split_loop in refl, subst (λ (t : ℕ). P s t st0 st) e p)
  split_loop-Ends run bound s m b r (suc n) i o st0 st ih lt small sum enough q =
      let (st1, e1, q1) = ih (s + o) p st fits (below s o p m within lt) in
      let (st', e', q') =
        split_loop-Ends run bound s m b r n (suc i) (o + p) st0 st1 ih lt small left (omega arith)
          (rules.joins s o p st0 st st1 q q1) in
      (st', split_loop_step run s b r n i o st st1 (below s o p m within lt) e1 ∙ e', q')
    where
      p : ℕ
      p = b + (if ltb i r then 1 else 0)

      one : (if ltb i r then 1 else 0) + (r - suc i) ≡ r - i
      one = ground arith

      fits : p < bound
      fits = ground arith

      left : o + p + (n * b + (r - suc i)) ≡ m
      left = let e = suc-mul n b in omega (arith, e, one, sum)

      within : o + p ≤ m
      within = omega (arith, left)

  split-Ends :
      (run : Run W) (fuel s m : ℕ) (st : Isolation W)
      → RunsBelow run fuel
      → 2 ≤ m
      → m < suc fuel
      → (s + m) * sz < 2 ^ 64
      → (st' : Isolation W) × (split run (add_u64 base (s * sz)) (s * sz) (m * sz) sz st ≡ some st')
        × P s m st st'
  split-Ends run fuel s m st ih two enough lt =
      let k = min eio_split_factor m in
      let less = piece_lt m two in
      let sum = pieces_sum m (let e : 1 ≤ m = omega arith in e) in
      let rem : m % k < k = mod-lt m (let e : 0 < min 8 m = omega arith in e) in
      let (st', e, p) =
        split_loop-Ends run fuel s m (m / k) (m % k) k 0 0 st st ih lt (omega (arith, less))
          (omega (arith, sum)) (omega (arith, rem)) (rules.empty s st) in
      (st', unfold split in rw (mul-div_cancel m pos) (rw (zero-mul sz) at e), p)

  spent_at_zero :
      (budget : IsolationBudget)
      → ((spend budget).remaining == 0) ≡ true
      → (spend budget).exhausted ≡ true
  unfolding spend
  spent_at_zero budget h = rw h refl

  fail_spent :
      (w : W) (st : Isolation W)
      → ((fail w st).budget.remaining == 0) ≡ true
      → (fail w st).budget.exhausted ≡ true
  unfolding fail
  fail_spent w st h = spent_at_zero st.budget h

  attempted-Ends :
      (run : Run W) (fuel s m : ℕ) (st : Isolation W) (res : W × IoResult Block)
      → RunsBelow run fuel
      → 2 ≤ m
      → m < suc fuel
      → (s + m) * sz < 2 ^ 64
      → st.budget.exhausted ≡ false
      → read st.world (add_u64 base (s * sz)) (m * sz) ≡ res
      → (st' : Isolation W) × (attempted run (add_u64 base (s * sz)) (s * sz) (m * sz) sz st res
          ≡ some st')
        × P s m st st'
  unfolding attempted
  attempted-Ends run fuel s m st (w, ok buf) ih two enough lt alive e = (
    push_good (s * sz) buf w st,
    rw (mul-mod_left s sz, mul-mod_left m sz) refl,
    rules.reads s m st w buf alive e,
  )
  attempted-Ends run fuel s m st (w, err x) ih two enough lt alive e =
      elim (Bool-cases ((fail w st).budget.remaining == 0)) [
        | inl none_left ↦ (
          mark_bad (s * sz) sz m (fail w st),
          rw (none_left, mul-div_cancel m pos) refl,
          rules.fails s m st _ w x alive e
              (rules.spent s m (fail w st) lt (fail_spent w st none_left)),
        )
        | inr some_left ↦
            let (st', f, p) = split-Ends run fuel s m (fail w st) ih two enough lt in
            (st', rw some_left f, rules.fails s m st st' w x alive e p)
      ]

  single-Ends :
      (s : ℕ) (st : Isolation W) (res : W × IoResult Block)
      → st.budget.exhausted ≡ false
      → read st.world (add_u64 base (s * sz)) (1 * sz) ≡ res
      → P s 1 st (single (s * sz) st res)
  unfolding single
  single-Ends s st (w, ok buf) alive e = rules.reads s 1 st w buf alive e
  single-Ends s st (w, err x) alive e = rules.fails_one s st w x alive e

  nonzero : (m : ℕ) → (suc m * sz == 0) ≡ false
  nonzero m = let e = suc-mul m sz in ground arith

  -- Every run on whole sectors with more fuel than sectors ends, and the relation holds of it.
  pub isolate_run-Ends :
      (fuel s m : ℕ) (st : Isolation W)
      → m < fuel
      → (s + m) * sz < 2 ^ 64
      → Ends (isolate_run read sz fuel) s m st
  unfolding isolate_run
  isolate_run-Ends zero s m st enough lt = absurd (omega arith)
  isolate_run-Ends (suc fuel) s zero st enough lt = (st, rw (zero-mul sz) refl, rules.empty s st)
  isolate_run-Ends (suc fuel) s (suc zero) st enough lt = elim (Bool-cases st.budget.exhausted) [
    | inl over ↦ (
      mark_bad (s * sz) sz 1 st,
      if_false _ _ (nonzero 0) ∙ if_true _ _ over ∙ rw (mul-div_cancel 1 pos) refl,
      rules.spent s 1 st lt over,
    )
    | inr alive ↦
        let fits : leb (1 * sz) sz ≡ true = ground arith in
        (
          _,
          if_false _ _ (nonzero 0) ∙ if_false _ _ alive ∙ if_true _ _ fits,
          single-Ends s st _ alive refl,
        )
  ]
  isolate_run-Ends (suc fuel) s (suc (suc m)) st enough lt = elim (Bool-cases st.budget.exhausted) [
    | inl over ↦ (
      mark_bad (s * sz) sz (suc (suc m)) st,
      if_false _ _ (nonzero (suc m))
          ∙ if_true _ _ over
          ∙ rw (mul-div_cancel (suc (suc m)) pos) refl,
      rules.spent s (suc (suc m)) st lt over,
    )
    | inr alive ↦
        let (st', e, p) =
          attempted-Ends (isolate_run read sz fuel) fuel s (suc (suc m)) st _
            (λ s' m' t' h' lt'. isolate_run-Ends fuel s' m' t' h' lt') (omega arith) enough lt alive
            refl in
        (st', if_false _ _ (nonzero (suc m)) ∙ if_false _ _ alive ∙ if_false _ _ (longer m) ∙ e, p)
  ]
    where
      longer : (n : ℕ) → leb (suc (suc n) * sz) sz ≡ false
      longer n = let e = suc-mul (suc n) sz in let f = suc-mul n sz in ground arith

  -- The same from a fresh budget, with the fuel of `isolate_run_read`.
  pub isolate_run_read-Ends :
      (limit m : ℕ) (w : W)
      → base < 2 ^ 64
      → m * sz < 2 ^ 64
      → (st' : Isolation W) × (isolate_run_read read sz limit base (m * sz) w ≡ some st')
        × P 0 m (fresh limit w) st'
  unfolding isolate_run_read
  isolate_run_read-Ends limit m w addr lt =
      let (st', e, p) =
        isolate_run-Ends (suc (m * sz)) 0 m (fresh limit w) enough (rw (zero-add m) lt) in
      (st', rw (zero-mul sz, add_u64-zero base addr) at e, p)
    where
      enough : m < suc (m * sz)
      enough = let e = le-mul_of_pos_right m pos in omega arith
