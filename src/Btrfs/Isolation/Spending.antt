-- ===== src/Btrfs/Isolation/Spending.antt =====
-- The budget of `isolate_run` of scrub-rs/src/btrfs/scrub.rs and the count of the reads that fail.
use rotshield.Prelude.{ℕ, ◌+◌, ◌*◌, ◌^◌, ◌≤◌, ◌<◌, ◌≡◌, refl, ◌∙◌, ◌==◌, false, suc, some, arith}
use rotshield.Prelude.Io.{IoError, IoResult, ok, err}
use rotshield.Recovery.Model.{Block}
use rotshield.Btrfs.Isolation.{
  IsolationBudget, Isolation, spend, mark_bad, push_good, fail, single, isolate_run_read,
}
use rotshield.Btrfs.Isolation.Induction.{Rules, isolate_run_read-Ends}

module _ {ℓ} {W : Type ℓ} (read : W → ℕ → ℕ → W × IoResult Block) (base sz : ℕ)
    (failures : W → ℕ) where
  -- The count of the reader's failures: a read that fails adds one, any other leaves it.
  abbrev pub Counts : Type ℓ
  Counts =
      ((w w' : W) (a n : ℕ) (buf : Block) → read w a n ≡ (w', ok buf) → failures w' ≡ failures w)
      × ((w w' : W) (a n : ℕ) (e : IoError)
          → read w a n ≡ (w', err e)
          → failures w' ≡ suc (failures w))

  -- The budget is marked as spent just when nothing is left of it.
  abbrev Consistent : IsolationBudget → Type 0
  Consistent budget = (budget.exhausted ≡ (budget.remaining == 0))

  abbrev Conserves : ℕ → ℕ → Isolation W → Isolation W → Type 0
  Conserves s m st st' =
      Consistent st.budget
      → Consistent st'.budget
        × (failures st'.world + st'.budget.remaining ≡ failures st.world + st.budget.remaining)

  module _ (counts : Counts) where
    fails_conserve :
        (s m : ℕ) (st : Isolation W) (w : W) (e : IoError) (a n : ℕ)
        → st.budget.exhausted ≡ false
        → read st.world a n ≡ (w, err e)
        → Conserves s m st (fail w st)
    unfolding fail spend
    fails_conserve s m st w e a n alive h con =
        let one = counts.1 st.world w a n e h in
        let more : 0 < st.budget.remaining = ground arith in (ground arith, omega (arith, one))

    rules : Rules read base sz Conserves
    unfolding mark_bad push_good single
    rules = record {
      empty = λ s st con. (con, refl);
      spent = λ s m st lt over con. (con, refl);
      reads = λ s m st w buf alive e con.
          let same = counts.0 st.world w _ _ buf e in (con, omega (arith, same));
      fails_one = λ s st w e alive h. fails_conserve s 1 st w e _ _ alive h;
      fails = λ s m st st' w e alive h p con.
          let (c, f) = fails_conserve s m st w e _ _ alive h con in
          let (c', f') = p c in (c', omega (arith, f, f'));
      joins = λ s a b st st1 st2 p q con.
          let (c, f) = p con in let (c', f') = q c in (c', omega (arith, f, f'));
    }

    -- If the range is m whole sectors of sz > 0 bytes, its address and length are below 2^64, and
    -- the limit is positive, then `isolate_run_read` ends; no more reads fail in it than the limit,
    -- and the run counts as truncated just when exactly as many do.
    pub isolate_run_read-budget :
        (limit m : ℕ) (w : W)
        → 0 < sz
        → base < 2 ^ 64
        → m * sz < 2 ^ 64
        → 0 < limit
        → (st : Isolation W) × (isolate_run_read read sz limit base (m * sz) w ≡ some st)
          × (failures st.world ≤ failures w + limit)
          × (st.budget.exhausted ≡ (failures st.world == failures w + limit))
    isolate_run_read-budget limit m w pos addr lt some_left =
        let (st, e, p) = isolate_run_read-Ends read base sz Conserves rules pos limit m w addr lt in
        let start : false ≡ (limit == 0) = ground arith in
        let (con, f) = p start in
        (
          st,
          e,
          omega (arith, f),
          con ∙ same st.budget.remaining (failures st.world) (failures w + limit) f,
        )
      where
        same : (r a b : ℕ) → a + r ≡ b → (r == 0) ≡ (a == b)
        same r a b h = ground arith
