-- ===== src/Btrfs/Isolation.antt =====
-- The isolation of unreadable sectors in scrub-rs/src/btrfs/scrub.rs: a range that does not read is
-- split until each failing sector is found, or until the budget of failing reads is spent. `read`
-- is the parameter of the source, a closure with a state of its own. The recursion is on fuel:
-- `none` is a run that needed more.
pub mod Ranges
pub mod Induction
pub mod Partition
pub mod Spending
pub mod Exact
mod Tests
use rotshield.Prelude.{
  ℕ, zero, suc, ◌+◌, ◌-◌, ◌*◌, ◌/◌, ◌%◌, min, leb, ltb, ◌==◌, ◌&&◌, if◌then◌else◌, Bool, true,
  false, List, [], ◌∷◌, ◌++◌, Option, none, some,
}
use rotshield.Prelude.Io.{IoError, IoResult, ok, err}
use rotshield.Recovery.Model.{Block}
use rotshield.Array.Config.{add_u64}

abbrev pub eio_split_factor : ℕ
eio_split_factor = 8

abbrev pub max_isolation_failing_reads : ℕ
max_isolation_failing_reads = 64

pub record IsolationBudget : Type 0 where
  pub remaining : ℕ
  pub exhausted : Bool

-- The limit is `max_isolation_failing_reads` or a positive number of the environment.
abbrev pub new_budget : ℕ → IsolationBudget
new_budget limit = record { remaining = limit; exhausted = false }

-- What a run changes: the state of `read`, the budget, and the two vectors.
pub record Isolation {ℓ} (W : Type ℓ) : Type ℓ where
  pub world : W
  pub budget : IsolationBudget
  pub good : List (ℕ × Block)
  pub bad : List ℕ

-- Empty vectors and a new budget.
abbrev pub fresh {ℓ} : {W : Type ℓ} → ℕ → W → Isolation W
fresh limit w = record { world = w; budget = new_budget limit; good = []; bad = [] }

-- `budget.remaining.saturating_sub(1)`, and the budget is spent at 0.
unfoldable pub spend : IsolationBudget → IsolationBudget
spend budget = record {
  remaining = budget.remaining - 1;
  exhausted = if budget.remaining - 1 == 0 then true else budget.exhausted;
}

-- `for i in 0..nsec { bad.push(start + i * sz) }` from i on, for the n that are left.
unfoldable pub push_sectors : ℕ → ℕ → ℕ → ℕ → List ℕ → List ℕ
push_sectors start sz i zero bad = bad
push_sectors start sz i (suc n) bad =
    push_sectors start sz (suc i) n (bad ++ add_u64 start (i * sz) ∷ [])

-- A run at an address, a start and a length.
abbrev pub Run {ℓ} : Type ℓ → Type ℓ
Run W = ℕ → ℕ → ℕ → Isolation W → Option (Isolation W)

module _ {ℓ} {W : Type ℓ} where
  unfoldable pub mark_bad : ℕ → ℕ → ℕ → Isolation W → Isolation W
  mark_bad start sz nsec state = record {
    world = state.world;
    budget = state.budget;
    good = state.good;
    bad = push_sectors start sz 0 nsec state.bad;
  }

  unfoldable pub push_good : ℕ → Block → W → Isolation W → Isolation W
  push_good start buf w state = record {
    world = w;
    budget = state.budget;
    good = state.good ++ (start, buf) ∷ [];
    bad = state.bad;
  }

  -- A read has failed.
  unfoldable pub fail : W → Isolation W → Isolation W
  fail w state = record {
    world = w;
    budget = spend state.budget;
    good = state.good;
    bad = state.bad;
  }

  unfoldable pub single : ℕ → Isolation W → W × IoResult Block → Isolation W
  single start state (w, ok buf) = push_good start buf w state
  single start state (w, err e) =
      let failed = fail w state in
      record {
        world = failed.world;
        budget = failed.budget;
        good = failed.good;
        bad = failed.bad ++ start ∷ [];
      }

  -- The loop over the pieces from the i-th on, for the n that are left.
  pub split_loop : Run W → ℕ → ℕ → ℕ → ℕ → ℕ → ℕ → ℕ → ℕ → Isolation W → Option (Isolation W)
  split_loop run phys start sz base rem zero i off state = some state
  split_loop run phys start sz base rem (suc n) i off state =
      let piece_len = (base + (if ltb i rem then 1 else 0)) * sz in
      elim (run (add_u64 phys off) (add_u64 start off) piece_len state) [
        | none ↦ none
        | some state' ↦ split_loop run phys start sz base rem n (suc i) (off + piece_len) state'
      ]

  pub split : Run W → ℕ → ℕ → ℕ → ℕ → Isolation W → Option (Isolation W)
  split run phys start len sz state =
      let nsec = len / sz in
      let k = min eio_split_factor nsec in
      split_loop run phys start sz (nsec / k) (nsec % k) k 0 0 state

  -- The read of the whole range, of more than one sector, has been tried.
  pub attempted : Run W → ℕ → ℕ → ℕ → ℕ → Isolation W → W × IoResult Block → Option (Isolation W)
  attempted run phys start len sz state (w, ok buf) =
      if start % sz == 0 && len % sz == 0
      then some (push_good start buf w state)
      else split run phys start len sz
          (record { world = w; budget = state.budget; good = state.good; bad = state.bad })
  attempted run phys start len sz state (w, err e) =
      let failed = fail w state in
      if failed.budget.remaining == 0
      then some (mark_bad start sz (len / sz) failed)
      else split run phys start len sz failed

  module _ (read : W → ℕ → ℕ → W × IoResult Block) (sector_size : ℕ) where
    pub isolate_run : ℕ → Run W
    isolate_run zero phys start len state = none
    isolate_run (suc fuel) phys start len state =
        let run = isolate_run fuel in
        if len == 0
        then some state
        else if state.budget.exhausted
        then some (mark_bad start sector_size (len / sector_size) state)
        else if leb len sector_size
        then some (single start state (read state.world phys len))
        else attempted run phys start len sector_size state (read state.world phys len)

    -- A command of the reader thread: the range of `len` bytes at `off`, with a fresh budget. The
    -- response has the two vectors of the last state, and `exhausted` as its `isolation_truncated`.
    pub isolate_run_read : ℕ → ℕ → ℕ → W → Option (Isolation W)
    isolate_run_read limit off len w = isolate_run (suc len) off 0 len (fresh limit w)
