-- ===== src/BatchRecover/Writer/Counts.antt =====
-- The counters of scrub-rs/src/batch_recover.rs: how many candidates have been dealt with.
use rotshield.Prelude.{ℕ, ◌+◌, ◌%◌, ◌^◌, ◌≡◌, arith}
use rotshield.Array.Config.{add_u64}
use rotshield.BatchRecover.Writer.{BatchStats, Counter, count}

-- `mismatch` counts on the way; a candidate ends in one of the other buckets, and a duplicate in
-- `deduped`.
abbrev pub dealt_with : BatchStats → ℕ
dealt_with s =
    s.stale + s.recovered + s.failed + s.skipped + s.not_frozen + s.readback_failed + s.not_corrupt
    + s.deduped

-- The sum of the buckets grows by n, up to the wrap of 64 bits.
abbrev pub Grows : ℕ → BatchStats → BatchStats → Type 0
Grows n s s' = dealt_with s' % 2 ^ 64 ≡ (dealt_with s + n) % 2 ^ 64

-- The buckets in which a candidate ends.
abbrev pub Ends : Counter → Type 0
Ends Counter.mismatch = ⊥
Ends Counter.stale = Unit
Ends Counter.recovered = Unit
Ends Counter.failed = Unit
Ends Counter.skipped = Unit
Ends Counter.not_frozen = Unit
Ends Counter.readback_failed = Unit
Ends Counter.not_corrupt = Unit

pub count-Grows : (c : Counter) (s : BatchStats) → Ends c → Grows 1 s (count c s)
unfolding count add_u64
count-Grows Counter.mismatch s h = absurd h
count-Grows Counter.stale s h = omega arith
count-Grows Counter.recovered s h = omega arith
count-Grows Counter.failed s h = omega arith
count-Grows Counter.skipped s h = omega arith
count-Grows Counter.not_frozen s h = omega arith
count-Grows Counter.readback_failed s h = omega arith
count-Grows Counter.not_corrupt s h = omega arith

pub mismatch-Grows : (s : BatchStats) → Grows 0 s (count Counter.mismatch s)
unfolding count
mismatch-Grows s = omega arith

pub Grows-join :
    (a b : ℕ) (s s' s'' : BatchStats) → Grows a s s' → Grows b s' s'' → Grows (a + b) s s''
Grows-join a b s s' s'' h k = omega arith

pub deduped-Grows :
    (n : ℕ) (s : BatchStats) → Grows n s (record s { deduped = add_u64 s.deduped n })
unfolding add_u64
deduped-Grows n s = omega arith
