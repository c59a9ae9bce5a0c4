-- ===== src/Btrfs/Isolation/Partition.antt =====
-- The bytes of the range in what `isolate_run` of scrub-rs/src/btrfs/scrub.rs reports.
use native.Mathlib.Nat.{add-mul, zero-mul, zero-add}
use rotshield.Prelude.{ℕ, ◌+◌, ◌*◌, ◌^◌, ◌<◌, ◌≡◌, ◌∙◌, length, some, arith}
use rotshield.Prelude.Io.{IoError, IoResult, ok, err}
use rotshield.Recovery.Model.{Block}
use rotshield.Array.Config.{add_u64}
use rotshield.Btrfs.Isolation.{Isolation, mark_bad, push_good, fail, single, isolate_run_read}
use rotshield.Btrfs.Isolation.Ranges.{
  within, within_joins, within_empty, hits, lost, hits-append, lost-append, push_sectors-lost,
}
use rotshield.Btrfs.Isolation.Induction.{Rules, isolate_run_read-Ends}

module _ {ℓ} {W : Type ℓ} (read : W → ℕ → ℕ → W × IoResult Block) (base sz : ℕ) where
  -- A read that succeeds gives as many bytes as were asked for.
  abbrev pub ReadsInFull : Type ℓ
  ReadsInFull = (w w' : W) (a n : ℕ) (buf : Block) → read w a n ≡ (w', ok buf) → length buf ≡ n

  abbrev counted : Isolation W → ℕ → ℕ
  counted st x = hits st.good x + lost sz st.bad x

  abbrev Adds : ℕ → ℕ → Isolation W → Isolation W → Type 0
  Adds s m st st' = (x : ℕ) → counted st' x ≡ counted st x + within (s * sz) (m * sz) x

  module _ (full : ReadsInFull) where
    spent-Adds :
        (s m : ℕ) (st : Isolation W)
        → (s + m) * sz < 2 ^ 64
        → Adds s m st (mark_bad (s * sz) sz m st)
    unfolding mark_bad
    spent-Adds s m st lt x =
        let zero_more : s + 0 ≡ s = omega arith in
        let e = push_sectors-lost sz s 0 m st.bad x (rw zero_more lt) in
        omega (arith, rw zero_more at e)

    reads-Adds :
        (s m : ℕ) (st : Isolation W) (w : W) (buf : Block)
        → read st.world (add_u64 base (s * sz)) (m * sz) ≡ (w, ok buf)
        → Adds s m st (push_good (s * sz) buf w st)
    unfolding push_good
    reads-Adds s m st w buf e x =
        let size = full st.world w (add_u64 base (s * sz)) (m * sz) buf e in
        let h = hits-append st.good (s * sz) buf x in omega (arith, rw size at h)

    fails_one-Adds :
        (s : ℕ) (st : Isolation W) (w : W) (e : IoError)
        → Adds s 1 st (single (s * sz) st (w, err e))
    unfolding single fail
    fails_one-Adds s st w e x =
        let one : 1 * sz ≡ sz = omega arith in
        let h = lost-append sz st.bad (s * sz) x in rw one (omega (arith, h))

    joins-Adds :
        (s a b : ℕ) (st st1 st2 : Isolation W)
        → Adds s a st st1
        → Adds (s + a) b st1 st2
        → Adds s (a + b) st st2
    joins-Adds s a b st st1 st2 p q x =
        let h = within_joins (s * sz) (a * sz) (b * sz) x in
        let q' = q x in rw (add-mul a b sz) (omega (arith, h, p x, rw (add-mul s a sz) at q'))

    rules : Rules read base sz Adds
    unfolding fail
    rules = record {
      empty = λ s st x. let e = within_empty (s * sz) x in rw (zero-mul sz) (omega (arith, e));
      spent = λ s m st lt over. spent-Adds s m st lt;
      reads = λ s m st w buf alive e. reads-Adds s m st w buf e;
      fails_one = λ s st w e alive h. fails_one-Adds s st w e;
      fails = λ s m st st' w e alive h p. p;
      joins = joins-Adds;
    }

    -- If a read that succeeds gives as many bytes as were asked for, the range is m whole sectors
    -- of sz > 0 bytes, and its address and length are below 2^64, then `isolate_run_read` ends,
    -- whatever the budget and whichever reads fail, and every byte of the range is in exactly one
    -- of the good regions and bad sectors that it reports, and no byte outside the range is in any.
    pub isolate_run_read-partition :
        (limit m : ℕ) (w : W)
        → 0 < sz
        → base < 2 ^ 64
        → m * sz < 2 ^ 64
        → (st : Isolation W) × (isolate_run_read read sz limit base (m * sz) w ≡ some st)
          × ((x : ℕ) → hits st.good x + lost sz st.bad x ≡ within 0 (m * sz) x)
    unfolding hits lost
    isolate_run_read-partition limit m w pos addr lt =
        let (st, e, p) = isolate_run_read-Ends read base sz Adds rules pos limit m w addr lt in
        (st, e, λ x. let f = p x in (rw (zero-mul sz) at f) ∙ zero-add _)
