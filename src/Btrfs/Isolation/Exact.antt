-- ===== src/Btrfs/Isolation/Exact.antt =====
-- The reads behind what `isolate_run` of scrub-rs/src/btrfs/scrub.rs reports.
use rotshield.Prelude.{ℕ, ◌*◌, ◌^◌, ◌<◌, ◌≡◌, false, All, All-append, some, arith}
use rotshield.Prelude.Io.{IoError, IoResult, ok, err}
use rotshield.Recovery.Model.{Block}
use rotshield.Array.Config.{add_u64}
use rotshield.Btrfs.Isolation.{Isolation, mark_bad, push_good, fail, single, isolate_run_read}
use rotshield.Btrfs.Isolation.Induction.{Rules, isolate_run_read-Ends}

module _ {ℓ} {W : Type ℓ} (read : W → ℕ → ℕ → W × IoResult Block) (base sz : ℕ) where
  -- Some read at the region's address gave its bytes.
  abbrev pub WasRead : ℕ × Block → Type ℓ
  WasRead region = (w w' : W) × (n : ℕ) × (read w (add_u64 base region.0) n ≡ (w', ok region.1))

  -- Some read of this sector alone failed.
  abbrev pub HasFailed : ℕ → Type ℓ
  HasFailed o = (w w' : W) × (e : IoError) × (read w (add_u64 base o) sz ≡ (w', err e))

  abbrev pub IsExact : Isolation W → Type ℓ
  IsExact st = All WasRead st.good × (st.budget.exhausted ≡ false → All HasFailed st.bad)

  abbrev Preserves : ℕ → ℕ → Isolation W → Isolation W → Type ℓ
  Preserves s m st st' = IsExact st → IsExact st'

  reads_exact :
      (s m : ℕ) (st : Isolation W) (w : W) (buf : Block)
      → read st.world (add_u64 base (s * sz)) (m * sz) ≡ (w, ok buf)
      → Preserves s m st (push_good (s * sz) buf w st)
  unfolding push_good
  reads_exact s m st w buf e exact =
      (All-append WasRead st.good _ exact.0 ((st.world, w, m * sz, e), tt), exact.1)

  fails_one_exact :
      (s : ℕ) (st : Isolation W) (w : W) (e : IoError)
      → st.budget.exhausted ≡ false
      → read st.world (add_u64 base (s * sz)) (1 * sz) ≡ (w, err e)
      → Preserves s 1 st (single (s * sz) st (w, err e))
  unfolding single fail
  fails_one_exact s st w e alive h exact =
      let one : 1 * sz ≡ sz = omega arith in
      (
        exact.0,
        λ more. All-append HasFailed st.bad _ (exact.1 alive) ((st.world, w, e, rw one at h), tt),
      )

  rules : Rules read base sz Preserves
  unfolding mark_bad fail
  rules = record {
    empty = λ s st exact. exact;
    spent = λ s m st lt over exact. (exact.0, λ alive. absurd (cc));
    reads = λ s m st w buf alive e. reads_exact s m st w buf e;
    fails_one = fails_one_exact;
    fails = λ s m st st' w e alive h p exact. p (exact.0, λ more. exact.1 alive);
    joins = λ s a b st st1 st2 p q exact. q (p exact);
  }

  -- If the range is m whole sectors of sz > 0 bytes and its address and length are below 2^64, then
  -- `isolate_run_read` ends; each good region that it reports is what a read at its address gave,
  -- and unless the run counts as truncated, for each bad sector a read of just that sector failed.
  pub isolate_run_read-IsExact :
      (limit m : ℕ) (w : W)
      → 0 < sz
      → base < 2 ^ 64
      → m * sz < 2 ^ 64
      → (st : Isolation W) × (isolate_run_read read sz limit base (m * sz) w ≡ some st) × IsExact st
  isolate_run_read-IsExact limit m w pos addr lt =
      let (st, e, p) = isolate_run_read-Ends read base sz Preserves rules pos limit m w addr lt in
      (st, e, p (tt, λ alive. tt))
