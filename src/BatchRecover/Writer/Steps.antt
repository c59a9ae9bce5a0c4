-- ===== src/BatchRecover/Writer/Steps.antt =====
-- What the writer of scrub-rs/src/batch_recover.rs does to the world, as a relation: it asks the
-- reconfirmer, looks at the clock, drops caches, and writes verified blocks where writes are
-- allowed. `MayWrite` is what holds of the candidate and of the world at a write.
use rotshield.Prelude.{ℕ, ◌≡◌, subst, Bool, true, false}
use rotshield.Recovery.Model.{Block}
use rotshield.Recovery.Engine.Blocks.{IsBlock}
use rotshield.Array.Config.{FilePath, ArrayConfig}
use rotshield.Fs.{ReconfirmRequest}
use rotshield.BatchRecover.Writer.{Candidate, Kernel, write_block, drop_cache}

module _ {ℓ} {W : Type ℓ} (kernel : Kernel W) (cfg : ArrayConfig) (dry_run writes_allowed : Bool)
    (MayWrite : Candidate → W → Type 0) where
  pub data Step (w w' : W) : Type ℓ where
    asked : (req : ReconfirmRequest) → (kernel.reconfirm w req).0 ≡ w' → Step w w'
    waited : (began : W) → (kernel.timed_out began w).0 ≡ w' → Step w w'
    cache_dropped : (dev : FilePath) → (drop_cache kernel dev w).0 ≡ w' → Step w w'
    wrote :
        (cand : Candidate) (block : Block)
        → MayWrite cand w
        → dry_run ≡ false
        → writes_allowed ≡ true
        → IsBlock cand.block_size block
        → cand.verify block ≡ true
        → (write_block kernel cfg cand.failing_dev cand.array_phys block w).0 ≡ w'
        → Step w w'

  pub data Steps (w : W) : W → Type ℓ where
    here : Steps w w
    next : {u v : W} → Steps w u → Step u v → Steps w v

  pub Steps-trans : {u v w : W} → Steps u v → Steps v w → Steps u w
  Steps-trans a here = a
  Steps-trans a (next b s) = next (Steps-trans a b) s

module _ {ℓ} {W : Type ℓ} (kernel : Kernel W) (cfg : ArrayConfig) (Inv : W → Type 0) where
  -- The steps keep the invariant.
  pub record Keeps : Type ℓ where
    pub asking : (w : W) (req : ReconfirmRequest) → Inv w → Inv ((kernel.reconfirm w req).0)
    pub waiting : (began w : W) → Inv w → Inv ((kernel.timed_out began w).0)
    pub dropping : (w : W) (dev : FilePath) → Inv w → Inv ((drop_cache kernel dev w).0)
    pub writing :
        (w : W) (dev : FilePath) (phys : ℕ) (block : Block)
        → Inv w
        → Inv ((write_block kernel cfg dev phys block w).0)

module _ {ℓ} {W : Type ℓ} (kernel : Kernel W) (cfg : ArrayConfig) (dry_run writes_allowed : Bool)
    (MayWrite : Candidate → W → Type 0) where
  -- Where writes are not allowed, there is none.
  Step-forbidden :
      (Any : Candidate → W → Type 0) (u v : W)
      → writes_allowed ≡ false
      → Step kernel cfg dry_run writes_allowed MayWrite u v
      → Step kernel cfg dry_run writes_allowed Any u v
  Step-forbidden Any u v off (asked req e) = asked req e
  Step-forbidden Any u v off (waited began e) = waited began e
  Step-forbidden Any u v off (cache_dropped dev e) = cache_dropped dev e
  Step-forbidden Any u v off (wrote cand block may wet allowed size verified e) = absurd (cc)

  pub Steps-forbidden :
      (Any : Candidate → W → Type 0) (w w' : W)
      → writes_allowed ≡ false
      → Steps kernel cfg dry_run writes_allowed MayWrite w w'
      → Steps kernel cfg dry_run writes_allowed Any w w'
  Steps-forbidden Any w w' off here = here
  Steps-forbidden Any w w' off (next {u = u} trace step) =
      next (Steps-forbidden Any w u off trace) (Step-forbidden Any u w' off step)

module _ {ℓ} {W : Type ℓ} (kernel : Kernel W) (cfg : ArrayConfig) (dry_run writes_allowed : Bool)
    (MayWrite : Candidate → W → Type 0) (Inv : W → Type 0) where
  -- So it holds at every write.
  abbrev Kept : W → W → Type ℓ
  Kept = Step kernel cfg dry_run writes_allowed (λ c u. MayWrite c u × Inv u)

  Step-strengthen :
      (u v : W)
      → Keeps kernel cfg Inv
      → Inv u
      → Step kernel cfg dry_run writes_allowed MayWrite u v
      → Kept u v × Inv v
  Step-strengthen u v keeps inv (asked req e) = (asked req e, subst Inv e (keeps.asking u req inv))
  Step-strengthen u v keeps inv (waited began e) =
      (waited began e, subst Inv e (keeps.waiting began u inv))
  Step-strengthen u v keeps inv (cache_dropped dev e) =
      (cache_dropped dev e, subst Inv e (keeps.dropping u dev inv))
  Step-strengthen u v keeps inv (wrote cand block may wet allowed size verified e) = (
    wrote cand block (may, inv) wet allowed size verified e,
    subst Inv e (keeps.writing u cand.failing_dev cand.array_phys block inv),
  )

  pub Steps-strengthen :
      (w w' : W)
      → Keeps kernel cfg Inv
      → Inv w
      → Steps kernel cfg dry_run writes_allowed MayWrite w w'
      → Steps kernel cfg dry_run writes_allowed (λ c u. MayWrite c u × Inv u) w w' × Inv w'
  Steps-strengthen w w' keeps start here = (here, start)
  Steps-strengthen w w' keeps start (next {u = u} trace step) =
      let (trace', inv) = Steps-strengthen w u keeps start trace in
      let (step', inv') = Step-strengthen u w' keeps inv step in (next trace' step', inv')
