-- ===== src/Freeze/Window.antt =====
-- The window of one batch under the controller of scrub-rs/src/freeze.rs: a guard and its drop.
use rotshield.Prelude.{
  ◌≡◌, refl, sym, subst, ◌∙◌, Bool-cases, ap, ◌⊎◌, inl, inr, Bool, true, false, Option, none, some,
  if◌then◌else◌, not,
}
use rotshield.Prelude.Io.{IoError, IoResult, ok, err}
use rotshield.Array.Config.{FilePath}
use rotshield.Freeze.{
  called, ioctl_path, FreezeGuard, System, Call, guarded, guard_at, guard, thawed, thaw_at, thaw,
}

module _ {ℓ} {K : Type ℓ} (freeze_path thaw_path : Call K) (is_frozen : K → FilePath → Bool) where
  -- What the two calls document: one that succeeds leaves the file system frozen, or thawed, and one
  -- that fails leaves it as it was.
  pub record IsKernel : Type ℓ where
    pub freezes :
        (k k' : K) (m : FilePath) (u : Unit {0})
        → freeze_path k m ≡ (k', ok u)
        → is_frozen k' m ≡ true
    pub keeps :
        (k k' : K) (m : FilePath) (e : IoError)
        → freeze_path k m ≡ (k', err e)
        → is_frozen k' m ≡ is_frozen k m
    pub thaws :
        (k k' : K) (m : FilePath) (u : Unit {0})
        → thaw_path k m ≡ (k', ok u)
        → is_frozen k' m ≡ false
    pub stays :
        (k k' : K) (m : FilePath) (e : IoError)
        → thaw_path k m ≡ (k', err e)
        → is_frozen k' m ≡ is_frozen k m

  -- The controller knows whether its file system is frozen.
  abbrev pub Knows : FilePath → System K → Type 0
  Knows m s = (s.controller.mountpoint ≡ some m) × (s.controller.frozen ≡ is_frozen s.kernel m)

  -- What a guard says of the file system.
  abbrev pub Tells : FilePath → System K × IoResult (Option FreezeGuard) → Type 0
  Tells m (s, ok (some g)) = is_frozen s.kernel m ≡ true
  Tells m (s, ok none) = ⊥
  Tells m (s, err e) = is_frozen s.kernel m ≡ false

  -- After a thaw the file system is not frozen, or the failure is recorded and `frozen` still set.
  abbrev pub ThawedOrTold : FilePath → System K → Type 0
  ThawedOrTold m s =
      ((s.controller.frozen ≡ false) × (is_frozen s.kernel m ≡ false))
      ⊎ ((s.controller.frozen ≡ true) × ((e : IoError) × (s.controller.last_thaw_error ≡ some e)))

  module _ (kernel : IsKernel) where
    guarded-Knows :
        (m : FilePath) (s : System K) (res : K × IoResult (Unit {0}))
        → freeze_path s.kernel m ≡ res
        → Knows m s
        → s.controller.frozen ≡ false
        → Knows m (guarded m s res).0 × Tells m (guarded m s res)
    unfolding guarded
    guarded-Knows m s (k, ok u) e knows off =
        let now = kernel.freezes s.kernel k m u e in ((knows.0, cc), now)
    guarded-Knows m s (k, err x) e knows off =
        let same = kernel.keeps s.kernel k m x e in ((knows.0, cc), cc)

    thawed-Knows :
        (m : FilePath) (s : System K) (res : K × IoResult (Unit {0}))
        → thaw_path s.kernel m ≡ res
        → Knows m s
        → s.controller.frozen ≡ true
        → Knows m (thawed s res) × ThawedOrTold m (thawed s res)
    unfolding thawed
    thawed-Knows m s (k, ok u) e knows on =
        let now = kernel.thaws s.kernel k m u e in ((knows.0, cc), inl (refl, now))
    thawed-Knows m s (k, err x) e knows on =
        let same = kernel.stays s.kernel k m x e in ((knows.0, cc), inr (on, (x, refl)))

    pub thaw-Knows :
        (m : FilePath) (s : System K)
        → Knows m s
        → Knows m (thaw thaw_path s) × ThawedOrTold m (thaw thaw_path s)
    unfolding thaw thaw_at
    thaw-Knows m s knows = elim (Bool-cases s.controller.frozen) [
      | inl on ↦
          let step : thaw thaw_path s ≡ thawed s (thaw_path s.kernel m) =
            ap (λ b. if not b then s else thaw_at thaw_path s s.controller.mountpoint) on
            ∙ ap (thaw_at thaw_path s) knows.0 in
          subst (λ (t : System K). Knows m t × ThawedOrTold m t) (sym step)
            (thawed-Knows m s (thaw_path s.kernel m) refl knows on)
      | inr off ↦
          let step : thaw thaw_path s ≡ s =
            ap (λ b. if not b then s else thaw_at thaw_path s s.controller.mountpoint) off in
          subst (λ (t : System K). Knows m t × ThawedOrTold m t) (sym step)
            (knows, inl (off, sym knows.1 ∙ off))
    ]

    pub guard-Knows :
        (m : FilePath) (s : System K)
        → Knows m s
        → s.controller.frozen ≡ false
        → Knows m (guard freeze_path s).0 × Tells m (guard freeze_path s)
    unfolding guard guard_at
    guard-Knows m s knows off =
        let step : guard freeze_path s ≡ guarded m s (freeze_path s.kernel m) =
          ap (guard_at freeze_path s) knows.0 in
        subst (λ (t : System K × IoResult (Option FreezeGuard)). Knows m t.0 × Tells m t) (sym step)
          (guarded-Knows m s (freeze_path s.kernel m) refl knows off)

module _ {ℓ} {K : Type ℓ} (opens : K → FilePath → Bool) (fifreeze fithaw : K → FilePath → K × Bool)
    (is_frozen : K → FilePath → Bool) where
  -- What the two calls document: one that succeeds leaves the file system frozen, or thawed, and one
  -- that fails leaves it as it was.
  pub record IsIoctl : Type ℓ where
    pub freezes : (k k' : K) (m : FilePath) → fifreeze k m ≡ (k', true) → is_frozen k' m ≡ true
    pub keeps :
        (k k' : K) (m : FilePath) → fifreeze k m ≡ (k', false) → is_frozen k' m ≡ is_frozen k m
    pub thaws : (k k' : K) (m : FilePath) → fithaw k m ≡ (k', true) → is_frozen k' m ≡ false
    pub stays :
        (k k' : K) (m : FilePath) → fithaw k m ≡ (k', false) → is_frozen k' m ≡ is_frozen k m

  abbrev pub freeze_path : Call K
  freeze_path = ioctl_path opens fifreeze

  abbrev pub thaw_path : Call K
  thaw_path = ioctl_path opens fithaw

  called-ok :
      (ioctl : K × Bool) (k' : K) (u : Unit {0}) → called ioctl ≡ (k', ok u) → ioctl ≡ (k', true)
  unfolding called
  called-ok (k, true) k' u e = cc
  called-ok (k, false) k' u e = absurd (cc)

  called-err :
      (ioctl : K × Bool) (k' : K) (x : IoError) → called ioctl ≡ (k', err x) → ioctl ≡ (k', false)
  unfolding called
  called-err (k, true) k' x e = absurd (cc)
  called-err (k, false) k' x e = cc

  path-ok :
      (ioctl : K → FilePath → K × Bool) (k k' : K) (m : FilePath) (u : Unit {0})
      → ioctl_path opens ioctl k m ≡ (k', ok u)
      → ioctl k m ≡ (k', true)
  unfolding ioctl_path
  path-ok ioctl k k' m u e = elim (Bool-cases (opens k m)) [
    | inl open_ok ↦ called-ok (ioctl k m) k' u (rw open_ok at e)
    | inr shut ↦ absurd (cc (rw shut at e))
  ]

  path-err :
      (ioctl : K → FilePath → K × Bool) (k k' : K) (m : FilePath) (x : IoError)
      → ioctl_path opens ioctl k m ≡ (k', err x)
      → (k ≡ k') ⊎ (ioctl k m ≡ (k', false))
  unfolding ioctl_path
  path-err ioctl k k' m x e = elim (Bool-cases (opens k m)) [
    | inl open_ok ↦ inr (called-err (ioctl k m) k' x (rw open_ok at e))
    | inr shut ↦ inl (ap (λ p. p.0) (rw shut at e))
  ]

  module _ (laws : IsIoctl) where
    pub kernel : IsKernel freeze_path thaw_path is_frozen
    kernel = record {
      freezes = λ k k' m u e. laws.freezes k k' m (path-ok fifreeze k k' m u e);
      keeps = λ k k' m x e. elim (path-err fifreeze k k' m x e) [
        | inl same ↦ ap (λ t. is_frozen t m) (sym same)
        | inr failed ↦ laws.keeps k k' m failed
      ];
      thaws = λ k k' m u e. laws.thaws k k' m (path-ok fithaw k k' m u e);
      stays = λ k k' m x e. elim (path-err fithaw k k' m x e) [
        | inl same ↦ ap (λ t. is_frozen t m) (sym same)
        | inr failed ↦ laws.stays k k' m failed
      ];
    }

    -- Suppose the kernel's two ioctl calls do what they document, the controller has the mountpoint
    -- m and no freeze is held. Then a guard that is given out means that m is frozen, and an error
    -- that it is not; and after the guard is dropped m is not frozen, or the controller has
    -- recorded the error and still counts the freeze as held. `frozen` agrees with the kernel at
    -- both points.
    pub guard-thaw :
        (m : FilePath) (s : System K)
        → Knows freeze_path thaw_path is_frozen m s
        → s.controller.frozen ≡ false
        → Knows freeze_path thaw_path is_frozen m (guard freeze_path s).0
          × Tells freeze_path thaw_path is_frozen m (guard freeze_path s)
          × Knows freeze_path thaw_path is_frozen m (thaw thaw_path (guard freeze_path s).0)
          × ThawedOrTold freeze_path thaw_path is_frozen m (thaw thaw_path (guard freeze_path s).0)
    guard-thaw m s knows off =
        let (now, tells) = guard-Knows freeze_path thaw_path is_frozen kernel m s knows off in
        let (then_knows, told) =
          thaw-Knows freeze_path thaw_path is_frozen kernel m (guard freeze_path s).0 now in
        (now, tells, then_knows, told)
