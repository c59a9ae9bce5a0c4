-- ===== src/Freeze.antt =====
-- The freeze controller of scrub-rs/src/freeze.rs. The kernel is a state with the two `ioctl` calls
-- FIFREEZE and FITHAW, which are parameters; `active_mount` is the static that the panic hook and
-- the signal handlers read, which are themselves left out.
pub mod Window
mod Tests
use rotshield.Prelude.{Bool, true, false, not, if◌then◌else◌, Option, none, some}
use rotshield.Prelude.Io.{IoError, open_failed, ioctl_failed, IoResult, ok, err}
use rotshield.Array.Config.{FilePath}

pub record FreezeController : Type 0 where
  pub mountpoint : Option FilePath
  pub frozen : Bool
  pub last_thaw_error : Option IoError

abbrev pub new_controller : Option FilePath → FreezeController
new_controller mountpoint = record {
  mountpoint = mountpoint;
  frozen = false;
  last_thaw_error = none;
}

pub data FreezeGuard : Type 0 where
  held : FreezeGuard

-- The controller, the static and the kernel.
pub record System {ℓ} (K : Type ℓ) : Type ℓ where
  pub controller : FreezeController
  pub active_mount : Option FilePath
  pub kernel : K

-- A call of the kernel, which may fail.
abbrev pub Call {ℓ} : Type ℓ → Type ℓ
Call K = K → FilePath → K × IoResult (Unit {0})

module _ {ℓ} {K : Type ℓ} where
  -- `freeze_path` and `thaw_path`: open the mountpoint and call the `ioctl`, which succeeds where
  -- the Boolean is true. The first argument says which paths open.
  unfoldable pub called : K × Bool → K × IoResult (Unit {0})
  called (k, true) = (k, ok tt)
  called (k, false) = (k, err ioctl_failed)

  unfoldable pub ioctl_path : (K → FilePath → Bool) → (K → FilePath → K × Bool) → Call K
  ioctl_path opens ioctl k mountpoint =
      if opens k mountpoint then called (ioctl k mountpoint) else (k, err open_failed)

  unfoldable pub guarded :
      FilePath → System K → K × IoResult (Unit {0}) → System K × IoResult (Option FreezeGuard)
  guarded mountpoint system (k, ok u) = (
    record {
      controller = record {
        mountpoint = system.controller.mountpoint;
        frozen = true;
        last_thaw_error = system.controller.last_thaw_error;
      };
      active_mount = some mountpoint;
      kernel = k;
    },
    ok (some held),
  )
  guarded mountpoint system (k, err e) = (
    record { controller = system.controller; active_mount = system.active_mount; kernel = k },
    err e,
  )

  unfoldable pub guard_at :
      Call K → System K → Option FilePath → System K × IoResult (Option FreezeGuard)
  guard_at freeze_path system none = (system, ok none)
  guard_at freeze_path system (some mountpoint) =
      guarded mountpoint system (freeze_path system.kernel mountpoint)

  unfoldable pub guard : Call K → System K → System K × IoResult (Option FreezeGuard)
  guard freeze_path system = guard_at freeze_path system system.controller.mountpoint

  unfoldable pub thawed : System K → K × IoResult (Unit {0}) → System K
  thawed system (k, ok u) = record {
    controller = record {
      mountpoint = system.controller.mountpoint;
      frozen = false;
      last_thaw_error = system.controller.last_thaw_error;
    };
    active_mount = none;
    kernel = k;
  }
  thawed system (k, err e) = record {
    controller = record {
      mountpoint = system.controller.mountpoint;
      frozen = system.controller.frozen;
      last_thaw_error = some e;
    };
    active_mount = system.active_mount;
    kernel = k;
  }

  unfoldable pub thaw_at : Call K → System K → Option FilePath → System K
  thaw_at thaw_path system none = thawed system (system.kernel, ok tt)
  thaw_at thaw_path system (some mountpoint) = thawed system (thaw_path system.kernel mountpoint)

  -- The drop of a guard, and of the controller, is a `thaw`.
  unfoldable pub thaw : Call K → System K → System K
  thaw thaw_path system =
      if not system.controller.frozen
      then system
      else thaw_at thaw_path system system.controller.mountpoint

  unfoldable pub take_thaw_error : System K → System K × Option IoError
  take_thaw_error system = (
    record {
      controller = record {
        mountpoint = system.controller.mountpoint;
        frozen = system.controller.frozen;
        last_thaw_error = none;
      };
      active_mount = system.active_mount;
      kernel = system.kernel;
    },
    system.controller.last_thaw_error,
  )
