-- ===== src/Freeze/Tests.antt =====
-- Tests and instances for scrub-rs/src/freeze.rs: a kernel that knows whether the one file system is
-- frozen, and refuses to freeze it twice.
use rotshield.Prelude.{◌≡◌, refl, Bool, true, false, none, some}
use rotshield.Array.Config.{FilePath}
use rotshield.Freeze.{System, Call, new_controller, guard, thaw}
use rotshield.Freeze.Window.{
  IsIoctl, freeze_path, thaw_path, Knows, Tells, ThawedOrTold, guard-thaw,
}

abbrev opens : Bool → FilePath → Bool
opens k m = true

abbrev fifreeze : Bool → FilePath → Bool × Bool
fifreeze true m = (true, false)
fifreeze false m = (true, true)

abbrev fithaw : Bool → FilePath → Bool × Bool
fithaw k m = (false, true)

abbrev is_frozen : Bool → FilePath → Bool
is_frozen k m = k

abbrev freezing : Call Bool
freezing = freeze_path opens fifreeze fithaw is_frozen

abbrev thawing : Call Bool
thawing = thaw_path opens fifreeze fithaw is_frozen

fifreeze-done : (k k' : Bool) (m : FilePath) → fifreeze k m ≡ (k', true) → k' ≡ true
fifreeze-done true k' m e = cc
fifreeze-done false k' m e = cc

fifreeze-refused : (k k' : Bool) (m : FilePath) → fifreeze k m ≡ (k', false) → k' ≡ k
fifreeze-refused true k' m e = cc
fifreeze-refused false k' m e = absurd (cc)

laws : IsIoctl opens fifreeze fithaw is_frozen
laws = record {
  freezes = λ k k' m e. fifreeze-done k k' m e;
  keeps = λ k k' m e. fifreeze-refused k k' m e;
  thaws = λ k k' m e. cc;
  stays = λ k k' m e. absurd (cc);
}

abbrev idle : System Bool
idle = record {
  controller = new_controller (some "/mnt/disk1");
  active_mount = none;
  kernel = false;
}

guard-thaw_example :
    Knows freezing thawing is_frozen "/mnt/disk1" (guard freezing idle).0
    × Tells freezing thawing is_frozen "/mnt/disk1" (guard freezing idle)
    × Knows freezing thawing is_frozen "/mnt/disk1" (thaw thawing (guard freezing idle).0)
    × ThawedOrTold freezing thawing is_frozen "/mnt/disk1" (thaw thawing (guard freezing idle).0)
guard-thaw_example =
    guard-thaw opens fifreeze fithaw is_frozen laws "/mnt/disk1" idle (refl, refl) refl
