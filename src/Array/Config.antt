-- ===== src/Array/Config.antt =====
-- The layout that scrub-rs/src/array/config.rs loads, and its lookups. A `BTreeMap` is the list of
-- its entries in the order of the keys. Paths are compared as texts, which is what comparing their
-- components comes to for the paths that the program builds, all from one table.
use Prim.Native.String.{String}
use text.Mathlib.Text.{◌==◌ as str_eq}
use rotshield.Prelude.{ℕ, ◌+◌, ◌%◌, ◌^◌, ◌==◌, if◌then◌else◌, List, [], ◌∷◌, Option, none, some}

abbrev pub FilePath : Type 0
FilePath = String

pub record ArrayConfig : Type 0 where
  pub data_devs : List (ℕ × FilePath)
  pub parity_p : Option FilePath
  pub parity_q : Option FilePath
  pub rdev_offsets : List (FilePath × ℕ)

unfoldable pub offset_in : FilePath → List (FilePath × ℕ) → ℕ
offset_in path [] = 0
offset_in path ((p, offset) ∷ rest) = if str_eq p path then offset else offset_in path rest

unfoldable pub raw_offset_for : ArrayConfig → FilePath → ℕ
raw_offset_for config path = offset_in path config.rdev_offsets

pub dev_in : ℕ → List (ℕ × FilePath) → Option FilePath
dev_in slot [] = none
dev_in slot ((s, path) ∷ rest) = if s == slot then some path else dev_in slot rest

pub data_dev : ArrayConfig → ℕ → Option FilePath
data_dev config slot = dev_in slot config.data_devs

-- A sum of two `u64` wraps in the release build.
unfoldable pub add_u64 : ℕ → ℕ → ℕ
add_u64 a b = (a + b) % 2 ^ 64

pub raw_phys : ArrayConfig → ℕ → ℕ → Option ℕ
raw_phys config slot array_phys = elim (data_dev config slot) [
  | none ↦ none
  | some dev ↦ some (add_u64 array_phys (raw_offset_for config dev))
]
