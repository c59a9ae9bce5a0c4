-- ===== src/Btrfs/Bytes.antt =====
-- The little-endian fields of scrub-rs/src/btrfs/util.rs. A slice of bytes is a list; an index or a
-- range outside it panics. A position is a `usize` and does not wrap here: no caller comes near 2^64.
pub mod At
pub mod Inside
use rotshield.Prelude.{ℕ, zero, suc, ◌+◌, ◌-◌, ◌*◌, leb, ◌&&◌, if◌then◌else◌, List, [], ◌∷◌, length}
use rotshield.Prelude.Panics.{Panics, returns, panic, ◌>>=◌}

abbrev pub Bytes : Type 0
Bytes = List ℕ

-- `buf[i]`.
unfoldable pub index : Bytes → ℕ → Panics ℕ
index [] i = panic
index (b ∷ buf) zero = returns b
index (b ∷ buf) (suc i) = index buf i

-- `[buf[pos], …, buf[pos + n - 1]]`.
unfoldable pub bytes_at : Bytes → ℕ → ℕ → Panics Bytes
bytes_at buf pos zero = returns []
bytes_at buf pos (suc n) = do b ← index buf pos; bs ← bytes_at buf (suc pos) n; returns (b ∷ bs)

-- `buf[start..end]`.
unfoldable pub slice : Bytes → ℕ → ℕ → Panics Bytes
slice buf start end =
    if leb start end && leb end (length buf) then bytes_at buf start (end - start) else panic

-- `from_le_bytes` of the unsigned integers, the lowest byte first.
unfoldable pub from_le_bytes : Bytes → ℕ
from_le_bytes [] = 0
from_le_bytes (b ∷ bs) = b + 256 * from_le_bytes bs

unfoldable pub le_at : ℕ → Bytes → ℕ → Panics ℕ
le_at n buf pos = do bs ← bytes_at buf pos n; returns (from_le_bytes bs)

abbrev pub le_u16 : Bytes → ℕ → Panics ℕ
le_u16 = le_at 2

abbrev pub le_u32 : Bytes → ℕ → Panics ℕ
le_u32 = le_at 4

abbrev pub le_u64 : Bytes → ℕ → Panics ℕ
le_u64 = le_at 8

-- `from_le_bytes(buf[start..end].try_into().unwrap())`, where the range has the width of the integer.
unfoldable pub le_range : Bytes → ℕ → ℕ → Panics ℕ
le_range buf start end = do bs ← slice buf start end; returns (from_le_bytes bs)
