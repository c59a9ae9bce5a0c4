-- ===== src/Btrfs/Superblock/Mirrors.antt =====
-- Which copy of the superblock scrub-rs/src/btrfs/superblock.rs takes.
use rotshield.Prelude.{
  ℕ, ◌≡◌, refl, ap, ◌∙◌, ◌⊎◌, inl, inr, true, false, Bool-cases, List, [], ◌∷◌, length, Option,
  none, arith,
}
use rotshield.Prelude.Io.{IoError, invalid_data, IoResult, ok, err}
use rotshield.Prelude.Panics.{returns, Gives}
use rotshield.Array.Config.{add_u64}
use rotshield.Btrfs.Bytes.{Bytes, slice}
use rotshield.Btrfs.Bytes.Inside.{slice_inside, le_at_inside}
use rotshield.Btrfs.Csum.{Digests, bytes_eq}
use rotshield.Btrfs.Csum.Seal.{bytes_eq_lem, bytes_eq_refl}
use rotshield.Btrfs.Superblock.{
  Superblock, btrfs_magic, superblock_backup_offsets, magic_checked, parse_copy, read_one,
  last_error, none_left, after_copy, read_mirrors, read,
}
use rotshield.Btrfs.Superblock.Blocks.{IsSuperblock, IsParsed, ParseOf, unwrap, sealed-ParseOf}

module _ (digests : Digests) (read_at : ℕ → ℕ → IoResult Bytes)
    (exact : (offset n : ℕ) (buf : Bytes) → read_at offset n ≡ ok buf → length buf ≡ n) where
  -- The superblock is what stands at this place, in a block that is one.
  abbrev pub Taken : ℕ → Superblock → Type 0
  Taken abs_off sb =
      (buf : Bytes) × (read_at abs_off 4096 ≡ ok buf) × IsSuperblock digests buf × IsParsed buf sb

  -- The copy at this place cannot be read or is no superblock.
  abbrev pub Refused : ℕ → Type 0
  Refused abs_off =
      ((e : IoError) × (read_at abs_off 4096 ≡ err e))
      ⊎ ((buf : Bytes) × (read_at abs_off 4096 ≡ ok buf) × ¬ IsSuperblock digests buf)

  -- The first of the copies that is a superblock, or an error where none is.
  abbrev pub IsFirst : ℕ → List ℕ → IoResult Superblock → Type 0
  IsFirst offset [] (ok sb) = ⊥
  IsFirst offset [] (err e) = Unit
  IsFirst offset (sb_off ∷ offsets) (ok sb) =
      Taken (add_u64 offset sb_off) sb
      ⊎ (Refused (add_u64 offset sb_off) × IsFirst offset offsets (ok sb))
  IsFirst offset (sb_off ∷ offsets) (err e) =
      Refused (add_u64 offset sb_off) × IsFirst offset offsets (err e)

  abbrev CopyOf : ℕ → IoResult Superblock → Type 0
  CopyOf abs_off (ok sb) = Taken abs_off sb
  CopyOf abs_off (err e) = Refused abs_off

  read_one-CopyOf : (abs_off : ℕ) → Gives (CopyOf abs_off) (read_one digests read_at abs_off)
  unfolding read_one parse_copy magic_checked
  read_one-CopyOf abs_off = go (read_at abs_off 4096) refl
    where
      placed :
          (buf : Bytes) (r : IoResult Superblock)
          → read_at abs_off 4096 ≡ ok buf
          → ParseOf digests buf r
          → CopyOf abs_off r
      placed buf (ok sb) e parsed = (buf, e, parsed.0, parsed.1)
      placed buf (err x) e parsed = inr (buf, e, parsed)

      go :
          (res : IoResult Bytes)
          → read_at abs_off 4096 ≡ res
          → Gives (CopyOf abs_off) (parse_copy digests read_at res)
      go (err x) e = (err x, refl, inl (x, e))
      go (ok buf) e =
          let whole = exact abs_off 4096 buf e in
          let (magic, cut, len, part) = slice_inside buf 64 72 (omega arith) (omega arith) in
          elim (Bool-cases (bytes_eq magic btrfs_magic)) [
            | inl good ↦
                let (csum_type, e2) = le_at_inside 2 buf 196 (omega arith) in
                let (valid, e3, (r, e4, parsed)) =
                  sealed-ParseOf buf whole digests magic csum_type cut e2
                    (bytes_eq_lem magic btrfs_magic good) in
                (r, rw cut (rw good (rw e2 (rw e3 e4))), placed buf r e parsed)
            | inr bad ↦ (
              err invalid_data,
              rw cut (rw bad refl),
              inr (buf, e, other_magic buf magic cut bad),
            )
          ]
        where
          other_magic :
              (buf magic : Bytes)
              → slice buf 64 72 ≡ returns magic
              → bytes_eq magic btrfs_magic ≡ false
              → ¬ IsSuperblock digests buf
          other_magic buf magic cut bad (t, size, has_magic, same_type, sealed, same_size, fits) =
              let same : magic ≡ btrfs_magic = unwrap (slice buf 64 72) cut has_magic in
              let equal : bytes_eq magic btrfs_magic ≡ true =
                ap (λ (m : Bytes). bytes_eq m btrfs_magic) same ∙ bytes_eq_refl btrfs_magic in
              absurd (cc)

  Refused-IsFirst :
      (offset sb_off : ℕ) (offsets : List ℕ) (r : IoResult Superblock)
      → Refused (add_u64 offset sb_off)
      → IsFirst offset offsets r
      → IsFirst offset (sb_off ∷ offsets) r
  Refused-IsFirst offset sb_off offsets (ok sb) bad first = inr (bad, first)
  Refused-IsFirst offset sb_off offsets (err e) bad first = (bad, first)

  read_mirrors-IsFirst :
      (offset : ℕ) (offsets : List ℕ) (last_err : Option IoError)
      → Gives (IsFirst offset offsets) (read_mirrors digests read_at offset offsets last_err)
  unfolding read_mirrors after_copy
  read_mirrors-IsFirst offset [] last_err = (err (none_left digests read_at last_err), refl, tt)
  read_mirrors-IsFirst offset (sb_off ∷ offsets) last_err =
      let (r, e, copy) = read_one-CopyOf (add_u64 offset sb_off) in
      go (λ x. read_mirrors-IsFirst offset offsets (last_error digests read_at last_err x)) r e copy
    where
      go :
          ((x : IoError)
            → Gives (IsFirst offset offsets) (
                read_mirrors digests read_at offset offsets
                  (last_error digests read_at last_err x)))
          → (r : IoResult Superblock) → read_one digests read_at (add_u64 offset sb_off) ≡ returns r
          → CopyOf (add_u64 offset sb_off) r
          → Gives
              (IsFirst offset (sb_off ∷ offsets))
              (read_mirrors digests read_at offset (sb_off ∷ offsets) last_err)
      go others (ok sb) e copy = (ok sb, rw e refl, inl copy)
      go others (err x) e copy =
          let (r, done, first) = others x in
          (r, rw e done, Refused-IsFirst offset sb_off offsets r copy first)

  -- Let a read that succeeds give as many bytes as were asked for. Then the reading of the
  -- superblock returns. Where it gives a superblock, that is the first of the four copies that can be
  -- read, has the magic, has at its start the digest of what follows its first 32 bytes, and whose
  -- system chunk array ends inside the block; each field is the number or the slice at its place. All
  -- copies before it cannot be read or are not so. Where it gives an error, this holds of every copy.
  pub read-IsFirst :
      (offset : ℕ) → Gives (IsFirst offset superblock_backup_offsets) (read digests read_at offset)
  unfolding read
  read-IsFirst offset = read_mirrors-IsFirst offset superblock_backup_offsets none
