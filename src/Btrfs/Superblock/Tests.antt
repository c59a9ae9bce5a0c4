-- ===== src/Btrfs/Superblock/Tests.antt =====
-- An instance for scrub-rs/src/btrfs/superblock.rs: a device with a wiped
-- primary copy and an intact backup.
use rotshield.Prelude.{
  ℕ, ◌≡◌, ◌++◌, ◌+◌, arith, replicate, length-replicate, ◌==◌, if◌then◌else◌, Bool-cases, inl, inr,
  ap, sym, ◌∙◌, length,
}
use rotshield.Prelude.Io.{IoResult, ok, err, unexpected_eof}
use rotshield.Prelude.Panics.{Gives}
use rotshield.Btrfs.Bytes.{Bytes}
use rotshield.Btrfs.Csum.{Digests, hash_len_of}
use rotshield.Btrfs.Superblock.{superblock_backup_offsets, btrfs_magic, read}
use rotshield.Btrfs.Superblock.Mirrors.{IsFirst, read-IsFirst}

abbrev digests : Digests
digests t bytes = replicate (hash_len_of t) 0

abbrev block : Bytes
block = replicate 64 0 ++ (btrfs_magic ++ replicate 4024 0)

-- The primary copy is wiped, the first backup is intact, and the device ends before the others.
abbrev read_at : ℕ → ℕ → IoResult Bytes
read_at offset n =
    if n == 4096
    then if offset == 65536
      then ok (replicate 4096 0)
      else if offset == 67108864
      then ok block
      else err unexpected_eof
    else err unexpected_eof

exact : (offset n : ℕ) (buf : Bytes) → read_at offset n ≡ ok buf → length buf ≡ n
exact offset n buf h = elim (Bool-cases (n == 4096)) [
  | inr other ↦ absurd (cc (rw other at h))
  | inl size ↦
      let e : 4096 ≡ n = ground arith in
      elim (Bool-cases (offset == 65536)) [
        | inl first ↦
            let same : replicate 4096 0 ≡ buf = cc (rw first at (rw size at h)) in
            ap length (sym same) ∙ length-replicate {A = ℕ} 4096 0 ∙ e
        | inr later ↦ elim (Bool-cases (offset == 67108864)) [
          | inl second ↦
              let same : block ≡ buf = cc (rw second at (rw later at (rw size at h))) in
              ap length (sym same) ∙ ap (λ (k : ℕ). 72 + k) (length-replicate {A = ℕ} 4024 0) ∙ e
          | inr past ↦ absurd (cc (rw past at (rw later at (rw size at h))))
        ]
      ]
]

read-IsFirst_example :
    Gives (IsFirst digests read_at exact 0 superblock_backup_offsets) (read digests read_at 0)
read-IsFirst_example = read-IsFirst digests read_at exact 0
