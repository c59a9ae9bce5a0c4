-- ===== src/Btrfs/Tree/Tests.antt =====
-- An instance for scrub-rs/src/btrfs/tree.rs: a walk that counts leaves and failures.
use rotshield.Prelude.{ℕ, suc, refl, ◌+◌, none}
use rotshield.Prelude.Io.{ok}
use rotshield.Prelude.Panics.{returns}
use rotshield.Btrfs.ChunkMap.{empty_map}
use rotshield.Btrfs.Reader.Samples.{digests, strategy, reader}
use rotshield.Btrfs.Tree.{Callbacks, walk_leaves}
use rotshield.Btrfs.Tree.Ends.{Halts, walk_leaves-Halts}

abbrev counting : Callbacks ℕ
counting = record {
  visit = λ s l logical. returns (suc s, ok tt);
  on_metadata_error = λ s logical. s + 100;
  on_stale = λ s logical. s + 1000;
  on_mirror_mismatch = λ s logical. s + 10000;
  on_read_error = λ s logical. s + 10;
}

walk_leaves-Halts_example :
    (fuel : ℕ) × Halts digests reader empty_map none counting strategy refl
      (walk_leaves digests reader empty_map none counting fuel 30408704 0)
walk_leaves-Halts_example =
    walk_leaves-Halts digests reader empty_map none counting strategy refl 30408704 0
