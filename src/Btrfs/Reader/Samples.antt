-- ===== src/Btrfs/Reader/Samples.antt =====
-- Test data for scrub-rs/src/btrfs/reader.rs: a device that holds one internal node, whose hash is a
-- constant.
use rotshield.Prelude.{[], some, replicate, ◌==◌, if◌then◌else◌}
use rotshield.Prelude.Io.{ok, err, read_failed}
use rotshield.Btrfs.Node.Encoded.{encode_node}
use rotshield.Btrfs.Node.Samples.{csum, a_node}
use rotshield.Btrfs.Csum.{Digests, CsumStrategy, hash_len_of}
use rotshield.Btrfs.Reader.{FsReader}

abbrev pub digests : Digests
digests t bytes = replicate (hash_len_of t) 9

abbrev pub strategy : CsumStrategy
strategy = record { csum_type = 0; hash_len = 4; sector_size = 4096 }

abbrev pub reader : FsReader
reader = record {
  pread_at =
      λ offset n. if offset == 65536 then ok (encode_node csum [] a_node) else err read_failed;
  node_size = 134;
  base_offset = 65536;
  devid = some 1;
  strategy = some strategy;
  fsid = some (replicate 16 5);
}
