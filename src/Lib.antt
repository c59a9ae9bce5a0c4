-- ===== src/Lib.antt =====
-- Rotshield finds and repairs silent corruption on a parity-protected array: the data disks hold
-- btrfs file systems, whose checksums tell which block is bad, and the array's parity disks P and Q
-- give its bytes back. These modules model the Rust program scrub-rs.
--
-- Parts of the program and their modules (paths from the root of the repository):
--   scrub-rs/src/recovery/gf.rs       Recovery.Gf: the field of 256 elements, its tables, powers and
--                                     inverses. The children go from the shift loop to the field.
--   scrub-rs/src/recovery/model.rs    Recovery.Model: the input and the outcomes of a recovery.
--   scrub-rs/src/recovery/engine.rs   Recovery.Engine: the cascade of `recover_block`: P alone, then Q
--                                     alone, then P and Q against each other disk as a second bad one.
--   scrub-rs/src/array/config.rs      Array.Config: which disk holds which slot, and the offsets.
--   scrub-rs/src/array/stripe.rs      Array.Stripe: `read_block_or_zeros` and `gather_stripe`;
--                                     `write_block` is in BatchRecover.Writer.
--   scrub-rs/src/array/parity.rs      Array.Parity: `compute_p` and `compute_q`, also with an override.
--   scrub-rs/src/canary.rs            Canary: the startup probe, made of `gather_stripe` and the engine.
--   scrub-rs/src/btrfs/util.rs        Btrfs.Bytes: little-endian integers in a slice of bytes.
--   scrub-rs/src/btrfs/key.rs         Btrfs.Key: keys and child pointers.
--   scrub-rs/src/btrfs/node.rs        Btrfs.Node: headers, slots, leaves and internal nodes.
--   scrub-rs/src/btrfs/chunk.rs       Btrfs.Chunk: chunk items and the system chunk array;
--                                     Btrfs.ChunkMap: the sorted map and its lookups.
--   scrub-rs/src/btrfs/csum_strategy.rs  Btrfs.Csum: the choice of the digest and the header checksum.
--   scrub-rs/src/btrfs/superblock.rs  Btrfs.Superblock: its decoding and its four copies.
--   scrub-rs/src/btrfs/reader.rs      Btrfs.Reader: the read of a node over all its mirror copies.
--   scrub-rs/src/btrfs/tree.rs        Btrfs.Tree: the walk over the nodes of a tree.
--   scrub-rs/src/btrfs/scrub.rs       Btrfs.Isolation: `isolate_run` and its budget, the search for the
--                                     sectors that do not read.
--   scrub-rs/src/fs.rs                Fs: the request and the verdict of a re-confirmation.
--   scrub-rs/src/batch_recover.rs     BatchRecover: the accumulator thread, `run_accumulator`.
--                                     BatchRecover.Writer: the writer thread, `run_writer`, which
--                                     freezes, re-confirms, recovers, writes and reads back.
--   scrub-rs/src/freeze.rs            Freeze: the controller that freezes the file system for a batch.
-- `gather_stripe` collects the input of the engine from the disks; the engine takes it as a value.
-- The scrub finds bad sectors by checksums and by the isolation, and sends them through the
-- accumulator to the recovery.
--
-- Specification. Recovery.Engine.Rows defines a stripe as the list of (slot, block) in ascending
-- order of the slots, and P and Q as sums over it. The engine has to invert these sums, and the
-- array's parity functions have to compute them; the two meet in Canary.Probe.
--
-- Correspondence. Functions have the names of the source; a part of a function that stands alone
-- has a name of its own (`p_step`, `q_step`, `last_resort` and `try_partners` are the parts of
-- `recover_block`, `solve_columns` is the second half of `solve_two_disk`, `split_loop` and
-- `attempted` are parts of `isolate_run`; `process_candidate`, `confirmed`, `reread`,
-- `recover_candidate`, `settle` and `written` are parts of `flush_batch`, in this order). A byte is
-- a number below 256 and a vector is a list. A `BTreeMap` is the list of its entries in the order
-- of the keys. Sums of `u64` wrap at 2^64 and those of `i32` at 2^32, where an `i32` is its bit
-- pattern, since the release build does not check them; `debug_assert` has no effect there either.
-- A failed `assert_eq!` and an index out of range are the value `panic` (Prelude.Panics), an
-- `io::Result` is an `IoResult` (Prelude.Io).
--
-- Loops and fuel. The loops over slices are structural. The loops over the bits of a number take
-- the number itself as fuel, which is enough since each round at least halves it (`mul_loop`,
-- `pow_loop`). `isolate_run` takes fuel and is `none` without; a range of m sectors needs m + 1,
-- since every piece has fewer sectors than the range, and `isolate_run_read` gives one more than
-- the range has bytes. `drain` flushes what is deferred until nothing is left; one more round than
-- there are candidates is enough, since a flush deals with at least one. `sys_loop` parses one
-- chunk in a round and moves on by at least 65 bytes; it is given one more round than there are
-- bytes. `walk` is `none` without fuel; some fuel is enough for every device, since the level that
-- a node is expected to have falls on the way down. The sort and the binary search of the standard
-- library are Prelude.Sort, an insertion sort, which is stable as that one is, and
-- Prelude.BinarySearch.
--
-- Parameters. The kernel is a table `Devices` of what opens, with the contents, whether the size
-- can be told, and which reads fail; the verifier of the engine is a function on blocks; the reader
-- of `isolate_run` is a function on a state of its own, as the closure of the source is; what a
-- channel gives is a list, and how many sends it takes is a number; the kernel under the freeze
-- controller is a state with two calls, and the writer's is the record `Kernel` of the calls on a
-- state of the world, in which time passes when the clock is looked at. A file that nodes are read
-- from is a function of the offset and the size, the digests are a function on bytes, and the
-- callbacks of the walk act on a state. The limit of the budget is an argument, since the
-- environment can set it.
--
-- Not modelled: the status counters and messages of the writer, the signal handlers and the panic
-- hook of freeze.rs, the extents, the checksums of a range, the pipeline of reads, the loading of
-- the layout from /proc, the status output and the command line; and what lies outside
-- scrub-rs/src, the shell scripts and the plugin.
pub mod Prelude
pub mod Recovery
pub mod Array
pub mod Canary
pub mod Btrfs
pub mod BatchRecover
pub mod Freeze
pub mod Fs
