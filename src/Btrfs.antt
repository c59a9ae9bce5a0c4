-- ===== src/Btrfs.antt =====
-- The file system above the array: scrub-rs/src/btrfs.
pub mod Isolation
pub mod Bytes
pub mod Key
pub mod Node
pub mod Chunk
pub mod ChunkMap
pub mod Csum
pub mod Reader
pub mod Tree
pub mod Superblock
