-- ===== src/Examples.antt =====
-- The theorems at concrete inputs, with toy hashes in the place of SHA-1 and SHA-256.
mod Rings
mod Moves
mod Blobs
mod Peers
mod Copies
mod Pools
mod Requests
mod Files
mod Disk
mod Exchanges
mod Healing
mod Bucket
mod Cluster
mod Signing
