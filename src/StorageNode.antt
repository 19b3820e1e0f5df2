-- ===== src/StorageNode.antt =====
-- The storage node, storage_node/: the shard store on disk and its HTTP endpoints.
pub mod Storage
pub mod Router
