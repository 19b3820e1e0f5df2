-- ===== src/Scripts.antt =====
-- The scripts that an operator runs against the database of the API service: scripts/create_user.py
-- and scripts/seed_storage_nodes.py.
pub mod Users
pub mod Issuing
pub mod Rotation
pub mod Nodes
pub mod Registering
