-- ===== src/Db.antt =====
-- The control-plane database: internal/controlplane/db.
pub mod Node
pub mod Target
pub mod Resource
pub mod Listing
pub mod User
pub mod Migrate
