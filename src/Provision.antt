-- ===== src/Provision.antt =====
-- internal/provision/service.go: the operations on accounts and sites, and the edge's update.
pub mod Edge
pub mod Sites
pub mod Accounts
pub mod Input
pub mod Synced
pub mod Grouping
pub mod Suspension
pub mod Restart
pub mod Quota
pub mod Calm
pub mod Held
pub mod NewAccount
