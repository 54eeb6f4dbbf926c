-- ===== src/Hyper/Server.antt =====
-- The generated server of petshop-stacks/rust/hyper/src/server/mod.rs.
pub mod Access
pub mod Params
pub mod Write
pub mod Pet
pub mod Store
pub mod User
pub mod Service
pub mod Denied
pub mod Statuses
pub mod Answers
pub mod Implementation
