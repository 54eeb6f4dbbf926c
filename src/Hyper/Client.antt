-- ===== src/Hyper/Client.antt =====
-- The generated client of petshop-stacks/rust/hyper/src/client/mod.rs.
pub mod Message
pub mod Read
pub mod Pet
pub mod Store
pub mod User
pub mod Reply
pub mod RoundTrip
pub mod Unexpected
pub mod Connected
pub mod EndToEnd
pub mod Mislabelled
