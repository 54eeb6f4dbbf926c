-- ===== src/Actix.antt =====
-- The Actix server: petshop-stacks/rust/actix/src.
pub mod Response
pub mod Pet
pub mod Store
pub mod User
pub mod Routes
