-- ===== src/Hyper.antt =====
-- The Hyper server: petshop-stacks/rust/hyper/src, and the implementation of its interface in
-- petshop-stacks/rust/hyper/examples/server.
pub mod Http
pub mod Header
pub mod Paths
pub mod Parse
pub mod Responses
pub mod Interface
pub mod Api
pub mod Server
pub mod Client
pub mod Form
pub mod Agreement
