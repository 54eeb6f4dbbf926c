-- ===== src/Tests.antt =====
-- Concrete parameters, and the theorems at concrete inputs.
pub mod Bytes
pub mod Wire
pub mod Serial
pub mod Memory
pub mod Inputs
pub mod PetExamples
pub mod StoreExamples
pub mod UserExamples
pub mod OtherExamples
pub mod HyperExamples
