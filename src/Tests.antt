-- ===== src/Tests.antt =====
-- Runs of the models at concrete inputs, with concrete functions for the code that is not modelled.
pub mod Toy
pub mod Vhsm
pub mod Client
pub mod Service
pub mod Keys
pub mod Audit
mod Containers
mod Platform
mod Authority
mod UseCases
