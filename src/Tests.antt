-- ===== src/Tests.antt =====
-- Concrete devices, mappers, messages and handlers, at which the theorems are applied.
pub mod Rings
pub mod Loop
pub mod Discovery
pub mod Jack
pub mod Client
pub mod Rationals
pub mod Samples
pub mod Device
pub mod Main
pub mod Messages
pub mod Mapper
pub mod Osc
pub mod Program
pub mod Landlock
pub mod Devtest
