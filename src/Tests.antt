-- ===== src/Tests.antt =====
-- Runs of the definitions at concrete inputs.
mod Wire
mod Leases
mod Handlers
mod Machine
mod Session
pub mod Hook
mod Started
mod Table
mod Interfaces
mod Sorting
