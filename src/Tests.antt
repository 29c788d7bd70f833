-- ===== src/Tests.antt =====
-- Concrete runs of the modelled code, and the theorems at concrete inputs.
mod Memory
mod Devices
mod Tasks
mod Strings
mod Printf
mod Routines
mod Setup
mod Heap
mod Boot
mod Scanf
mod Start
mod Faults
