-- ===== src/Tests.antt =====
-- Concrete files, and the theorems about runs on them at inputs where their hypotheses hold.
mod Data
mod Blocks
mod Open
mod Chains
mod Grow
mod Locks
mod Flatrecs
mod Databases
mod Forward
mod Programs
mod Series
mod Sessions
