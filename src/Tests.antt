-- ===== src/Tests.antt =====
-- The theorems at concrete inputs.
mod Data
mod Words
mod Machines
mod Runs
mod Hex
mod Cycles
mod Executions
mod Traps
mod Text
