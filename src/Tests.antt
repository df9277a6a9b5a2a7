-- ===== src/Tests.antt =====
-- Runs of the definitions at concrete inputs, and the theorems applied to them.
mod Blocks
mod Rings
mod Maps
mod Bits
mod Stacks
mod Links
mod Pipes
mod Texts
mod Ios
mod VMaps
mod Sigs
mod Locks
mod Faults
