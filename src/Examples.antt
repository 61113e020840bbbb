-- ===== src/Examples.antt =====
-- Concrete states and arguments: a machine of 16 pages and a kernel with a few environments, on
-- which the theorems of the other modules are applied.
mod Machine
mod Formats
mod Debug
mod Loading
mod Traps
mod Stubs
mod Library
mod Programs
mod Paging
mod Envs
mod Memory
mod Commands
mod Calls
mod Text
mod Devices
mod Printing
