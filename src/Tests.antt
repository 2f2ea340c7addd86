-- ===== src/Tests.antt =====
-- Concrete inputs for the theorems, by the part of the program that they are about.
pub mod Library
pub mod Rundirs
pub mod Stored
pub mod Kernel
pub mod Blocks
pub mod Htex
pub mod Submit
pub mod Executors
pub mod Unwrapped
