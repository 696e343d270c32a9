-- ===== src/Tests.antt =====
-- Runs of the definitions on concrete inputs, and the theorems at such inputs.
pub mod Mappings
pub mod Tables
pub mod CallOuts
pub mod Sorting
pub mod Texts
pub mod Arrays
pub mod Names
pub mod Cleanups
pub mod Operators
pub mod Making
pub mod Saving
pub mod Lines
pub mod Fields
pub mod Constants
pub mod Sum
pub mod Arithmetic
