-- ===== src/Examples.antt =====
-- Concrete runs of the operations, and the theorems at concrete inputs.
mod Files
mod Floats
mod Log
mod Tables
mod Paths
mod Manifests
mod Blooms
mod Blocks
mod Opened
mod Compactions
