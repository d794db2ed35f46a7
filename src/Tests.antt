-- ===== src/Tests.antt =====
-- The theorems at concrete inputs: elements of Fr, files of a few bytes, a service.
mod Values
mod Raws
mod Elements
mod Files
mod Services
mod Points
mod Pairs
mod Curves
mod Scalars
mod Transforms
mod Proofs
