-- ===== src/Element.antt =====
-- fr_generic.cpp and fr_element.hpp: elements that hold a 32-bit integer, four limbs, or both.
-- fq_generic.cpp is the same text for the other field.
pub mod Memory
pub mod Convert
pub mod Sum
pub mod Difference
pub mod Product
pub mod Compare
pub mod Aliasing
pub mod Meaning
pub mod Int32
pub mod Shorts
pub mod Residues
