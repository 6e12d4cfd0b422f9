-- ===== src/Slicer.antt =====
-- The slicer, preprocessing/slicer.c: it splits the hashes of a file into slices, each with a
-- matrix that sends its words to words of few bits.
pub mod Transpose
pub mod Chain
pub mod Parity
pub mod Rows
pub mod Invert
pub mod Echelon
pub mod Isd
pub mod Main
mod Tests
