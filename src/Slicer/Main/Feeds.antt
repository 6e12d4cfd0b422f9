-- ===== src/Slicer/Main/Feeds.antt =====
-- The slices of the slicer as the input of ijoux/joux_v3.c, `process_slice`.
use xor_mining.Slice.{Slice}
