-- ===== src/ConcurrentByteSet/Examples.antt =====
-- The theorem on two layers of bytes at a concrete input.
use fuzztest.ConcurrentByteSet.{LayeredSet, clear_layers}

abbrev cleared : LayeredSet
cleared = clear_layers 4096 64
