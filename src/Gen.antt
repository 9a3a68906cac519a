-- ===== src/Gen.antt =====
-- The command line program (src/rdrand-gen.c, src/rdrand-gen.h).
pub mod Config
pub mod Chunks
pub mod Arguments
pub mod KeyFile
pub mod LoadKeys
pub mod Main
