-- ===== src/Archive.antt =====
-- chunkfile.h, chunkfile.C: the chunked archive format of patch files, over a stream of bytes.
pub mod Tests
pub mod Stream
pub mod State
pub mod Output
pub mod Input
pub mod OutputLaws
pub mod Chunks
pub mod InputLaws
pub mod Contents
pub mod Roundtrip
