-- ===== src/Preprocess/Compress.antt =====
-- `compress_ir`: what it computes, and that it keeps the meaning.
pub mod Filter
pub mod Meaning
