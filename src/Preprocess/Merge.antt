-- ===== src/Preprocess/Merge.antt =====
-- The third loop of `preprocess_ir`: two labels in a row become one.
pub mod Step
pub mod Pair
pub mod Loop
pub mod All
