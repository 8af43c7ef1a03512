-- ===== src/Tests.antt =====
-- Programs and states on which the theorems are applied.
mod Program
mod Passes
mod Tables
mod Types
mod Translation
