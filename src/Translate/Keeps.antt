-- ===== src/Translate/Keeps.antt =====
-- Every visitor of translate.c keeps the invariant of translation.
pub mod Stmt
pub mod Cond
pub mod Relabel
pub mod Exp
pub mod Index
pub mod Call
pub mod Def
pub mod Whole
