-- ===== src/Lib.antt =====
-- naivecc, a compiler for C--: from the syntax tree through the buffer of three-address
-- instructions to MIPS assembly, with the tables of the front end.
--
-- The parts. The parser builds the syntax tree (ast.c). Translation (translate.c) visits it, asks
-- the symbol tables for the operands of variables, and appends instructions to one array (ir.c).
-- `print_instr` then runs, in this order: `preprocess_ir`, which turns branches round, drops jumps
-- to the next line, merges labels and compresses the array; `in_func_check`, which lays out the
-- stack frames; `optimize_in_block`, which cuts the array into basic blocks (basic-block.c) and
-- scans each for liveness; and for each block the generators of asm.c, which ask register.c for
-- registers. The front end keeps its names in cmm-strtab.c and its symbols in cmm-symtab.c.
--
-- The files. Each is named for its part, and its children hold the proofs.
-- - Base: names of the libraries, Boolean tests, C arrays as lists, integers with their bounds.
-- - Operand: operand.h and operand.c. An `Operand` is an address, and the heap a function from
--   addresses to `OperandCell`; NULL is `none`.
-- - Ir: ir.h, the types of lib.h, `new_instr` and `relop_dict` of ir.c.
-- - Syntax: node.h, the productions of lib.h, and `create_tree` of ast.c.
-- - Translate: translate.c. The globals are one state, and a visitor a command that changes it or is
--   undefined. A node is, for the visitor above it, the two commands that visit it, as a value and
--   as a condition; what the source keeps in the fields `dst`, `base`, `label_true` and `label_false`
--   goes through their arguments and results. Exp, Index, Call, Cond, Stmt and Def hold the visitors,
--   Program the table `trans_visitors` and `translate`. Safe is the judgement by which they are
--   shown to keep the invariant of the buffer, with its rules, and Keeps the derivation for each
--   visitor; Loops tells the trees in which the body of no FOR is a logic expression, as no parsed
--   tree has one: translate.c places a label twice on others; Correct and Progress are about the whole, Balance about the scopes it enters and
--   leaves, Refuse about constructs without a visitor, and Fold about the two foldings of constants.
-- - Preprocess: `preprocess_ir`, `replace_operand`, `deref_label` and `compress_ir` of ir.c. The
--   array is a list of length `nr_instr`; each of the loops is a recursion with the index that the
--   code counts.
-- - Machine: what the instructions mean, as a machine that runs a buffer. It is a parameter of the
--   theorems: a state, the effect of the data instructions, and the integer that a branch reads in
--   an operand; the branches compare integers, as asm.c does with registers. The head of a function
--   and a call are data instructions: what a callee does is the machine's to say, and the theorems
--   about the heads of functions are about one function at a time.
-- - BasicBlock: basic-block.c. Liveness: `optimize_liveness` and `optimize_in_block` of ir.c.
-- - Frame: `in_func_check` of ir.c.
-- - Register: register.c, with the globals of register.c and asm.c as one state. Asm: asm.c, and in
--   Asm/Emit the last part of `print_instr`. The assembly is a list of instructions.
-- - Symtab: cmm-symtab.c. Strtab: cmm-strtab.c.
-- - CmmType: `new_type` and `typecmp` of cmm-type.c, over a store of types.
-- - Tests: a small program, a machine and small tables on which the theorems are applied.
--
-- Conventions. A read through NULL, an access out of an array's bounds, a failed `assert` and an
-- overflow of `int` are `none`. Unsigned arithmetic wraps around by a remainder of 2 ^ 32. `free`
-- keeps its cell, so that addresses stay distinct. `run` of Machine has fuel; the theorems speak
-- of `Halts`, which says that some fuel is enough. The functions that model code recurse on their
-- lists or on the rounds left and need no other fuel, but for `typecmp`: it follows pointers, and
-- what fuel is enough for it is the subject of CmmType/Total.
--
-- Not modelled: lexical.l and syntax.y, whose code is generated; main.c, `print_operand`, `ir_to_s`,
-- `cfg_to_dot` and the comment lines in the assembly, which write text; floating-point arithmetic,
-- which is a parameter; `print_type`; `free_node` and `puts_tree` of node.c; semantic.c, the visitors
-- that fill in the types and symbol tables of a tree: trees are given with them.
pub mod Asm
pub mod Base
pub mod BasicBlock
pub mod CmmType
pub mod Frame
pub mod Ir
pub mod Liveness
pub mod Machine
pub mod Operand
pub mod Preprocess
pub mod Register
pub mod Strtab
pub mod Symtab
pub mod Syntax
pub mod Tests
pub mod Translate
