-- ===== src/Ir.antt =====
-- ir.h and the instruction buffer of ir.c: three-address instructions over operand pointers.
pub mod Kinds
pub mod Relop
pub mod Anti
use naivecc.Base.{
  ℕ, zero, suc, ◌+◌, Bool, true, false, ◌&&◌, ◌||◌, not, Option, none, some, List, [], ◌∷◌, ◌==◌,
  if◌then◌else◌, ◌>>=◌, ◌>>◌, guard, ◌≡◌, arith, leb, length, ltb, ◌++◌,
}
use naivecc.Base.Int.{ℤ}
use naivecc.Ir.Kinds.{IrType, ir_code, same_type}
use naivecc.Operand.{Operand, max_line}

-- `OptimizeInfo`
pub record OptimizeInfo : Type 0 where
  pub liveness : Bool
  pub next_use : ℤ

-- `IR`, less the field `depend` that nothing reads.
pub record Ir : Type 0 where
  pub type : IrType
  pub rd : Option Operand
  pub rs : Option Operand
  pub rt : Option Operand
  pub block : ℕ
  pub rd_info : Option OptimizeInfo
  pub rs_info : Option OptimizeInfo
  pub rt_info : Option OptimizeInfo

abbrev pub blank_ir : IrType → Option Operand → Option Operand → Option Operand → Ir
blank_ir t rs rt rd = record {
  type = t;
  rd = rd;
  rs = rs;
  rt = rt;
  block = 0;
  rd_info = none;
  rs_info = none;
  rt_info = none;
}

-- The generated part of `instr_buffer`; `nr_instr` is its length.
abbrev pub Buffer : Type 0
Buffer = List Ir

-- The index of the new instruction and the buffer with it; none where the assertion fails.
unfoldable pub new_instr :
    Buffer → IrType → Option Operand → Option Operand → Option Operand → Option (ℕ × Buffer)
new_instr buf t rs rt rd = do
  guard (ltb (length buf) max_line)
  some (length buf, buf ++ blank_ir t rs rt rd ∷ [])

-- The branches are the types from `IR_BEQ` to `IR_BNE`.
unfoldable pub is_branch : Ir → Bool
is_branch ir =
    leb (ir_code IrType.beq) (ir_code ir.type) && leb (ir_code ir.type) (ir_code IrType.bne)

unfoldable pub can_jump : Ir → Bool
unfolding is_branch
can_jump ir = if is_branch ir then true else if same_type ir.type IrType.jmp then true else false
