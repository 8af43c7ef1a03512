-- ===== src/Ir/Kinds.antt =====
-- lib.h: the instruction types.
use naivecc.Base.{ℕ, ◌==◌, Bool, true, ◌≡◌, arith}

-- `IR_Type`
pub data IrType : Type 0 where
  nop label func : IrType
  assign add sub mul div addr deref_r deref_l : IrType
  jmp beq blt ble bgt bge bne ret : IrType
  dec arg call param read write : IrType

-- The position in the enumeration, by which the source compares types.
abbrev pub ir_code : IrType → ℕ
ir_code IrType.nop = 0
ir_code IrType.label = 1
ir_code IrType.func = 2
ir_code IrType.assign = 3
ir_code IrType.add = 4
ir_code IrType.sub = 5
ir_code IrType.mul = 6
ir_code IrType.div = 7
ir_code IrType.addr = 8
ir_code IrType.deref_r = 9
ir_code IrType.deref_l = 10
ir_code IrType.jmp = 11
ir_code IrType.beq = 12
ir_code IrType.blt = 13
ir_code IrType.ble = 14
ir_code IrType.bgt = 15
ir_code IrType.bge = 16
ir_code IrType.bne = 17
ir_code IrType.ret = 18
ir_code IrType.dec = 19
ir_code IrType.arg = 20
ir_code IrType.call = 21
ir_code IrType.param = 22
ir_code IrType.read = 23
ir_code IrType.write = 24

abbrev pub same_type : IrType → IrType → Bool
same_type a b = ir_code a == ir_code b

pub eq_nop : (t : IrType) → same_type t IrType.nop ≡ true → t ≡ IrType.nop
eq_nop t h = ground arith

pub eq_label : (t : IrType) → same_type t IrType.label ≡ true → t ≡ IrType.label
eq_label t h = ground arith

pub eq_jmp : (t : IrType) → same_type t IrType.jmp ≡ true → t ≡ IrType.jmp
eq_jmp t h = ground arith
