-- ===== src/Translate/Call.antt =====
-- The calls of translate.c, and the passing of their arguments.
use naivecc.Base.{ℕ, Bool, false, ◌||◌, Option, none, some, List, [], ◌∷◌, if◌then◌else◌}
use naivecc.Operand.{Operand, OpeType, FloatOps, same_ope_type}
use naivecc.Ir.Kinds.{IrType}
use naivecc.Ir.Relop.{str_eq}
use naivecc.CmmType.{TypeClass, Types, same_class}
use naivecc.Syntax.{val_s}
use naivecc.Translate.{
  M, ◌>>=◌, ◌>>◌, pure, undefined, need, operand, cell, set_name, instr, Attr, Visit, try_deref,
}
use naivecc.Translate.Exp.{leave}

module _ (f : FloatOps) (types : Types) where
  -- Whether an argument is passed by its address.
  unfoldable pub is_reference : Option ℕ → Bool
  is_reference none = false
  is_reference (some t) =
      same_class (types t).class TypeClass.array || same_class (types t).class TypeClass.struct

  unfoldable pub by_address : Operand → M Operand
  by_address p = do
    c ← cell p
    if same_ope_type c.type OpeType.ref
        then (do q ← operand OpeType.addr; instr IrType.addr (some p) none (some q); pure q)
        else if same_ope_type c.type OpeType.addr
        then pure p
        else undefined

  -- The arguments are visited in order and passed from the last one on.
  unfoldable pub pass_arg : List Visit → M (Unit {0})
  pass_arg [] = pure tt
  pass_arg (arg ∷ args) = do
    a0 ← operand OpeType.temp
    a ← arg.dispatch (some a0)
    pass_arg args
    p ← need a.dst
    c ← cell p
    d ← (if is_reference c.base_type then by_address p else try_deref (some p))
    instr IrType.arg (some d) none none

  abbrev read_name : List ℕ
  read_name = b'r' ∷ b'e' ∷ b'a' ∷ b'd' ∷ []

  abbrev write_name : List ℕ
  write_name = b'w' ∷ b'r' ∷ b'i' ∷ b't' ∷ b'e' ∷ []

  unfoldable pub write_call : List Visit → M (Unit {0})
  write_call [] = undefined
  write_call (arg ∷ _) = do
    a0 ← operand OpeType.temp
    a ← arg.dispatch (some a0)
    p ← try_deref a.dst
    instr IrType.write (some p) none none

  unfoldable pub common_call : List ℕ → List Visit → Operand → M (Unit {0})
  common_call name args d = do
    pass_arg args
    g ← operand OpeType.func
    set_name g name
    instr IrType.call (some g) none (some d)

  -- The `dst` of a call is there, or is made.
  unfoldable pub own_dst : Option Operand → M Operand
  own_dst none = operand OpeType.temp
  own_dst (some p) = pure p

  unfoldable pub translate_call : List Visit → Option Operand → M Attr
  translate_call [] dst = undefined
  translate_call (func ∷ args) dst = do
    d ← own_dst dst
    name ← need (val_s func.info.val)
    if str_eq name read_name
        then instr IrType.read none none (some d)
        else if str_eq name write_name
        then write_call args
        else common_call name args d
    leave (some d)
