-- ===== src/Translate/Index.antt =====
-- The index expressions of translate.c.
use naivecc.Base.{ℕ, Bool, ◌&&◌, Option, none, some, List, ◌∷◌, if◌then◌else◌}
use naivecc.Base.Int.{ℤ, pos, ◌+ℤ◌, ◌*ℤ◌, beq_ℤ}
use naivecc.Operand.{Operand, OpeType, FloatOps, same_ope_type, checked}
use naivecc.Ir.Kinds.{IrType}
use naivecc.CmmType.{TypeClass, Types, same_class}
use naivecc.Syntax.{Info}
use naivecc.Translate.{
  M, ◌>>=◌, ◌>>◌, pure, undefined, need, operand, cell, set_integer, set_base_type, instr, Attr,
  Visit, try_deref,
}
use naivecc.Translate.Exp.{integer_operand, leave}

module _ (f : FloatOps) (types : Types) where
  -- The offset that an index adds, in units of the element's size.
  unfoldable pub scale : Operand → ℕ → M Operand
  scale offset size = do
    c ← cell offset
    if same_ope_type c.type OpeType.integer
        then (do n ← need (checked (c.integer *ℤ pos size)); set_integer offset n; pure offset)
        else (do
          p ← operand OpeType.addr
          array_size ← integer_operand (pos size)
          instr IrType.mul (some offset) (some array_size) (some p)
          pure p)

  -- `base->base` and `base->dst` after the test that `base->base` is NULL.
  unfoldable pub split_base : Attr → M (Option Operand × Option Operand)
  split_base a = elim a.base [
    | none ↦ (do z ← integer_operand (pos 0); pure (a.dst, some z))
    | some b ↦ pure (some b, a.dst)
  ]

  unfoldable pub is_zero : OpeType → ℤ → Bool
  is_zero t n = same_ope_type t OpeType.integer && beq_ℤ n (pos 0)

  -- The sum of the offset so far and the new one.
  unfoldable pub add_offset : Operand → Operand → M Operand
  add_offset addr offset = do
    a ← cell addr
    o ← cell offset
    if same_ope_type a.type OpeType.integer && same_ope_type o.type OpeType.integer
        then (do n ← need (checked (a.integer +ℤ o.integer)); set_integer addr n; pure addr)
        else if is_zero a.type a.integer
        then pure offset
        else if is_zero o.type o.integer
        then pure addr
        else (do
          p ← operand OpeType.addr
          instr IrType.add (some addr) (some offset) (some p)
          pure p)

  -- The address of the element.
  unfoldable pub element : ℕ → Option Operand → Operand → M Attr
  element type start addr = do
    a ← cell addr
    p ← operand OpeType.addr
    set_base_type p (some type)
    if is_zero a.type a.integer
        then instr IrType.assign start none (some p)
        else instr IrType.add start (some addr) (some p)
    leave (some p)

  unfoldable pub translate_exp_is_exp_idx : Info → List Visit → Option Operand → M Attr
  translate_exp_is_exp_idx info kids none = leave none
  translate_exp_is_exp_idx info (base ∷ idx ∷ _) (some dst) = do
    b0 ← operand OpeType.temp
    ba ← base.dispatch (some b0)
    i0 ← operand OpeType.temp
    ia ← idx.dispatch (some i0)
    o ← try_deref ia.dst
    type ← need info.sema_type
    size ← need (types type).type_size
    offset ← scale o size
    bases ← split_base ba
    addr0 ← need bases.1
    addr ← add_offset addr0 offset
    if same_class (types type).class TypeClass.array
        then pure (record { dst = some addr; base = bases.0 })
        else element type (elim bases.0 [ none ↦ bases.1 | some b ↦ some b ]) addr
  translate_exp_is_exp_idx info _ (some dst) = undefined
