-- ===== src/Translate/Cond.antt =====
-- Conditions of translate.c: expressions that change the flow of control. The labels of an
-- expression, `label_true` and `label_false`, are arguments.
use naivecc.Base.{Option, none, some, List, [], ◌∷◌, if◌then◌else◌}
use naivecc.Base.Int.{pos}
use naivecc.Operand.{Operand, OpeType, same_ope_type}
use naivecc.Ir.Kinds.{IrType}
use naivecc.Ir.Relop.{get_relop}
use naivecc.Syntax.{Tag, Info, val_s}
use naivecc.Translate.{
  M, ◌>>=◌, ◌>>◌, pure, undefined, need, operand, cell, instr, Attr, Visit, try_deref,
}
use naivecc.Translate.Exp.{integer_operand, leave}

-- `new_instr(IR_LABEL, l, NULL, NULL)` and `new_instr(IR_JMP, l, NULL, NULL)`
abbrev pub put_label : Operand → M (Unit {0})
put_label l = instr IrType.label (some l) none none

abbrev pub jump : Operand → M (Unit {0})
jump l = instr IrType.jmp (some l) none none

-- From the visit of the expression as a value.
unfoldable pub translate_cond_exp : (Option Operand → M Attr) → Operand → Operand → M (Unit {0})
translate_cond_exp dispatch label_true label_false = do
  p ← operand OpeType.temp
  a ← dispatch (some p)
  const_zero ← integer_operand (pos 0)
  instr IrType.bne a.dst (some const_zero) (some label_true)
  jump label_false

unfoldable pub translate_cond_not : List Visit → Operand → Operand → M (Unit {0})
translate_cond_not [] label_true label_false = undefined
translate_cond_not (sub_exp ∷ _) label_true label_false = sub_exp.cond label_false label_true

unfoldable pub translate_cond_relop : Info → List Visit → Operand → Operand → M (Unit {0})
translate_cond_relop info (left ∷ right ∷ _) label_true label_false = do
  l0 ← operand OpeType.temp
  r0 ← operand OpeType.temp
  la ← left.dispatch (some l0)
  ra ← right.dispatch (some r0)
  l ← try_deref la.dst
  r ← try_deref ra.dst
  op ← need (val_s info.val)
  instr (get_relop op) (some l) (some r) (some label_true)
  jump label_false
translate_cond_relop info _ label_true label_false = undefined

unfoldable pub translate_cond_and : List Visit → Operand → Operand → M (Unit {0})
translate_cond_and (left ∷ right ∷ _) label_true label_false = do
  l ← operand OpeType.label
  left.cond l label_false
  put_label l
  right.cond label_true label_false
translate_cond_and _ label_true label_false = undefined

unfoldable pub translate_cond_or : List Visit → Operand → Operand → M (Unit {0})
translate_cond_or (left ∷ right ∷ _) label_true label_false = do
  l ← operand OpeType.label
  left.cond label_true l
  put_label l
  right.cond label_true label_false
translate_cond_or _ label_true label_false = undefined

-- The switch on the tag; `value` is the visit of the node by `translate_dispatcher`.
unfoldable pub translate_cond :
    (Option Operand → M Attr) → Info → List Visit → Operand → Operand → M (Unit {0})
translate_cond value info kids = elim info.tag [
  | Tag.exp_is_and ↦ translate_cond_and kids
  | Tag.exp_is_or ↦ translate_cond_or kids
  | Tag.exp_is_relop ↦ translate_cond_relop info kids
  | Tag.exp_is_not ↦ translate_cond_not kids
  | _ ↦ translate_cond_exp value
]

-- The operand that holds the value of a condition, set to zero, if there is one.
unfoldable pub value_false : Option Operand → M (Option Operand)
value_false none = pure none
value_false (some p) = do
  c ← cell p
  d ← (if same_ope_type c.type OpeType.temp then operand OpeType.bool else pure p)
  z ← integer_operand (pos 0)
  instr IrType.assign (some z) none (some d)
  pure (some d)

unfoldable pub value_true : Option Operand → M (Unit {0})
value_true none = pure tt
value_true (some d) = do one ← integer_operand (pos 1); instr IrType.assign (some one) none (some d)

-- From the visit of the node by `translate_cond`: `label_true` and `dst` of the node afterwards.
unfoldable pub prepare_labels :
    (Operand → Operand → M (Unit {0})) → Option Operand → M (Operand × Option Operand)
prepare_labels cond dst = do
  label_true ← operand OpeType.label
  label_false ← operand OpeType.label
  d ← value_false dst
  cond label_true label_false
  put_label label_true
  value_true d
  put_label label_false
  pure (label_true, d)

unfoldable pub translate_cond_prepare : (Operand → Operand → M (Unit {0})) → Option Operand → M Attr
translate_cond_prepare cond dst = do r ← prepare_labels cond dst; leave r.1
