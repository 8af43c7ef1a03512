-- ===== src/Translate/Stmt.antt =====
-- The statements of translate.c.
use naivecc.Base.{none, some, List, [], ◌∷◌}
use naivecc.Operand.{Operand, OpeType}
use naivecc.Ir.Kinds.{IrType}
use naivecc.Syntax.{Info}
use naivecc.Translate.{
  M, ◌>>=◌, ◌>>◌, undefined, need, operand, instr, Visit, try_deref, dispatch_first, dispatch_all,
  enter_scope, leave_scope,
}
use naivecc.Translate.Cond.{put_label, jump}

-- The visit of the body of a loop, the label that is `label_true` of the body then, and the rest.
unfoldable pub body_then : Visit → Operand → M (Unit {0}) → M (Unit {0})
body_then body next rest = elim body.relabel [
  | none ↦ (do body.dispatch none; put_label next; rest)
  | some m ↦ (do (m >>= put_label); rest)
]

unfoldable pub translate_for : List Visit → M (Unit {0})
translate_for (init_exp ∷ cond_exp ∷ step_exp ∷ loop_stmt ∷ _) = do
  init_exp.dispatch none
  begin ← operand OpeType.label
  cond_true ← operand OpeType.label
  cond_false ← operand OpeType.label
  next ← operand OpeType.label
  put_label begin
  cond_exp.cond cond_true cond_false
  put_label cond_true
  body_then loop_stmt next (do step_exp.dispatch none; jump begin; put_label cond_false)
translate_for _ = undefined

unfoldable pub translate_while : List Visit → M (Unit {0})
translate_while (cond ∷ loop ∷ _) = do
  cond_true ← operand OpeType.label
  cond_false ← operand OpeType.label
  begin ← operand OpeType.label
  put_label begin
  cond.cond cond_true cond_false
  put_label cond_true
  loop.dispatch none
  jump begin
  put_label cond_false
translate_while _ = undefined

unfoldable pub translate_if_else : List Visit → M (Unit {0})
translate_if_else (cond ∷ true_stmt ∷ false_stmt ∷ _) = do
  cond_true ← operand OpeType.label
  cond_false ← operand OpeType.label
  next ← operand OpeType.label
  cond.cond cond_true cond_false
  put_label cond_true
  true_stmt.dispatch none
  jump next
  put_label cond_false
  false_stmt.dispatch none
  put_label next
translate_if_else _ = undefined

unfoldable pub translate_if : List Visit → M (Unit {0})
translate_if (cond ∷ stmt ∷ _) = do
  cond_true ← operand OpeType.label
  cond_false ← operand OpeType.label
  cond.cond cond_true cond_false
  put_label cond_true
  stmt.dispatch none
  put_label cond_false
translate_if _ = undefined

unfoldable pub translate_return : List Visit → M (Unit {0})
translate_return [] = undefined
translate_return (sub_exp ∷ _) = do
  p ← operand OpeType.temp
  a ← sub_exp.dispatch (some p)
  r ← try_deref a.dst
  instr IrType.ret (some r) none none

unfoldable pub translate_compst : List Visit → M (Unit {0})
translate_compst kids = dispatch_all kids

unfoldable pub translate_stmt_is_compst : Info → List Visit → M (Unit {0})
translate_stmt_is_compst info kids = do
  symtab ← need info.sema_symtab
  enter_scope symtab
  dispatch_first kids
  leave_scope symtab

unfoldable pub translate_stmt_is_exp : List Visit → M (Unit {0})
translate_stmt_is_exp kids = dispatch_first kids
