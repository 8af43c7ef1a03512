-- ===== src/Translate/Keeps/Stmt.antt =====
-- The statements of translate.c.
use naivecc.Base.{Option-cases, inl, inr, false, none, List, [], ◌∷◌}
use naivecc.Syntax.{Info}
use naivecc.Translate.{Visit, dispatch_first, dispatch_all}
use naivecc.Translate.Stmt.{
  body_then, translate_for, translate_while, translate_if_else, translate_if, translate_return,
  translate_compst, translate_stmt_is_compst, translate_stmt_is_exp,
}
use naivecc.Translate.Loops.{PlainBody}
use naivecc.Translate.Safe.{Setting, All, Safe}
use naivecc.Translate.Safe.Rules.{Safe-bind}
use naivecc.Translate.Safe.Visits.{VisitOk, Has-none}
use naivecc.Translate.Safe.Sequence.{
  safe_rules, Safe-dispatch_then, Safe-need_then, Safe-enter_scope_then,
}
use naivecc.Translate.Safe.Fields.{Safe-leave_scope}
use naivecc.Translate.Safe.Labels.{Safe-label, label_rules}
use naivecc.Translate.Safe.Relabel.{Safe-relabel_then, Safe-spare_label}

module _ {ty : Setting} where
  pub Safe-dispatch_first :
      {H : Type 0} (kids : List Visit)
      → All (VisitOk ty) kids
      → Safe ty H false [] [] (dispatch_first kids) (λ _. Unit)
  unfolding dispatch_first
  Safe-dispatch_first [] ok = search safe_rules
  Safe-dispatch_first (v ∷ kids) (ok, oks) = search safe_rules

  pub Safe-dispatch_all :
      (kids : List Visit) {H : Type 0}
      → All (VisitOk ty) kids
      → Safe ty H false [] [] (dispatch_all kids) (λ _. Unit)
  unfolding dispatch_all
  Safe-dispatch_all [] ok = search safe_rules
  Safe-dispatch_all (v ∷ kids) (ok, oks) =
      Safe-dispatch_then v none _ ok Has-none (λ _. Safe-dispatch_all kids oks)

  pub Safe-translate_for :
      {H : Type 0} (kids : List Visit)
      → All (VisitOk ty) kids
      → (ty.IsOnce → PlainBody kids)
      → Safe ty H false [] [] (translate_for kids) (λ _. Unit)
  unfolding translate_for body_then
  Safe-translate_for (i ∷ c ∷ s ∷ l ∷ _) (oi, (oc, (os, (ol, oks)))) plain =
      elim (Option-cases l.relabel) [
        | inr e ↦ rw e (search (safe_rules, label_rules) depth 40)
        | inl (m, e) ↦
            let ok = ol.relabel m e in
            let never : (ty.IsOnce → ⊥) = λ o. cc (plain o, e) in
            rw e (
              Safe-dispatch_then i none _ oi Has-none (λ _. Safe-label _ (λ b. Safe-label _ (λ ct.
                Safe-label _ (λ cf.
                  Safe-spare_label _
                    (λ n. search (safe_rules, label_rules, Safe-relabel_then) depth 40))))))
      ]
  Safe-translate_for _ ok plain = search safe_rules

  pub Safe-translate_while :
      {H : Type 0} (kids : List Visit)
      → All (VisitOk ty) kids
      → Safe ty H false [] [] (translate_while kids) (λ _. Unit)
  unfolding translate_while
  Safe-translate_while (c ∷ l ∷ _) (oc, (ol, oks)) = search (safe_rules, label_rules) depth 40
  Safe-translate_while _ ok = search safe_rules

  pub Safe-translate_if_else :
      {H : Type 0} (kids : List Visit)
      → All (VisitOk ty) kids
      → Safe ty H false [] [] (translate_if_else kids) (λ _. Unit)
  unfolding translate_if_else
  Safe-translate_if_else (c ∷ t ∷ f ∷ _) (oc, (ot, (of, oks))) =
      search (safe_rules, label_rules) depth 40
  Safe-translate_if_else _ ok = search safe_rules

  pub Safe-translate_if :
      {H : Type 0} (kids : List Visit)
      → All (VisitOk ty) kids
      → Safe ty H false [] [] (translate_if kids) (λ _. Unit)
  unfolding translate_if
  Safe-translate_if (c ∷ t ∷ _) (oc, (ot, oks)) = search (safe_rules, label_rules) depth 40
  Safe-translate_if _ ok = search safe_rules

  pub Safe-translate_return :
      {H : Type 0} (kids : List Visit)
      → All (VisitOk ty) kids
      → Safe ty H false [] [] (translate_return kids) (λ _. Unit)
  unfolding translate_return
  Safe-translate_return [] ok = search safe_rules
  Safe-translate_return (e ∷ kids) (ok, oks) = search safe_rules depth 20

  pub Safe-translate_compst :
      {H : Type 0} (kids : List Visit)
      → All (VisitOk ty) kids
      → Safe ty H false [] [] (translate_compst kids) (λ _. Unit)
  unfolding translate_compst
  Safe-translate_compst kids ok = Safe-dispatch_all kids ok

  pub Safe-translate_stmt_is_compst :
      {H : Type 0} (info : Info) (kids : List Visit)
      → All (VisitOk ty) kids
      → Safe ty H false [] [] (translate_stmt_is_compst info kids) (λ _. Unit)
  unfolding translate_stmt_is_compst
  Safe-translate_stmt_is_compst info kids ok = Safe-need_then info.sema_symtab _ (λ symtab.
      Safe-enter_scope_then symtab _
        (λ _. Safe-bind _ _ (Safe-dispatch_first kids ok) (λ _. Safe-leave_scope symtab)))

  pub Safe-translate_stmt_is_exp :
      {H : Type 0} (kids : List Visit)
      → All (VisitOk ty) kids
      → Safe ty H false [] [] (translate_stmt_is_exp kids) (λ _. Unit)
  unfolding translate_stmt_is_exp
  Safe-translate_stmt_is_exp kids ok = Safe-dispatch_first kids ok
