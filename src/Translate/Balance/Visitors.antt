-- ===== src/Translate/Balance/Visitors.antt =====
-- Every visitor of translate.c leaves the scopes as they were.
use naivecc.Base.{Option-cases, inl, inr, ℕ, Option, none, some, List, [], ◌∷◌}
use naivecc.Base.Int.{ℤ}
use naivecc.Operand.{Operand}
use naivecc.Syntax.{Tag, Info}
use naivecc.Translate.{M, Attr, Visit, try_deref, dispatch_first, dispatch_all}
use naivecc.Translate.Exp.{integer_operand, float_operand}
use naivecc.Translate.Cond.{
  translate_cond_exp, translate_cond_not, translate_cond_relop, translate_cond_and,
  translate_cond_or, translate_cond, value_false, value_true, translate_cond_prepare,
  prepare_labels,
}
use naivecc.Translate.Stmt.{
  body_then, translate_for, translate_while, translate_if_else, translate_if, translate_return,
  translate_compst, translate_stmt_is_compst, translate_stmt_is_exp,
}
use naivecc.Translate.Program.{relabelled}
use naivecc.Translate.Safe.{All}
use naivecc.Translate.Balance.{
  stack, Balanced, VisitBalanced, Pops-bind, Pops-leave_scope, Balanced-enter_scope, Balanced-bind,
  Balanced-need, Balanced-dispatch, Balanced-find_symbol, Balanced-find_field, Balanced-operand,
  Balanced-pure, Balanced-option, balanced_rules,
}

pub Balanced-integer_operand : (n : ℤ) → Balanced (integer_operand n)
unfolding integer_operand
Balanced-integer_operand n = search balanced_rules depth 20

pub Balanced-float_operand : (n : ℕ) → Balanced (float_operand n)
unfolding float_operand
Balanced-float_operand n = search balanced_rules depth 20

pub Balanced-try_deref : (o : Option Operand) → Balanced (try_deref o)
unfolding try_deref
Balanced-try_deref none = search balanced_rules
Balanced-try_deref (some p) = search balanced_rules depth 20

pub ruleset more_rules =
    (balanced_rules, Balanced-integer_operand, Balanced-float_operand, Balanced-try_deref)

pub Balanced-dispatch_first :
    (kids : List Visit) → All VisitBalanced kids → Balanced (dispatch_first kids)
unfolding dispatch_first
Balanced-dispatch_first [] ok = search balanced_rules
Balanced-dispatch_first (v ∷ kids) (ok, oks) = search balanced_rules

pub Balanced-dispatch_all :
    (kids : List Visit) → All VisitBalanced kids → Balanced (dispatch_all kids)
unfolding dispatch_all
Balanced-dispatch_all [] ok = search balanced_rules
Balanced-dispatch_all (v ∷ kids) (ok, oks) =
    Balanced-bind _ _ (Balanced-dispatch v none ok) (λ _. Balanced-dispatch_all kids oks)

pub Balanced-translate_for :
    (kids : List Visit) → All VisitBalanced kids → Balanced (translate_for kids)
unfolding translate_for body_then
Balanced-translate_for (a ∷ b ∷ c ∷ d ∷ kids) (oa, (ob, (oc, (od, oks)))) =
    elim (Option-cases d.relabel) [
      | inr e ↦ rw e (search more_rules depth 40)
      | inl (m, e) ↦ let ok = od.relabel m e in rw e (search more_rules depth 40)
    ]
Balanced-translate_for _ ok = search balanced_rules

pub Balanced-translate_while :
    (kids : List Visit) → All VisitBalanced kids → Balanced (translate_while kids)
unfolding translate_while
Balanced-translate_while (a ∷ b ∷ kids) (oa, (ob, oks)) = search more_rules depth 40
Balanced-translate_while _ ok = search balanced_rules

pub Balanced-translate_if_else :
    (kids : List Visit) → All VisitBalanced kids → Balanced (translate_if_else kids)
unfolding translate_if_else
Balanced-translate_if_else (a ∷ b ∷ c ∷ kids) (oa, (ob, (oc, oks))) = search more_rules depth 40
Balanced-translate_if_else _ ok = search balanced_rules

pub Balanced-translate_if :
    (kids : List Visit) → All VisitBalanced kids → Balanced (translate_if kids)
unfolding translate_if
Balanced-translate_if (a ∷ b ∷ kids) (oa, (ob, oks)) = search more_rules depth 40
Balanced-translate_if _ ok = search balanced_rules

pub Balanced-translate_return :
    (kids : List Visit) → All VisitBalanced kids → Balanced (translate_return kids)
unfolding translate_return
Balanced-translate_return (a ∷ kids) (oa, oks) = search more_rules depth 40
Balanced-translate_return _ ok = search balanced_rules

pub Balanced-translate_compst :
    (kids : List Visit) → All VisitBalanced kids → Balanced (translate_compst kids)
unfolding translate_compst
Balanced-translate_compst kids ok = Balanced-dispatch_all kids ok

pub Balanced-translate_stmt_is_exp :
    (kids : List Visit) → All VisitBalanced kids → Balanced (translate_stmt_is_exp kids)
unfolding translate_stmt_is_exp
Balanced-translate_stmt_is_exp kids ok = Balanced-dispatch_first kids ok

pub Balanced-translate_stmt_is_compst :
    (info : Info) (kids : List Visit)
    → All VisitBalanced kids
    → Balanced (translate_stmt_is_compst info kids)
unfolding translate_stmt_is_compst
Balanced-translate_stmt_is_compst info kids ok =
    Balanced-bind _ _ (Balanced-need info.sema_symtab) (λ p.
      Balanced-enter_scope p _
        (λ _. Pops-bind _ _ (Balanced-dispatch_first kids ok) (λ _. Pops-leave_scope p)))

pub Balanced-translate_cond_not :
    (kids : List Visit)
    → All VisitBalanced kids
    → (t f : Operand) → Balanced (translate_cond_not kids t f)
unfolding translate_cond_not
Balanced-translate_cond_not (a ∷ kids) (oa, oks) t f = search more_rules depth 40
Balanced-translate_cond_not _ ok t f = search balanced_rules

pub Balanced-translate_cond_and :
    (kids : List Visit)
    → All VisitBalanced kids
    → (t f : Operand) → Balanced (translate_cond_and kids t f)
unfolding translate_cond_and
Balanced-translate_cond_and (a ∷ b ∷ kids) (oa, (ob, oks)) t f = search more_rules depth 40
Balanced-translate_cond_and _ ok t f = search balanced_rules

pub Balanced-translate_cond_or :
    (kids : List Visit)
    → All VisitBalanced kids
    → (t f : Operand) → Balanced (translate_cond_or kids t f)
unfolding translate_cond_or
Balanced-translate_cond_or (a ∷ b ∷ kids) (oa, (ob, oks)) t f = search more_rules depth 40
Balanced-translate_cond_or _ ok t f = search balanced_rules

pub Balanced-translate_cond_relop :
    (info : Info) (kids : List Visit)
    → All VisitBalanced kids
    → (t f : Operand) → Balanced (translate_cond_relop info kids t f)
unfolding translate_cond_relop
Balanced-translate_cond_relop info (a ∷ b ∷ kids) (oa, (ob, oks)) t f = search more_rules depth 40
Balanced-translate_cond_relop info _ ok t f = search balanced_rules

pub Balanced-translate_cond_exp :
    (m : Option Operand → M Attr)
    → ((dst : Option Operand) → Balanced (m dst))
    → (t f : Operand) → Balanced (translate_cond_exp m t f)
unfolding translate_cond_exp
Balanced-translate_cond_exp m x t f =
    Balanced-bind _ _ (search balanced_rules)
      (λ p. Balanced-bind _ _ (x (some p)) (λ a. search more_rules depth 20))

pub Balanced-value_false : (o : Option Operand) → Balanced (value_false o)
unfolding value_false
Balanced-value_false none = search balanced_rules
Balanced-value_false (some p) = search more_rules depth 20

pub Balanced-value_true : (o : Option Operand) → Balanced (value_true o)
unfolding value_true
Balanced-value_true none = search balanced_rules
Balanced-value_true (some p) = search more_rules depth 20

Balanced-prepare_labels :
    (c : Operand → Operand → M (Unit {0}))
    → ((t f : Operand) → Balanced (c t f))
    → (dst : Option Operand) → Balanced (prepare_labels c dst)
unfolding prepare_labels
Balanced-prepare_labels c x dst =
    search (more_rules, x, Balanced-value_false, Balanced-value_true) depth 20

pub Balanced-relabelled :
    (c : Operand → Operand → M (Unit {0}))
    → ((t f : Operand) → Balanced (c t f))
    → Balanced (relabelled c)
unfolding relabelled
Balanced-relabelled c x =
    Balanced-bind _ _ (Balanced-prepare_labels c x none) (λ r. search balanced_rules)

pub Balanced-translate_cond_prepare :
    (c : Operand → Operand → M (Unit {0}))
    → ((t f : Operand) → Balanced (c t f))
    → (dst : Option Operand) → Balanced (translate_cond_prepare c dst)
unfolding translate_cond_prepare
Balanced-translate_cond_prepare c x dst =
    Balanced-bind _ _ (Balanced-prepare_labels c x dst) (λ r. search balanced_rules)

pub Balanced-translate_cond :
    (value : Option Operand → M Attr) (info : Info) (kids : List Visit)
    → ((dst : Option Operand) → Balanced (value dst))
    → All VisitBalanced kids
    → (t f : Operand) → Balanced (translate_cond value info kids t f)
unfolding translate_cond
Balanced-translate_cond value info kids v ok t f = by_tag info.tag
  where
    by_tag :
        (k : Tag)
        → Balanced (
            (elim k as (λ _. Operand → Operand → M (Unit {0})) [
              | Tag.exp_is_and ↦ translate_cond_and kids
              | Tag.exp_is_or ↦ translate_cond_or kids
              | Tag.exp_is_relop ↦ translate_cond_relop info kids
              | Tag.exp_is_not ↦ translate_cond_not kids
              | _ ↦ translate_cond_exp value
            ])
              t f)
    by_tag Tag.exp_is_and = Balanced-translate_cond_and kids ok t f
    by_tag Tag.exp_is_or = Balanced-translate_cond_or kids ok t f
    by_tag Tag.exp_is_relop = Balanced-translate_cond_relop info kids ok t f
    by_tag Tag.exp_is_not = Balanced-translate_cond_not kids ok t f
    by_tag _ = Balanced-translate_cond_exp value v t f
