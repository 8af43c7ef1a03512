-- ===== src/Translate/Balance/Whole.antt =====
-- Every visitor, and the whole translation, leaves the scopes as they were.
use naivecc.Base.{none, some, Bool, true, false, Option, some, List, ◌≡◌, if◌then◌else◌}
use naivecc.Operand.{Operand, FloatOps}
use naivecc.CmmType.{Types}
use naivecc.Syntax.{Tag, Info, Tree, nil, node}
use naivecc.Translate.{M, TransState, Visit}
use naivecc.Translate.Program.{
  without_attr, is_logic, visitor_at, visitor, dispatcher, visit, visits, translate_tree,
}
use naivecc.Translate.Safe.{All}
use mathlib.Core.Path.{subst}
use naivecc.Translate.Balance.{Balanced, VisitBalanced, Balanced-bind, balanced_rules}
use naivecc.Translate.Balance.{Balanced-trans_default}
use naivecc.Translate.{trans_default}
use naivecc.Translate.Balance.Visitors.{
  Balanced-relabelled, Balanced-dispatch_first, Balanced-translate_cond,
  Balanced-translate_cond_prepare, Balanced-translate_for, Balanced-translate_while,
  Balanced-translate_if_else, Balanced-translate_if, Balanced-translate_return,
  Balanced-translate_compst, Balanced-translate_stmt_is_compst, Balanced-translate_stmt_is_exp,
}
use naivecc.Translate.Balance.Exps.{
  Balanced-translate_exp_is_id, Balanced-translate_exp_is_const, Balanced-translate_exp_is_assign,
  Balanced-translate_exp_is_exp, Balanced-translate_unary_operation,
  Balanced-translate_binary_operation, Balanced-translate_exp_is_exp_field,
  Balanced-translate_exp_is_exp_idx,
}
use naivecc.Translate.Balance.Defs.{
  Balanced-translate_call, Balanced-translate_func_head, Balanced-translate_dec_is_vardec,
  Balanced-translate_def_is_spec_dec, Balanced-translate_extdef_spec,
  Balanced-translate_extdef_func, Balanced-translate_ast,
}

module _ (f : FloatOps) (types : Types) where
  Balanced-without_attr :
      (m : M (Unit {0})) → Balanced m → (dst : Option Operand) → Balanced (without_attr m dst)
  unfolding without_attr
  Balanced-without_attr m x dst = Balanced-bind _ _ x (λ _. search balanced_rules)

  Balanced-visitor_at :
      (k : Tag) (info : Info) (kids : List Visit)
      → All VisitBalanced kids
      → (dst : Option Operand) → Balanced (visitor_at f types k info kids dst)
  unfolding visitor_at
  Balanced-visitor_at Tag.prog_is_extdef info kids ok dst =
      Balanced-without_attr _ (Balanced-translate_ast f types kids ok) dst
  Balanced-visitor_at Tag.extdef_is_spec info kids ok dst =
      Balanced-without_attr _ (Balanced-translate_extdef_spec f types) dst
  Balanced-visitor_at Tag.extdef_is_spec_func_compst info kids ok dst =
      Balanced-without_attr _ (Balanced-translate_extdef_func f types info kids ok) dst
  Balanced-visitor_at Tag.func_is_id_var info kids ok dst =
      Balanced-without_attr _ (Balanced-translate_func_head f types kids) dst
  Balanced-visitor_at Tag.compst_is_def_stmt info kids ok dst =
      Balanced-without_attr _ (Balanced-translate_compst kids ok) dst
  Balanced-visitor_at Tag.dec_is_vardec info kids ok dst =
      Balanced-without_attr _ (Balanced-translate_dec_is_vardec f types kids ok) dst
  Balanced-visitor_at Tag.dec_is_vardec_initialization info kids ok dst =
      Balanced-without_attr _ (Balanced-translate_dec_is_vardec f types kids ok) dst
  Balanced-visitor_at Tag.def_is_spec_dec info kids ok dst =
      Balanced-without_attr _ (Balanced-translate_def_is_spec_dec f types kids ok) dst
  Balanced-visitor_at Tag.stmt_is_compst info kids ok dst =
      Balanced-without_attr _ (Balanced-translate_stmt_is_compst info kids ok) dst
  Balanced-visitor_at Tag.stmt_is_exp info kids ok dst =
      Balanced-without_attr _ (Balanced-translate_stmt_is_exp kids ok) dst
  Balanced-visitor_at Tag.stmt_is_return info kids ok dst =
      Balanced-without_attr _ (Balanced-translate_return kids ok) dst
  Balanced-visitor_at Tag.stmt_is_if info kids ok dst =
      Balanced-without_attr _ (Balanced-translate_if kids ok) dst
  Balanced-visitor_at Tag.stmt_is_if_else info kids ok dst =
      Balanced-without_attr _ (Balanced-translate_if_else kids ok) dst
  Balanced-visitor_at Tag.stmt_is_for info kids ok dst =
      Balanced-without_attr _ (Balanced-translate_for kids ok) dst
  Balanced-visitor_at Tag.stmt_is_while info kids ok dst =
      Balanced-without_attr _ (Balanced-translate_while kids ok) dst
  Balanced-visitor_at Tag.exp_is_exp info kids ok dst =
      Balanced-translate_exp_is_exp f types kids ok dst
  Balanced-visitor_at Tag.exp_is_binary info kids ok dst =
      Balanced-translate_binary_operation f types info kids ok dst
  Balanced-visitor_at Tag.exp_is_exp_field info kids ok dst =
      Balanced-translate_exp_is_exp_field f types kids ok dst
  Balanced-visitor_at Tag.exp_is_unary info kids ok dst =
      Balanced-translate_unary_operation f types kids ok dst
  Balanced-visitor_at Tag.exp_is_int info kids ok dst =
      Balanced-translate_exp_is_const f types info kids ok dst
  Balanced-visitor_at Tag.exp_is_float info kids ok dst =
      Balanced-translate_exp_is_const f types info kids ok dst
  Balanced-visitor_at Tag.exp_is_id info kids ok dst =
      Balanced-translate_exp_is_id f types kids ok dst
  Balanced-visitor_at Tag.exp_is_id_arg info kids ok dst =
      Balanced-translate_call f types kids ok dst
  Balanced-visitor_at Tag.exp_is_assign info kids ok dst =
      Balanced-translate_exp_is_assign f types kids ok dst
  Balanced-visitor_at Tag.exp_is_exp_idx info kids ok dst =
      Balanced-translate_exp_is_exp_idx f types info kids ok dst
  Balanced-visitor_at Tag.term_int info kids ok dst = search balanced_rules
  Balanced-visitor_at Tag.term_float info kids ok dst = search balanced_rules
  Balanced-visitor_at Tag.term_id info kids ok dst = search balanced_rules
  Balanced-visitor_at _ info kids ok dst =
      Balanced-without_attr trans_default Balanced-trans_default dst

  Balanced-either :
      {A : Type 0} (c : Bool) (m k : Option Operand → M A)
      → ((dst : Option Operand) → Balanced (m dst))
      → ((dst : Option Operand) → Balanced (k dst))
      → (dst : Option Operand) → Balanced ((if c then m else k) dst)
  Balanced-either true m k x y = x
  Balanced-either false m k x y = y

  relabel-visit :
      (c : Bool) (m k : M Operand) → Balanced m → (if c then some m else none) ≡ some k → Balanced k
  relabel-visit true m k x e = let same : m ≡ k = cc e in subst Balanced same x
  relabel-visit false m k x e = cc e

  VisitBalanced-visit :
      (info : Info) (kids : List Visit)
      → All VisitBalanced kids
      → VisitBalanced (visit f types info kids)
  unfolding visit dispatcher
  VisitBalanced-visit info kids ok =
      let v : ((dst : Option Operand) → Balanced (visitor f types info kids dst)) =
        Balanced-visitor_at info.tag info kids ok in
      let c = Balanced-translate_cond (visitor f types info kids) info kids v ok in
      record {
        dispatch = Balanced-either (is_logic info.tag) _ _ (Balanced-translate_cond_prepare _ c) v;
        relabel = λ m e. relabel-visit (is_logic info.tag) _ m (Balanced-relabelled _ c) e;
        cond = c;
      }

  VisitBalanced-visits : (t : Tree) → All VisitBalanced (visits f types t)
  unfolding visits
  VisitBalanced-visits nil = tt
  VisitBalanced-visits (node info child sibling) = (
    VisitBalanced-visit info (visits f types child) (VisitBalanced-visits child),
    VisitBalanced-visits sibling,
  )

module _ (f : FloatOps) (types : Types) where
  -- A translation that ends leaves the stack of scopes as it found it: every scope that a function
  -- or a compound statement enters is left again.
  pub translate_tree-stack :
      (prog : Tree) (s t : TransState) (a : Unit {0})
      → translate_tree f types prog s ≡ some (a, t)
      → t.scopes.scopes ≡ s.scopes.scopes
  unfolding translate_tree
  translate_tree-stack prog s t a e =
      (Balanced-dispatch_first (visits f types prog) (VisitBalanced-visits f types prog)).at s t a e
