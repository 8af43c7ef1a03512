-- ===== src/Translate/Keeps/Whole.antt =====
-- The visit of every node of a tree, and the whole translation.
use naivecc.Base.{Bool, true, false, Option, none, some, ◌≡◌, refl, List, [], if◌then◌else◌}
use naivecc.Operand.{Operand, FloatOps}
use naivecc.CmmType.{Types}
use naivecc.Syntax.{same_tag, Tag, Info, Tree, nil, node}
use naivecc.Translate.{M, Attr, Visit, trans_default}
use naivecc.Translate.Program.{
  without_attr, is_logic, visitor_at, visitor, dispatcher, visit, visits, translate_tree,
}
use naivecc.Translate.Loops.{
  PlainBody, PlainBody-for, plain_loops, plain_loops-child, plain_loops-sibling,
}
use naivecc.Translate.Safe.Relabel.{Relabels}
use mathlib.Core.Path.{subst}
use naivecc.Translate.Safe.{Setting, All, Safe}
use naivecc.Translate.Safe.Rules.{Safe-bind, Safe-pure}
use naivecc.Translate.Safe.Fields.{Safe-trans_default}
use naivecc.Translate.Safe.Visits.{VisitOk, weaken, Has-self, Has-rest, Has-pair, Has-none}
use naivecc.Translate.Safe.Sequence.{safe_rules}
use naivecc.Translate.Keeps.Relabel.{relabelled-Relabels}
use naivecc.Translate.Keeps.Cond.{ValueOk, Safe-translate_cond, Safe-translate_cond_prepare}
use naivecc.Translate.Keeps.Exp.{
  Safe-translate_exp_is_const, Safe-translate_exp_is_exp, Safe-translate_unary_operation,
  Safe-translate_binary_operation, Safe-translate_exp_is_assign, Safe-translate_exp_is_id,
  Safe-translate_exp_is_exp_field,
}
use naivecc.Translate.Keeps.Index.{Safe-translate_exp_is_exp_idx}
use naivecc.Translate.Keeps.Call.{Safe-translate_call}
use naivecc.Translate.Keeps.Def.{
  Safe-translate_func_head, Safe-translate_dec_is_vardec, Safe-translate_def_is_spec_dec,
  Safe-translate_extdef_spec, Safe-translate_extdef_func, Safe-translate_ast,
}
use naivecc.Translate.Keeps.Stmt.{
  Safe-dispatch_first, Safe-translate_for, Safe-translate_while, Safe-translate_if_else,
  Safe-translate_if, Safe-translate_return, Safe-translate_compst, Safe-translate_stmt_is_compst,
  Safe-translate_stmt_is_exp,
}

module _ {ty : Setting} (f : FloatOps) (types : Types) where
  Safe-without_attr :
      (m : M (Unit {0})) → Safe ty Unit false [] [] m (λ _. Unit) → ValueOk ty (without_attr m)
  unfolding without_attr
  Safe-without_attr m x dst =
      Safe-bind _ _ (weaken x (λ h. tt)) (λ _. Safe-pure _ (Has-pair (Has-rest Has-self) Has-none))

  Safe-visitor_at :
      (k : Tag) (info : Info) (kids : List Visit)
      → All (VisitOk ty) kids
      → (ty.IsOnce → same_tag k Tag.stmt_is_for ≡ true → PlainBody kids)
      → ValueOk ty (visitor_at f types k info kids)
  unfolding visitor_at
  Safe-visitor_at Tag.prog_is_extdef info kids ok plain =
      Safe-without_attr _ (Safe-translate_ast kids ok)
  Safe-visitor_at Tag.extdef_is_spec info kids ok plain =
      Safe-without_attr _ (Safe-translate_extdef_spec)
  Safe-visitor_at Tag.extdef_is_spec_func_compst info kids ok plain =
      Safe-without_attr _ (Safe-translate_extdef_func info kids ok)
  Safe-visitor_at Tag.func_is_id_var info kids ok plain =
      Safe-without_attr _ (Safe-translate_func_head types kids)
  Safe-visitor_at Tag.compst_is_def_stmt info kids ok plain =
      Safe-without_attr _ (Safe-translate_compst kids ok)
  Safe-visitor_at Tag.dec_is_vardec info kids ok plain =
      Safe-without_attr _ (Safe-translate_dec_is_vardec types kids ok)
  Safe-visitor_at Tag.dec_is_vardec_initialization info kids ok plain =
      Safe-without_attr _ (Safe-translate_dec_is_vardec types kids ok)
  Safe-visitor_at Tag.def_is_spec_dec info kids ok plain =
      Safe-without_attr _ (Safe-translate_def_is_spec_dec kids ok)
  Safe-visitor_at Tag.stmt_is_compst info kids ok plain =
      Safe-without_attr _ (Safe-translate_stmt_is_compst info kids ok)
  Safe-visitor_at Tag.stmt_is_exp info kids ok plain =
      Safe-without_attr _ (Safe-translate_stmt_is_exp kids ok)
  Safe-visitor_at Tag.stmt_is_return info kids ok plain =
      Safe-without_attr _ (Safe-translate_return kids ok)
  Safe-visitor_at Tag.stmt_is_if info kids ok plain =
      Safe-without_attr _ (Safe-translate_if kids ok)
  Safe-visitor_at Tag.stmt_is_if_else info kids ok plain =
      Safe-without_attr _ (Safe-translate_if_else kids ok)
  Safe-visitor_at Tag.stmt_is_for info kids ok plain =
      Safe-without_attr _ (Safe-translate_for kids ok (λ o. plain o refl))
  Safe-visitor_at Tag.stmt_is_while info kids ok plain =
      Safe-without_attr _ (Safe-translate_while kids ok)
  Safe-visitor_at Tag.exp_is_exp info kids ok plain = Safe-translate_exp_is_exp f types kids ok
  Safe-visitor_at Tag.exp_is_binary info kids ok plain =
      Safe-translate_binary_operation f types info kids ok
  Safe-visitor_at Tag.exp_is_exp_field info kids ok plain =
      Safe-translate_exp_is_exp_field f types kids ok
  Safe-visitor_at Tag.exp_is_unary info kids ok plain = Safe-translate_unary_operation f types kids
  Safe-visitor_at Tag.exp_is_int info kids ok plain = Safe-translate_exp_is_const f types info kids
  Safe-visitor_at Tag.exp_is_float info kids ok plain =
      Safe-translate_exp_is_const f types info kids
  Safe-visitor_at Tag.exp_is_id info kids ok plain = Safe-translate_exp_is_id f types kids
  Safe-visitor_at Tag.exp_is_id_arg info kids ok plain = Safe-translate_call f types kids ok
  Safe-visitor_at Tag.exp_is_assign info kids ok plain =
      Safe-translate_exp_is_assign f types kids ok
  Safe-visitor_at Tag.exp_is_exp_idx info kids ok plain =
      Safe-translate_exp_is_exp_idx f types info kids ok
  Safe-visitor_at Tag.term_int info kids ok plain = λ dst. search safe_rules
  Safe-visitor_at Tag.term_float info kids ok plain = λ dst. search safe_rules
  Safe-visitor_at Tag.term_id info kids ok plain = λ dst. search safe_rules
  Safe-visitor_at _ info kids ok plain = Safe-without_attr trans_default Safe-trans_default

  ValueOk-if :
      (c : Bool) (m k : Option Operand → M Attr)
      → ValueOk ty m
      → ValueOk ty k
      → ValueOk ty (if c then m else k)
  ValueOk-if true m k x y = x
  ValueOk-if false m k x y = y

  relabel-visit :
      (c : Bool) (m k : M Operand)
      → Relabels ty m
      → (if c then some m else none) ≡ some k
      → Relabels ty k
  relabel-visit true m k x e = let same : m ≡ k = cc e in subst (Relabels ty) same x
  relabel-visit false m k x e = cc e

  VisitOk-visit :
      (info : Info) (kids : List Visit)
      → All (VisitOk ty) kids
      → (ty.IsOnce → same_tag info.tag Tag.stmt_is_for ≡ true → PlainBody kids)
      → VisitOk ty (visit f types info kids)
  unfolding visit dispatcher
  VisitOk-visit info kids ok plain =
      let v : ValueOk ty (visitor f types info kids) =
        Safe-visitor_at info.tag info kids ok plain in
      let c = Safe-translate_cond (visitor f types info kids) info kids v ok in
      record {
        dispatch = ValueOk-if (is_logic info.tag) _ _ (Safe-translate_cond_prepare _ c) v;
        relabel = λ m e. relabel-visit (is_logic info.tag) _ m (relabelled-Relabels _ c) e;
        cond = c;
      }

module _ (ty : Setting) (f : FloatOps) (types : Types) where
  pub VisitOk-visits :
      (t : Tree) → (ty.IsOnce → plain_loops t ≡ true) → All (VisitOk ty) (visits f types t)
  unfolding visits
  VisitOk-visits nil plain = tt
  VisitOk-visits (node info child sibling) plain = (
    VisitOk-visit f types info (visits f types child)
        (VisitOk-visits child (λ o. plain_loops-child info child sibling (plain o)))
        (λ o. PlainBody-for f types info child sibling (plain o)),
    VisitOk-visits sibling (λ o. plain_loops-sibling info child sibling (plain o)),
  )

  pub Safe-translate_tree :
      (prog : Tree)
      → (ty.IsOnce → plain_loops prog ≡ true)
      → Safe ty Unit false [] [] (translate_tree f types prog) (λ _. Unit)
  unfolding translate_tree
  Safe-translate_tree prog plain =
      Safe-dispatch_first (visits f types prog) (VisitOk-visits prog plain)
