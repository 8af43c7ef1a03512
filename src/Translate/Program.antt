-- ===== src/Translate/Program.antt =====
-- `trans_visitors` and `translate` of translate.c: the visit of each node, by its tag.
use naivecc.Base.{ℕ, Bool, true, false, Option, none, some, List, [], ◌∷◌, if◌then◌else◌, map}
use naivecc.Operand.{Operand, FloatOps}
use naivecc.CmmType.{Types}
use naivecc.Syntax.{Tag, Info, Tree, nil, node, same_tag, val_s}
use naivecc.Register.Code.{Asm}
use naivecc.Asm.Emit.{print_instr}
use naivecc.Translate.{
  TransState, M, ◌>>◌, ◌>>=◌, pure, undefined, trans_default, Attr, Visit, dispatch_first,
}
use naivecc.Translate.Exp.{
  leave, translate_exp_is_id, translate_exp_is_const, translate_exp_is_assign, translate_exp_is_exp,
  translate_unary_operation, translate_binary_operation, translate_exp_is_exp_field,
}
use naivecc.Translate.Index.{translate_exp_is_exp_idx}
use naivecc.Translate.Call.{translate_call}
use naivecc.Translate.Cond.{prepare_labels, translate_cond, translate_cond_prepare}
use naivecc.Translate.Stmt.{
  translate_for, translate_while, translate_if_else, translate_if, translate_return,
  translate_compst, translate_stmt_is_compst, translate_stmt_is_exp,
}
use naivecc.Translate.Def.{
  translate_func_head, translate_dec_is_vardec, translate_def_is_spec_dec, translate_extdef_spec,
  translate_extdef_func, translate_ast,
}

-- A visitor that reads and writes no attribute of its own node.
unfoldable pub without_attr : M (Unit {0}) → Option Operand → M Attr
without_attr m dst = do m; leave dst

unfoldable pub is_logic : Tag → Bool
is_logic Tag.exp_is_and = true
is_logic Tag.exp_is_or = true
is_logic Tag.exp_is_not = true
is_logic Tag.exp_is_relop = true
is_logic _ = false

-- The way down along first children to a `TERM_ID`.
unfoldable pub name_from : Info → List Visit → Option (List ℕ)
name_from info kids =
    if same_tag info.tag Tag.term_id
    then val_s info.val
    else elim kids [ [] ↦ none | v ∷ _ ↦ v.id_name ]

-- The visit by `translate_cond_prepare` without a `dst`, and `label_true` after it.
unfoldable pub relabelled : (Operand → Operand → M (Unit {0})) → M Operand
relabelled cond = do r ← prepare_labels cond none; pure r.0

module _ (f : FloatOps) (types : Types) where
  -- `trans_visitors`, but for the four conditions. An empty entry is `trans_default`; the tags of
  -- terminals lie behind the end of the table.
  unfoldable pub visitor_at : Tag → Info → List Visit → Option Operand → M Attr
  visitor_at Tag.prog_is_extdef info kids = without_attr (translate_ast kids)
  visitor_at Tag.extdef_is_spec info kids = without_attr translate_extdef_spec
  visitor_at Tag.extdef_is_spec_func_compst info kids =
      without_attr (translate_extdef_func info kids)
  visitor_at Tag.func_is_id_var info kids = without_attr (translate_func_head types kids)
  visitor_at Tag.compst_is_def_stmt info kids = without_attr (translate_compst kids)
  visitor_at Tag.dec_is_vardec info kids = without_attr (translate_dec_is_vardec types kids)
  visitor_at Tag.dec_is_vardec_initialization info kids =
      without_attr (translate_dec_is_vardec types kids)
  visitor_at Tag.def_is_spec_dec info kids = without_attr (translate_def_is_spec_dec kids)
  visitor_at Tag.stmt_is_compst info kids = without_attr (translate_stmt_is_compst info kids)
  visitor_at Tag.stmt_is_exp info kids = without_attr (translate_stmt_is_exp kids)
  visitor_at Tag.stmt_is_return info kids = without_attr (translate_return kids)
  visitor_at Tag.stmt_is_if info kids = without_attr (translate_if kids)
  visitor_at Tag.stmt_is_if_else info kids = without_attr (translate_if_else kids)
  visitor_at Tag.stmt_is_for info kids = without_attr (translate_for kids)
  visitor_at Tag.stmt_is_while info kids = without_attr (translate_while kids)
  visitor_at Tag.exp_is_exp info kids = translate_exp_is_exp f types kids
  visitor_at Tag.exp_is_binary info kids = translate_binary_operation f types info kids
  visitor_at Tag.exp_is_exp_field info kids = translate_exp_is_exp_field f types kids
  visitor_at Tag.exp_is_unary info kids = translate_unary_operation f types kids
  visitor_at Tag.exp_is_int info kids = translate_exp_is_const f types info kids
  visitor_at Tag.exp_is_float info kids = translate_exp_is_const f types info kids
  visitor_at Tag.exp_is_id info kids = translate_exp_is_id f types kids
  visitor_at Tag.exp_is_id_arg info kids = translate_call f types kids
  visitor_at Tag.exp_is_assign info kids = translate_exp_is_assign f types kids
  visitor_at Tag.exp_is_exp_idx info kids = translate_exp_is_exp_idx f types info kids
  visitor_at Tag.term_int info kids = (λ dst. undefined)
  visitor_at Tag.term_float info kids = (λ dst. undefined)
  visitor_at Tag.term_id info kids = (λ dst. undefined)
  visitor_at _ info kids = without_attr trans_default

  abbrev pub visitor : Info → List Visit → Option Operand → M Attr
  visitor info kids = visitor_at info.tag info kids

  -- `translate_dispatcher` on a node.
  unfoldable pub dispatcher : Info → List Visit → Option Operand → M Attr
  dispatcher info kids =
      if is_logic info.tag
      then translate_cond_prepare (translate_cond (visitor info kids) info kids)
      else visitor info kids

  unfoldable pub visit : Info → List Visit → Visit
  visit info kids = record {
    info = info;
    id_name = name_from info kids;
    child_names = map (λ (v : Visit). v.id_name) kids;
    dispatch = dispatcher info kids;
    relabel =
        if is_logic info.tag
        then some (relabelled (translate_cond (visitor info kids) info kids))
        else none;
    cond = translate_cond (visitor info kids) info kids;
  }

  -- The visits of a node and its siblings.
  unfoldable pub visits : Tree → List Visit
  visits nil = []
  visits (node info child sibling) = visit info (visits child) ∷ visits sibling

  -- The first line of `translate`.
  unfoldable pub translate_tree : Tree → M (Unit {0})
  translate_tree prog = dispatch_first (visits prog)

  -- The assembly, or `none` inside where the program is not supported and a message is written.
  unfoldable pub translate : Tree → TransState → Option (Option (List Asm))
  translate prog s = elim (translate_tree prog s) [
    | none ↦ none
    | some r ↦
        if r.1.unsupport
        then some none
        else elim (print_instr f (record { buf = r.1.buf; heap = r.1.store.heap })) [
          | none ↦ none
          | some out ↦ some (some out)
        ]
  ]
