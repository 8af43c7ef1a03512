-- ===== src/Translate/Balance/Defs.antt =====
-- The calls and the definitions of translate.c leave the scopes as they were.
use naivecc.Base.{ℕ, Option, none, some, List, [], ◌∷◌}
use naivecc.Operand.{Operand, FloatOps}
use naivecc.CmmType.{Types}
use naivecc.Syntax.{Info}
use naivecc.Translate.{Visit}
use naivecc.Translate.Call.{by_address, pass_arg, write_call, common_call, own_dst, translate_call}
use naivecc.Translate.Def.{
  translate_param, translate_params, translate_func_head, declare, initialize,
  translate_dec_is_vardec, translate_def_is_spec_dec, translate_extdef_spec, translate_extdef_func,
  translate_ast,
}
use naivecc.Translate.Safe.{All}
use naivecc.Translate.Balance.{
  Balanced, VisitBalanced, Pops-bind, Pops-leave_scope, Balanced-enter_scope, Balanced-bind,
  Balanced-need, Balanced-dispatch, Balanced-operand, balanced_rules,
}
use naivecc.Translate.Balance.Visitors.{more_rules, Balanced-dispatch_first, Balanced-dispatch_all}

module _ (f : FloatOps) (types : Types) where
  Balanced-by_address : (p : Operand) → Balanced (by_address f types p)
  unfolding by_address
  Balanced-by_address p = search more_rules depth 40

  Balanced-pass_arg :
      (args : List Visit) → All VisitBalanced args → Balanced (pass_arg f types args)
  unfolding pass_arg
  Balanced-pass_arg [] ok = search balanced_rules
  Balanced-pass_arg (v ∷ args) (ok, oks) = Balanced-bind _ _ (Balanced-operand _) (λ a0.
      Balanced-bind _ _ (Balanced-dispatch v (some a0) ok) (λ a.
        Balanced-bind _ _ (Balanced-pass_arg args oks)
          (λ _. search (more_rules, Balanced-by_address) depth 30)))

  Balanced-write_call :
      (args : List Visit) → All VisitBalanced args → Balanced (write_call f types args)
  unfolding write_call
  Balanced-write_call [] ok = search balanced_rules
  Balanced-write_call (v ∷ args) (ok, oks) = search more_rules depth 40

  Balanced-common_call :
      (name : List ℕ) (args : List Visit) (d : Operand)
      → All VisitBalanced args
      → Balanced (common_call f types name args d)
  unfolding common_call
  Balanced-common_call name args d ok =
      Balanced-bind _ _ (Balanced-pass_arg args ok) (λ _. search more_rules depth 40)

  Balanced-own_dst : (dst : Option Operand) → Balanced (own_dst f types dst)
  unfolding own_dst
  Balanced-own_dst none = search balanced_rules
  Balanced-own_dst (some p) = search balanced_rules

  pub Balanced-translate_call :
      (kids : List Visit)
      → All VisitBalanced kids
      → (dst : Option Operand) → Balanced (translate_call f types kids dst)
  unfolding translate_call
  Balanced-translate_call [] ok dst = search balanced_rules
  Balanced-translate_call (v ∷ args) (ok, oks) dst =
      search (more_rules, Balanced-own_dst, Balanced-write_call, Balanced-common_call) depth 40

  Balanced-translate_param : (v : Visit) → Balanced (translate_param types v)
  unfolding translate_param
  Balanced-translate_param v = search more_rules depth 40

  Balanced-translate_params : (params : List Visit) → Balanced (translate_params types params)
  unfolding translate_params
  Balanced-translate_params [] = search balanced_rules
  Balanced-translate_params (v ∷ params) =
      Balanced-bind _ _ (Balanced-translate_param v) (λ _. Balanced-translate_params params)

  pub Balanced-translate_func_head : (kids : List Visit) → Balanced (translate_func_head types kids)
  unfolding translate_func_head
  Balanced-translate_func_head [] = search balanced_rules
  Balanced-translate_func_head (v ∷ params) =
      search (more_rules, Balanced-translate_params) depth 40

  Balanced-declare : (name : List ℕ) (t : ℕ) → Balanced (declare types name t)
  unfolding declare
  Balanced-declare name t = search more_rules depth 40

  Balanced-initialize :
      (name : List ℕ) (kids : List Visit)
      → All VisitBalanced kids
      → Balanced (initialize types name kids)
  unfolding initialize
  Balanced-initialize p [] ok = search balanced_rules
  Balanced-initialize p (v ∷ kids) (ok, oks) = search more_rules depth 40

  pub Balanced-translate_dec_is_vardec :
      (kids : List Visit) → All VisitBalanced kids → Balanced (translate_dec_is_vardec types kids)
  unfolding translate_dec_is_vardec
  Balanced-translate_dec_is_vardec [] ok = search balanced_rules
  Balanced-translate_dec_is_vardec (v ∷ rest) (ok, oks) =
      search (more_rules, Balanced-declare, Balanced-initialize) depth 40

  pub Balanced-translate_def_is_spec_dec :
      (kids : List Visit) → All VisitBalanced kids → Balanced (translate_def_is_spec_dec kids)
  unfolding translate_def_is_spec_dec
  Balanced-translate_def_is_spec_dec [] ok = search balanced_rules
  Balanced-translate_def_is_spec_dec (v ∷ decs) (ok, oks) = Balanced-dispatch_all decs oks

  pub Balanced-translate_extdef_spec : Balanced translate_extdef_spec
  unfolding translate_extdef_spec
  Balanced-translate_extdef_spec = search balanced_rules

  pub Balanced-translate_extdef_func :
      (info : Info) (kids : List Visit)
      → All VisitBalanced kids
      → Balanced (translate_extdef_func info kids)
  unfolding translate_extdef_func
  Balanced-translate_extdef_func info (spec ∷ func ∷ rest) (os, (of, oks)) =
      Balanced-bind _ _ (Balanced-need info.sema_symtab) (λ p. Balanced-enter_scope p _ (λ _.
        Pops-bind _ _ (Balanced-dispatch func none of)
          (λ _. Pops-bind _ _ (Balanced-dispatch_first rest oks) (λ _. Pops-leave_scope p))))
  Balanced-translate_extdef_func info _ ok = search balanced_rules

  pub Balanced-translate_ast :
      (kids : List Visit) → All VisitBalanced kids → Balanced (translate_ast kids)
  unfolding translate_ast
  Balanced-translate_ast kids ok = Balanced-dispatch_all kids ok
