-- ===== src/Translate/Keeps/Def.antt =====
-- The definitions of translate.c.
use mathlib.Core.Path.{subst}
use naivecc.Symtab.{Symbol}
use naivecc.Base.{ℕ, ◌≡◌, refl, Option, Bool, false, none, some, List, [], ◌∷◌}
use naivecc.Operand.{Operand, OpeType}
use naivecc.CmmType.{Types}
use naivecc.Syntax.{Info}
use naivecc.Translate.{Visit}
use naivecc.Translate.Def.{
  second_name, first_name, translate_param, translate_params, translate_func_head, declare,
  initialize, translate_dec_is_vardec, translate_def_is_spec_dec, translate_extdef_spec,
  translate_extdef_func, translate_ast,
}
use naivecc.Translate.Safe.{Setting, All, IsDat, Has, Safe}
use naivecc.Translate.Safe.Symbols.{FoundOk}
use naivecc.Translate.Safe.Rules.{Safe-bind}
use naivecc.Translate.Safe.Fields.{Safe-leave_scope}
use naivecc.Translate.Safe.Visits.{VisitOk, Has-dst, Has-last, Has-none}
use naivecc.Translate.Safe.Sequence.{
  safe_rules, Safe-operand_then, Safe-try_deref_then, Safe-need_then, Safe-dispatch_then,
  Safe-find_symbol_then, Safe-enter_scope_then, Safe-set_base_type_then,
}
use naivecc.Translate.Keeps.Cond.{Safe-integer_operand_then}
use naivecc.Translate.Keeps.Stmt.{Safe-dispatch_first, Safe-dispatch_all}

module _ {ty : Setting} where
  Safe-translate_param :
      (types : Types) {H : Type 0} (v : Visit)
      → Safe ty H false [] [] (translate_param types v) (λ _. Unit)
  unfolding translate_param
  Safe-translate_param types v = Safe-need_then (second_name v) _ (λ name.
      Safe-find_symbol_then name _ (λ r. Safe-need_then r _ (λ sym.
        Safe-bind {P = λ p. IsDat ty (some p)} _ _ (search safe_rules depth 20)
          (λ p. search safe_rules depth 10))))

  Safe-translate_params :
      (types : Types) (params : List Visit) {H : Type 0}
      → Safe ty H false [] [] (translate_params types params) (λ _. Unit)
  unfolding translate_params
  Safe-translate_params types [] = search safe_rules
  Safe-translate_params types (v ∷ params) =
      Safe-bind _ _ (Safe-translate_param types v) (λ _. Safe-translate_params types params)

  pub Safe-translate_func_head :
      (types : Types) {H : Type 0} (kids : List Visit)
      → Safe ty H false [] [] (translate_func_head types kids) (λ _. Unit)
  unfolding translate_func_head
  Safe-translate_func_head types [] = search safe_rules
  Safe-translate_func_head types (v ∷ params) = search (safe_rules, Safe-translate_params) depth 20

  Safe-declare :
      (types : Types) {H : Type 0} {b : Bool} {J : List Operand} (name : List ℕ) (t : ℕ)
      → Safe ty H b [] J (declare types name t) (λ p. IsDat ty (some p))
  unfolding declare
  Safe-declare types name t = search (safe_rules, Safe-integer_operand_then) depth 20

  -- The address of a symbol that a query has found.
  Has-address :
      {H : Type 0} (r : Option Symbol) (sym : Symbol) (p : Operand)
      → Has (((H × FoundOk ty r) × (r ≡ some sym)) × (sym.address ≡ some p)) (IsDat ty (some p))
  Has-address r sym p = record {
    get = λ h.
        let found : FoundOk ty (some sym) = subst (FoundOk ty) h.0.1 h.0.0.1 in
        subst (IsDat ty) h.1 found;
  }

  Safe-initialize :
      (types : Types) {H : Type 0} (name : List ℕ) (kids : List Visit)
      → All (VisitOk ty) kids
      → Safe ty H false [] [] (initialize types name kids) (λ _. Unit)
  unfolding initialize
  Safe-initialize types name [] ok = search safe_rules
  Safe-initialize types name (v ∷ kids) (ok, oks) = Safe-operand_then OpeType.temp _ refl (λ i0.
      Safe-dispatch_then v (some i0) _ ok Has-last (λ a.
        Safe-try_deref_then a.dst _ (Has-dst a) (λ d. Safe-find_symbol_then name _ (λ r.
          Safe-need_then r _ (λ sym.
            Safe-need_then sym.address _ (λ p. search (safe_rules, Has-address) depth 20))))))

  pub Safe-translate_dec_is_vardec :
      (types : Types) {H : Type 0} (kids : List Visit)
      → All (VisitOk ty) kids
      → Safe ty H false [] [] (translate_dec_is_vardec types kids) (λ _. Unit)
  unfolding translate_dec_is_vardec
  Safe-translate_dec_is_vardec types [] ok = search safe_rules
  Safe-translate_dec_is_vardec types (v ∷ rest) (ok, oks) = Safe-need_then (first_name v) _ (λ name.
      Safe-find_symbol_then name _ (λ r. Safe-need_then r _ (λ sym.
        Safe-bind _ _ (Safe-declare types name sym.type) (λ p.
          Safe-set_base_type_then p (some sym.type) _ (λ _. Safe-initialize types name rest oks)))))

  pub Safe-translate_def_is_spec_dec :
      {H : Type 0} (kids : List Visit)
      → All (VisitOk ty) kids
      → Safe ty H false [] [] (translate_def_is_spec_dec kids) (λ _. Unit)
  unfolding translate_def_is_spec_dec
  Safe-translate_def_is_spec_dec [] ok = search safe_rules
  Safe-translate_def_is_spec_dec (v ∷ decs) (ok, oks) = Safe-dispatch_all decs oks

  pub Safe-translate_extdef_spec :
      {H : Type 0} → Safe ty H false [] [] translate_extdef_spec (λ _. Unit)
  unfolding translate_extdef_spec
  Safe-translate_extdef_spec = search safe_rules

  pub Safe-translate_extdef_func :
      {H : Type 0} (info : Info) (kids : List Visit)
      → All (VisitOk ty) kids
      → Safe ty H false [] [] (translate_extdef_func info kids) (λ _. Unit)
  unfolding translate_extdef_func
  Safe-translate_extdef_func info (spec ∷ func ∷ rest) (os, (of, oks)) =
      Safe-need_then info.sema_symtab _ (λ symtab. Safe-enter_scope_then symtab _ (λ _.
        Safe-dispatch_then func none _ of Has-none
          (λ _. Safe-bind _ _ (Safe-dispatch_first rest oks) (λ _. Safe-leave_scope symtab))))
  Safe-translate_extdef_func info _ ok = search safe_rules

  pub Safe-translate_ast :
      {H : Type 0} (kids : List Visit)
      → All (VisitOk ty) kids
      → Safe ty H false [] [] (translate_ast kids) (λ _. Unit)
  unfolding translate_ast
  Safe-translate_ast kids ok = Safe-dispatch_all kids ok
