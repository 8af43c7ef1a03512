-- ===== src/Translate/Def.antt =====
-- The definitions of translate.c: functions, parameters and variables.
use naivecc.Base.{ℕ, Bool, true, ◌&&◌, Option, none, some, List, [], ◌∷◌, if◌then◌else◌}
use naivecc.Base.Int.{pos}
use naivecc.Operand.{Operand, OpeType, same_ope_type}
use naivecc.Ir.Kinds.{IrType}
use naivecc.CmmType.{TypeClass, Types, same_class, typecmp, basic_int, basic_float}
use naivecc.Syntax.{Info, val_s}
use naivecc.Translate.{
  M, ◌>>=◌, ◌>>◌, pure, undefined, need, operand, cell, set_name, set_size, set_base_type, instr,
  replace, find_symbol, set_address, Visit, try_deref, dispatch_first, dispatch_all, enter_scope,
  leave_scope,
}
use naivecc.Translate.Exp.{integer_operand}

-- The name of the second child.
unfoldable pub second_name : Visit → Option (List ℕ)
second_name v = elim v.child_names [
  | [] ↦ none
  | spec ∷ rest ↦ elim rest [ [] ↦ none | id ∷ _ ↦ id ]
]

-- The name below the first child.
unfoldable pub first_name : Visit → Option (List ℕ)
first_name v = elim v.child_names [ [] ↦ none | id ∷ _ ↦ id ]

module _ (types : Types) where
  unfoldable pub translate_param : Visit → M (Unit {0})
  translate_param param = do
    name ← need (second_name param)
    r ← find_symbol name
    sym ← need r
    p ←
        (if same_class (types sym.type).class TypeClass.array
          then (do
            q ← operand OpeType.addr
            set_address name q
            set_base_type q (some sym.type)
            pure q)
          else (do q ← operand OpeType.var; set_address name q; pure q))
    instr IrType.param (some p) none none

  unfoldable pub translate_params : List Visit → M (Unit {0})
  translate_params [] = pure tt
  translate_params (param ∷ params) = do translate_param param; translate_params params

  unfoldable pub translate_func_head : List Visit → M (Unit {0})
  translate_func_head [] = undefined
  translate_func_head (funcname ∷ params) = do
    name ← need (val_s funcname.info.val)
    rs ← operand OpeType.func
    set_name rs name
    instr IrType.func (some rs) none none
    translate_params params

  -- Whether a type compares equal to `int` or `float`. The two have no parts, so that any fuel
  -- above one gives the answer (`CmmType.Fuel`).
  unfoldable pub is_basic : ℕ → Option Bool
  is_basic t = elim (typecmp types 2 (some t) (some basic_int)) [
    | none ↦ none
    | some int ↦ if int then some true else typecmp types 2 (some t) (some basic_float)
  ]

  -- The operand of a variable, and its declaration.
  unfoldable pub declare : List ℕ → ℕ → M Operand
  declare name type = do
    basic ← need (is_basic type)
    if basic then (do p ← operand OpeType.var; set_address name p; pure p) else (do
      p ← operand OpeType.ref
      set_address name p
      n ← need (types type).type_size
      set_size p n
      size ← integer_operand (pos n)
      instr IrType.dec (some p) (some size) none
      pure p)

  -- `sym->address` is read again after the visit: the symbol is the one that the name still has, since
  -- the visit leaves the scopes and enters no symbol.
  unfoldable pub initialize : List ℕ → List Visit → M (Unit {0})
  initialize name [] = pure tt
  initialize name (init ∷ _) = do
    i0 ← operand OpeType.temp
    a ← init.dispatch (some i0)
    d ← try_deref a.dst
    r ← find_symbol name
    sym ← need r
    p ← need sym.address
    pc ← cell p
    dc ← cell d
    if same_ope_type pc.type OpeType.var && same_ope_type dc.type OpeType.temp
        then replace p d
        else instr IrType.assign (some d) none (some p)

  unfoldable pub translate_dec_is_vardec : List Visit → M (Unit {0})
  translate_dec_is_vardec [] = undefined
  translate_dec_is_vardec (vardec ∷ rest) = do
    name ← need (first_name vardec)
    r ← find_symbol name
    sym ← need r
    p ← declare name sym.type
    set_base_type p (some sym.type)
    initialize name rest

unfoldable pub translate_def_is_spec_dec : List Visit → M (Unit {0})
translate_def_is_spec_dec [] = undefined
translate_def_is_spec_dec (spec ∷ decs) = dispatch_all decs

unfoldable pub translate_extdef_spec : M (Unit {0})
translate_extdef_spec = pure tt

-- A NULL table would be on the stack of scopes and be read by the first query: `none`.
unfoldable pub translate_extdef_func : Info → List Visit → M (Unit {0})
translate_extdef_func info (spec ∷ func ∷ rest) = do
  symtab ← need info.sema_symtab
  enter_scope symtab
  func.dispatch none
  dispatch_first rest
  leave_scope symtab
translate_extdef_func info _ = undefined

unfoldable pub translate_ast : List Visit → M (Unit {0})
translate_ast kids = dispatch_all kids
