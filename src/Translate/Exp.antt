-- ===== src/Translate/Exp.antt =====
-- The expressions of translate.c. `free` gives no address back, so it is left out; the messages of
-- LOG, WARN and PANIC are compiled out.
use naivecc.Base.{ℕ, ◌&&◌, ◌||◌, Option, none, some, List, [], ◌∷◌, ◌==◌, if◌then◌else◌}
use naivecc.Base.Int.{ℤ, pos, ◌+ℤ◌, ◌-ℤ◌, ◌*ℤ◌, ◌/ℤ◌, beq_ℤ}
use naivecc.Operand.{Operand, OpeType, FloatOps, same_ope_type, checked}
use naivecc.Ir.Kinds.{IrType}
use naivecc.CmmType.{TypeClass, Types, same_class}
use naivecc.Syntax.{Tag, Val, Info, same_tag, val_i, val_f, val_s}
use naivecc.Translate.{
  M, ◌>>=◌, ◌>>◌, pure, undefined, need, operand, cell, set_integer, set_real, set_base_type, instr,
  replace, find_symbol, find_field, Attr, Visit, try_deref,
}

-- A new integer constant.
unfoldable pub integer_operand : ℤ → M Operand
integer_operand n = do p ← operand OpeType.integer; set_integer p n; pure p

unfoldable pub float_operand : ℕ → M Operand
float_operand n = do p ← operand OpeType.float; set_real p n; pure p

abbrev pub leave : Option Operand → M Attr
leave dst = pure (record { dst = dst; base = none })

module _ (f : FloatOps) (types : Types) where
  unfoldable pub translate_exp_is_id : List Visit → Option Operand → M Attr
  translate_exp_is_id [] dst = undefined
  translate_exp_is_id (id ∷ _) dst = do
    name ← need (val_s id.info.val)
    r ← find_symbol name
    elim r [
      | none ↦ leave dst
      | some sym ↦
          if same_class (types sym.type).class TypeClass.struct
          then (do
            p ← operand OpeType.addr
            set_base_type p (some sym.type)
            instr IrType.addr sym.address none (some p)
            pure (record { dst = some p; base = some p }))
          else if same_class (types sym.type).class TypeClass.array
          then (do
            p ← integer_operand (pos 0)
            b ← operand OpeType.addr
            instr IrType.addr sym.address none (some b)
            pure (record { dst = some p; base = some b }))
          else leave sym.address
    ]

  unfoldable pub translate_exp_is_const : Info → List Visit → Option Operand → M Attr
  translate_exp_is_const info [] dst = undefined
  translate_exp_is_const info (child ∷ _) dst =
      if same_tag info.tag Tag.exp_is_int || same_tag info.tag Tag.exp_is_float
      then if same_tag child.info.tag Tag.term_int
        then (do n ← need (val_i child.info.val); p ← integer_operand n; leave (some p))
        else if same_tag child.info.tag Tag.term_float
        then (do n ← need (val_f child.info.val); p ← float_operand n; leave (some p))
        else leave dst
      else undefined

  -- The store of the right side into the left one.
  unfoldable pub assign_to : Operand → Operand → M (Unit {0})
  assign_to l r = do
    lc ← cell l
    rc ← cell r
    if same_ope_type lc.type OpeType.var && same_ope_type rc.type OpeType.temp
        then replace l r
        else if same_ope_type lc.type OpeType.addr
        then instr IrType.deref_l (some l) (some r) none
        else instr IrType.assign (some r) none (some l)

  unfoldable pub translate_exp_is_assign : List Visit → Option Operand → M Attr
  translate_exp_is_assign (lexp ∷ rexp ∷ _) dst = do
    l0 ← operand OpeType.temp
    la ← lexp.dispatch (some l0)
    r0 ← operand OpeType.temp
    ra ← rexp.dispatch (some r0)
    r ← try_deref ra.dst
    l ← need la.dst
    assign_to l r
    leave (elim dst [ none ↦ none | some _ ↦ some l ])
  translate_exp_is_assign _ dst = undefined

  unfoldable pub translate_exp_is_exp : List Visit → Option Operand → M Attr
  translate_exp_is_exp [] dst = undefined
  translate_exp_is_exp (child ∷ _) dst = do a ← child.dispatch dst; leave a.dst

  -- The operand is not visited: its `dst` is the fresh temporary. A constant is made as an operand
  -- of type `OPE_NOT_USED` whose type is then written, which is a new operand of that type.
  unfoldable pub translate_unary_operation : List Visit → Option Operand → M Attr
  translate_unary_operation [] dst = undefined
  translate_unary_operation (rexp ∷ _) dst = do
    r ← operand OpeType.temp
    c ← cell r
    if same_ope_type c.type OpeType.integer
        then (do
          n ← need (checked (pos 0 -ℤ c.integer))
          const_ope ← integer_operand n
          leave (some const_ope))
        else if same_ope_type c.type OpeType.float
        then (do const_ope ← float_operand (f.neg c.real); leave (some const_ope))
        else (do
          const_ope ← operand OpeType.not_used
          p ← integer_operand (pos 0)
          instr IrType.sub (some p) (some r) dst
          leave dst)

  -- `operator[0]`
  unfoldable pub op_char : Val → Option ℕ
  op_char v = elim (val_s v) [ none ↦ none | some s ↦ elim s [ [] ↦ some 0 | c ∷ cs ↦ some c ] ]

  -- The switch of `CALC`; with another operator the value stays zero.
  unfoldable pub fold_int : ℕ → ℤ → ℤ → Option ℤ
  fold_int op a b =
      if op == b'+'
      then checked (a +ℤ b)
      else if op == b'-'
      then checked (a -ℤ b)
      else if op == b'*'
      then checked (a *ℤ b)
      else if op == b'/'
      then if beq_ℤ b (pos 0) then none else checked (a /ℤ b)
      else some (pos 0)

  unfoldable pub fold_float : ℕ → ℕ → ℕ → ℕ
  fold_float op a b =
      if op == b'+'
      then f.add a b
      else if op == b'-'
      then f.sub a b
      else if op == b'*'
      then f.mul a b
      else if op == b'/'
      then f.div a b
      else 0

  unfoldable pub emit_binary : ℕ → Operand → Operand → Option Operand → M Attr
  emit_binary op l r dst = do
    if op == b'+'
        then instr IrType.add (some l) (some r) dst
        else if op == b'-'
        then instr IrType.sub (some l) (some r) dst
        else if op == b'*'
        then instr IrType.mul (some l) (some r) dst
        else if op == b'/'
        then instr IrType.div (some l) (some r) dst
        else undefined
    leave dst

  -- The part after the operands: two constants of one type are folded.
  unfoldable pub combine : ℕ → Operand → Operand → Option Operand → M Attr
  combine op l r dst = do
    lc ← cell l
    rc ← cell r
    if same_ope_type lc.type rc.type
        then if same_ope_type lc.type OpeType.integer
          then (do
            n ← need (fold_int op lc.integer rc.integer)
            const_ope ← integer_operand n
            leave (some const_ope))
          else if same_ope_type lc.type OpeType.float
          then (do
            const_ope ← float_operand (fold_float op lc.real rc.real)
            leave (some const_ope))
          else (do const_ope ← operand OpeType.not_used; emit_binary op l r dst)
        else emit_binary op l r dst

  unfoldable pub translate_binary_operation : Info → List Visit → Option Operand → M Attr
  translate_binary_operation info kids none = leave none
  translate_binary_operation info (lexp ∷ rexp ∷ _) (some dst) = do
    l0 ← operand OpeType.temp
    la ← lexp.dispatch (some l0)
    r0 ← operand OpeType.temp
    ra ← rexp.dispatch (some r0)
    l ← try_deref la.dst
    r ← try_deref ra.dst
    op ← need (op_char info.val)
    combine op l r (some dst)
  translate_binary_operation info _ (some dst) = undefined

  unfoldable pub translate_exp_is_exp_field : List Visit → Option Operand → M Attr
  translate_exp_is_exp_field (struc ∷ field ∷ _) dst = do
    s0 ← operand OpeType.addr
    sa ← struc.dispatch (some s0)
    name ← need (val_s field.info.val)
    type ← need struc.info.sema_type
    table ← need (types type).field_table
    r ← find_field name table
    elim r [
      | none ↦ leave dst
      | some sym ↦ (do
        offset ← integer_operand sym.offset
        p ← operand OpeType.addr
        instr IrType.add sa.dst (some offset) (some p)
        leave (some p))
    ]
  translate_exp_is_exp_field _ dst = undefined
