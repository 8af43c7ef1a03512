-- ===== src/Translate/Keeps/Exp.antt =====
-- The expressions of translate.c.
use naivecc.Base.{ℕ, Bool, false, Option, none, some, List, [], ◌∷◌, refl}
use naivecc.Operand.{Operand, OpeType, FloatOps}
use naivecc.CmmType.{Types}
use naivecc.Symtab.{Symbol}
use naivecc.Syntax.{Info, val_s}
use naivecc.Translate.{M, Visit}
use naivecc.Translate.Exp.{
  translate_exp_is_id, translate_exp_is_const, assign_to, translate_exp_is_assign,
  translate_exp_is_exp, translate_unary_operation, emit_binary, combine, translate_binary_operation,
  translate_exp_is_exp_field,
}
use naivecc.Translate.Safe.{Setting, All, IsDat, Has, Safe}
use naivecc.Translate.Safe.Rules.{Safe-bind, Safe-pure}
use naivecc.Translate.Safe.Symbols.{FoundOk}
use naivecc.Translate.Safe.Visits.{VisitOk, AttrOk, Has-last, Has-none, Has-pair}
use naivecc.Translate.Safe.Sequence.{
  safe_rules, Safe-operand_then, Safe-need_then, Safe-find_symbol_then, Safe-dispatch_then,
  Safe-try_deref_then, Safe-find_field_then,
}
use naivecc.Translate.Keeps.Cond.{ValueOk, Safe-integer_operand_then, Safe-float_operand_then}

module _ {ty : Setting} where
  Safe-found :
      {A : Type 0} {H : Type 0} {b : Bool} {L J : List Operand} {Q : A → Type 0} (r : Option Symbol)
      (m : M A) (k : Symbol → M A)
      → Has H (FoundOk ty r)
      → Safe ty H b L J m Q
      → ((x : Symbol) → Has H (IsDat ty x.address) → Safe ty H b L J (k x) Q)
      → Safe ty H b L J (elim r [ none ↦ m | some x ↦ k x ]) Q
  Safe-found none m k d x y = x
  Safe-found (some r) m k d x y = y r d

module _ {ty : Setting} (f : FloatOps) (types : Types) where
  pub Safe-translate_exp_is_const :
      (info : Info) (kids : List Visit) → ValueOk ty (translate_exp_is_const f types info kids)
  unfolding translate_exp_is_const
  Safe-translate_exp_is_const info [] dst = search safe_rules
  Safe-translate_exp_is_const info (child ∷ kids) dst =
      search (safe_rules, Safe-integer_operand_then, Safe-float_operand_then) depth 20

  Safe-assign_to :
      {H : Type 0} {b : Bool} {J : List Operand} (l r : Operand)
      → Has H (IsDat ty (some l))
      → Has H (IsDat ty (some r))
      → Safe ty H b [] J (assign_to f types l r) (λ _. Unit)
  unfolding assign_to
  Safe-assign_to l r dl dr = search safe_rules depth 20

  pub Safe-translate_exp_is_exp :
      (kids : List Visit) → All (VisitOk ty) kids → ValueOk ty (translate_exp_is_exp f types kids)
  unfolding translate_exp_is_exp
  Safe-translate_exp_is_exp [] ok dst = search safe_rules
  Safe-translate_exp_is_exp (v ∷ kids) (ok, oks) dst = search safe_rules depth 20

  pub Safe-translate_unary_operation :
      (kids : List Visit) → ValueOk ty (translate_unary_operation f types kids)
  unfolding translate_unary_operation
  Safe-translate_unary_operation [] dst = search safe_rules
  Safe-translate_unary_operation (v ∷ kids) dst =
      search (safe_rules, Safe-integer_operand_then, Safe-float_operand_then) depth 20

  Safe-emit_binary :
      {H : Type 0} {b : Bool} {J : List Operand} (op : ℕ) (l r : Operand) (dst : Option Operand)
      → Has H (IsDat ty (some l))
      → Has H (IsDat ty (some r))
      → Has H (IsDat ty dst)
      → Safe ty H b [] J (emit_binary f types op l r dst) (AttrOk ty)
  unfolding emit_binary
  Safe-emit_binary op l r dst dl dr dd =
      Safe-bind {P = λ _. Unit} _ _ (search safe_rules depth 20) (λ _. search safe_rules depth 20)

  Safe-combine :
      {H : Type 0} {b : Bool} {J : List Operand} (op : ℕ) (l r : Operand) (dst : Option Operand)
      → Has H (IsDat ty (some l))
      → Has H (IsDat ty (some r))
      → Has H (IsDat ty dst)
      → Safe ty H b [] J (combine f types op l r dst) (AttrOk ty)
  unfolding combine
  Safe-combine op l r dst dl dr dd =
      search (safe_rules, Safe-integer_operand_then, Safe-float_operand_then, Safe-emit_binary)
        depth 20

  binary_some :
      (info : Info) (kids : List Visit)
      → All (VisitOk ty) kids
      → (dst : Operand)
      → Safe ty
          (IsDat ty (some dst))
          false
          []
          []
          (translate_binary_operation f types info kids (some dst))
          (AttrOk ty)
  unfolding translate_binary_operation
  binary_some info (l ∷ r ∷ kids) (ol, (or, oks)) dst = search (safe_rules, Safe-combine) depth 40
  binary_some info _ ok dst = search safe_rules

  pub Safe-translate_binary_operation :
      (info : Info) (kids : List Visit)
      → All (VisitOk ty) kids
      → ValueOk ty (translate_binary_operation f types info kids)
  unfolding translate_binary_operation
  Safe-translate_binary_operation info kids ok none = search safe_rules
  Safe-translate_binary_operation info kids ok (some dst) = binary_some info kids ok dst

  Has-keep :
      {H : Type 0} (dst : Option Operand) (l : Operand)
      → Has H (IsDat ty (some l))
      → Has H (IsDat ty (elim dst [ none ↦ none | some _ ↦ some l ]))
  Has-keep none l d = Has-none
  Has-keep (some p) l d = d

  pub Safe-translate_exp_is_assign :
      (kids : List Visit)
      → All (VisitOk ty) kids
      → ValueOk ty (translate_exp_is_assign f types kids)
  unfolding translate_exp_is_assign
  Safe-translate_exp_is_assign (l ∷ r ∷ kids) (ol, (or, oks)) dst =
      Safe-operand_then OpeType.temp _ refl (λ l0.
        Safe-dispatch_then l (some l0) _ ol Has-last (λ la.
          Safe-operand_then OpeType.temp _ refl (λ r0.
            Safe-dispatch_then r (some r0) _ or Has-last (λ ra.
              Safe-try_deref_then ra.dst _ (search safe_rules) (λ r'. Safe-need_then la.dst _ (λ l'.
                Safe-bind _ _
                  (Safe-assign_to l' r' (search safe_rules depth 10) (search safe_rules depth 10))
                  (λ _.
                    Safe-pure _
                      (Has-pair (Has-keep dst l' (search safe_rules depth 10)) Has-none))))))))
  Safe-translate_exp_is_assign _ ok dst = search safe_rules

  pub Safe-translate_exp_is_id : (kids : List Visit) → ValueOk ty (translate_exp_is_id f types kids)
  unfolding translate_exp_is_id
  Safe-translate_exp_is_id [] dst = search safe_rules
  Safe-translate_exp_is_id (id ∷ kids) dst = Safe-need_then (val_s id.info.val) _ (λ name.
      Safe-find_symbol_then name _ (λ r.
        Safe-found r _ _ Has-last (search safe_rules depth 10)
          (λ x d. search (safe_rules, Safe-integer_operand_then) depth 20)))

  pub Safe-translate_exp_is_exp_field :
      (kids : List Visit)
      → All (VisitOk ty) kids
      → ValueOk ty (translate_exp_is_exp_field f types kids)
  unfolding translate_exp_is_exp_field
  Safe-translate_exp_is_exp_field (struc ∷ field ∷ kids) (os, (of, oks)) dst =
      Safe-operand_then OpeType.addr _ refl (λ s0.
        Safe-dispatch_then struc (some s0) _ os Has-last (λ sa.
          Safe-need_then (val_s field.info.val) _ (λ name.
            Safe-need_then struc.info.sema_type _ (λ type.
              Safe-need_then (types type).field_table _ (λ table.
                Safe-find_field_then name table _ (λ r.
                  Safe-found r _ _ Has-last (search safe_rules depth 12)
                    (λ x d. search (safe_rules, Safe-integer_operand_then) depth 20)))))))
  Safe-translate_exp_is_exp_field _ ok dst = search safe_rules
