-- ===== src/Translate/Balance/Exps.antt =====
-- The expressions of translate.c leave the scopes as they were.
use naivecc.Base.{ℕ, Option, none, some, List, [], ◌∷◌}
use naivecc.Operand.{Operand, FloatOps}
use naivecc.CmmType.{Types}
use naivecc.Syntax.{Info, val_s}
use naivecc.Translate.{Attr, Visit}
use naivecc.Translate.Exp.{
  translate_exp_is_id, translate_exp_is_const, assign_to, translate_exp_is_assign,
  translate_exp_is_exp, translate_unary_operation, emit_binary, combine, translate_binary_operation,
  translate_exp_is_exp_field,
}
use naivecc.Translate.Index.{scale, split_base, add_offset, element, translate_exp_is_exp_idx}
use naivecc.Translate.Safe.{All}
use naivecc.Translate.Balance.{
  Balanced, VisitBalanced, Balanced-bind, Balanced-need, Balanced-dispatch, Balanced-find_symbol,
  Balanced-find_field, Balanced-operand, Balanced-option, balanced_rules,
}
use naivecc.Translate.Balance.Visitors.{more_rules}

module _ (f : FloatOps) (types : Types) where
  pub Balanced-translate_exp_is_id :
      (kids : List Visit)
      → All VisitBalanced kids
      → (dst : Option Operand) → Balanced (translate_exp_is_id f types kids dst)
  unfolding translate_exp_is_id
  Balanced-translate_exp_is_id [] ok dst = search balanced_rules
  Balanced-translate_exp_is_id (id ∷ kids) ok dst =
      Balanced-bind _ _ (Balanced-need (val_s id.info.val)) (λ name.
        Balanced-bind _ _ (Balanced-find_symbol name)
          (λ r. Balanced-option r _ _ (search balanced_rules) (λ x. search more_rules depth 40)))

  pub Balanced-translate_exp_is_const :
      (info : Info) (kids : List Visit)
      → All VisitBalanced kids
      → (dst : Option Operand) → Balanced (translate_exp_is_const f types info kids dst)
  unfolding translate_exp_is_const
  Balanced-translate_exp_is_const info [] ok dst = search balanced_rules
  Balanced-translate_exp_is_const info (v ∷ kids) ok dst = search more_rules depth 40

  pub Balanced-assign_to : (l r : Operand) → Balanced (assign_to f types l r)
  unfolding assign_to
  Balanced-assign_to l r = search more_rules depth 40

  pub Balanced-translate_exp_is_assign :
      (kids : List Visit)
      → All VisitBalanced kids
      → (dst : Option Operand) → Balanced (translate_exp_is_assign f types kids dst)
  unfolding translate_exp_is_assign
  Balanced-translate_exp_is_assign (a ∷ b ∷ kids) (oa, (ob, oks)) dst =
      search (more_rules, Balanced-assign_to) depth 40
  Balanced-translate_exp_is_assign _ ok dst = search balanced_rules

  pub Balanced-translate_exp_is_exp :
      (kids : List Visit)
      → All VisitBalanced kids
      → (dst : Option Operand) → Balanced (translate_exp_is_exp f types kids dst)
  unfolding translate_exp_is_exp
  Balanced-translate_exp_is_exp [] ok dst = search balanced_rules
  Balanced-translate_exp_is_exp (v ∷ kids) (ok, oks) dst = search more_rules depth 40

  pub Balanced-translate_unary_operation :
      (kids : List Visit)
      → All VisitBalanced kids
      → (dst : Option Operand) → Balanced (translate_unary_operation f types kids dst)
  unfolding translate_unary_operation
  Balanced-translate_unary_operation [] ok dst = search balanced_rules
  Balanced-translate_unary_operation (v ∷ kids) ok dst = search more_rules depth 40

  pub Balanced-emit_binary :
      (op : ℕ) (l r : Operand) (dst : Option Operand) → Balanced (emit_binary f types op l r dst)
  unfolding emit_binary
  Balanced-emit_binary op l r dst = search more_rules depth 40

  pub Balanced-combine :
      (op : ℕ) (l r : Operand) (dst : Option Operand) → Balanced (combine f types op l r dst)
  unfolding combine
  Balanced-combine op l r dst = search (more_rules, Balanced-emit_binary) depth 40

  pub Balanced-binary_some :
      (info : Info) (kids : List Visit)
      → All VisitBalanced kids
      → (dst : Operand) → Balanced (translate_binary_operation f types info kids (some dst))
  unfolding translate_binary_operation
  Balanced-binary_some info (a ∷ b ∷ kids) (oa, (ob, oks)) dst =
      search (more_rules, Balanced-combine) depth 40
  Balanced-binary_some info _ ok dst = search balanced_rules

  pub Balanced-translate_binary_operation :
      (info : Info) (kids : List Visit)
      → All VisitBalanced kids
      → (dst : Option Operand) → Balanced (translate_binary_operation f types info kids dst)
  unfolding translate_binary_operation
  Balanced-translate_binary_operation info kids ok none = search balanced_rules
  Balanced-translate_binary_operation info kids ok (some dst) =
      Balanced-binary_some info kids ok dst

  pub Balanced-translate_exp_is_exp_field :
      (kids : List Visit)
      → All VisitBalanced kids
      → (dst : Option Operand) → Balanced (translate_exp_is_exp_field f types kids dst)
  unfolding translate_exp_is_exp_field
  Balanced-translate_exp_is_exp_field (a ∷ b ∷ kids) (oa, (ob, oks)) dst =
      Balanced-bind _ _ (Balanced-operand _) (λ s0.
        Balanced-bind _ _ (Balanced-dispatch a (some s0) oa) (λ sa.
          Balanced-bind _ _ (Balanced-need (val_s b.info.val)) (λ name.
            Balanced-bind _ _ (Balanced-need a.info.sema_type) (λ type.
              Balanced-bind _ _ (Balanced-need (types type).field_table) (λ table.
                Balanced-bind _ _ (Balanced-find_field name table) (λ r.
                  Balanced-option r _ _ (search balanced_rules)
                    (λ x. search more_rules depth 40)))))))
  Balanced-translate_exp_is_exp_field _ ok dst = search balanced_rules

  pub Balanced-scale : (p : Operand) (n : ℕ) → Balanced (scale f types p n)
  unfolding scale
  Balanced-scale p n = search more_rules depth 40

  pub Balanced-split_base : (a : Attr) → Balanced (split_base f types a)
  unfolding split_base
  Balanced-split_base a =
      Balanced-option a.base _ _ (search more_rules depth 40) (λ b. search more_rules depth 40)

  pub Balanced-add_offset : (p q : Operand) → Balanced (add_offset f types p q)
  unfolding add_offset
  Balanced-add_offset p q = search more_rules depth 40

  pub Balanced-element :
      (n : ℕ) (start : Option Operand) (p : Operand) → Balanced (element f types n start p)
  unfolding element
  Balanced-element n start p = search more_rules depth 40

  pub Balanced-index_some :
      (info : Info) (kids : List Visit)
      → All VisitBalanced kids
      → (dst : Operand) → Balanced (translate_exp_is_exp_idx f types info kids (some dst))
  unfolding translate_exp_is_exp_idx
  Balanced-index_some info (a ∷ b ∷ kids) (oa, (ob, oks)) dst =
      search
        (more_rules, Balanced-scale, Balanced-split_base, Balanced-add_offset, Balanced-element)
        depth 60
  Balanced-index_some info _ ok dst = search balanced_rules

  pub Balanced-translate_exp_is_exp_idx :
      (info : Info) (kids : List Visit)
      → All VisitBalanced kids
      → (dst : Option Operand) → Balanced (translate_exp_is_exp_idx f types info kids dst)
  unfolding translate_exp_is_exp_idx
  Balanced-translate_exp_is_exp_idx info kids ok none = search balanced_rules
  Balanced-translate_exp_is_exp_idx info kids ok (some dst) = Balanced-index_some info kids ok dst
