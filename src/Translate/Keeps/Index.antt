-- ===== src/Translate/Keeps/Index.antt =====
-- The index expressions of translate.c.
use naivecc.Base.{ℕ, if◌then◌else◌, Bool, false, Option, none, some, List, [], ◌∷◌, refl}
use naivecc.Operand.{Operand, OpeType, FloatOps}
use naivecc.CmmType.{Types, TypeClass, same_class}
use naivecc.Syntax.{Info}
use naivecc.Translate.{M, ◌>>=◌, pure, need, Attr, Visit}
use naivecc.Translate.Index.{scale, split_base, add_offset, element, translate_exp_is_exp_idx}
use naivecc.Translate.Safe.{Setting, All, IsDat, Has, Safe}
use naivecc.Translate.Safe.Rules.{Safe-bind, Safe-if, Safe-pure}
use naivecc.Translate.Safe.Visits.{
  VisitOk, AttrOk, Has-last, Has-rest, Has-need, Has-dst, Has-base, Has-pair,
}
use naivecc.Translate.Safe.Sequence.{
  safe_rules, Safe-cell_then, Safe-operand_then, Safe-need_then, Safe-dispatch_then,
  Safe-try_deref_then, Safe-set_base_type_then,
}
use naivecc.Translate.Keeps.Cond.{ValueOk, Safe-integer_operand_then}

-- Two operands that are no labels.
abbrev PairOk : Setting → Option Operand × Option Operand → Type 0
PairOk ty r = IsDat ty r.0 × IsDat ty r.1

module _ {ty : Setting} where
  Safe-either :
      {A : Type 0} {H : Type 0} {b : Bool} {L J : List Operand} {Q : A → Type 0}
      (o : Option Operand) (m : M A) (k : Operand → M A)
      → Has H (IsDat ty o)
      → Safe ty H b L J m Q
      → ((p : Operand) → Has H (IsDat ty (some p)) → Safe ty H b L J (k p) Q)
      → Safe ty H b L J (elim o [ none ↦ m | some p ↦ k p ]) Q
  Safe-either none m k d x y = x
  Safe-either (some p) m k d x y = y p d

module _ {ty : Setting} (f : FloatOps) (types : Types) where
  Safe-scale :
      {H : Type 0} {b : Bool} {J : List Operand} (p : Operand) (n : ℕ)
      → Has H (IsDat ty (some p))
      → Safe ty H b [] J (scale f types p n) (λ p. IsDat ty (some p))
  unfolding scale
  Safe-scale p n d = search (safe_rules, Safe-integer_operand_then) depth 20

  Safe-split_base :
      {H : Type 0} {b : Bool} {J : List Operand} (a : Attr)
      → Has H (IsDat ty a.dst)
      → Has H (IsDat ty a.base)
      → Safe ty H b [] J (split_base f types a) (PairOk ty)
  unfolding split_base
  Safe-split_base a dd db =
      Safe-either a.base _ _ db (search (safe_rules, Safe-integer_operand_then) depth 20)
        (λ p d. search safe_rules depth 10)

  Safe-add_offset :
      {H : Type 0} {b : Bool} {J : List Operand} (p q : Operand)
      → Has H (IsDat ty (some p))
      → Has H (IsDat ty (some q))
      → Safe ty H b [] J (add_offset f types p q) (λ p. IsDat ty (some p))
  unfolding add_offset
  Safe-add_offset p q dp dq = search safe_rules depth 20

  Safe-element :
      {H : Type 0} {b : Bool} {J : List Operand} (n : ℕ) (start : Option Operand) (p : Operand)
      → Has H (IsDat ty start)
      → Has H (IsDat ty (some p))
      → Safe ty H b [] J (element f types n start p) (AttrOk ty)
  unfolding element
  Safe-element n start p ds dp = Safe-cell_then p _ (λ c.
      Safe-operand_then OpeType.addr _ refl (λ q. Safe-set_base_type_then q _ _ (λ _.
        Safe-bind {P = λ _. Unit} _ _ (search safe_rules depth 20)
          (λ _. search safe_rules depth 20))))

  Has-pair_0 :
      {H : Type 0} (r : Option Operand × Option Operand) → Has (H × PairOk ty r) (IsDat ty r.0)
  Has-pair_0 r = record { get = λ h. h.1.0 }

  Has-pair_1 :
      {H : Type 0} (r : Option Operand × Option Operand) → Has (H × PairOk ty r) (IsDat ty r.1)
  Has-pair_1 r = record { get = λ h. h.1.1 }

  Has-start :
      {H : Type 0} (r : Option Operand × Option Operand)
      → Has H (IsDat ty r.0)
      → Has H (IsDat ty r.1)
      → Has H (IsDat ty (elim r.0 [ none ↦ r.1 | some b ↦ some b ]))
  Has-start (none, q) a b = b
  Has-start (some p, q) a b = a

  -- The end of `translate_exp_is_exp_idx`, on the operand of the index.
  index_end :
      {H : Type 0} (info : Info) (ba : Attr) (o : Operand)
      → Has H (IsDat ty ba.dst)
      → Has H (IsDat ty ba.base)
      → Has H (IsDat ty (some o))
      → Safe ty H false [] []
          (do
            type ← need info.sema_type
            size ← need (types type).type_size
            offset ← scale f types o size
            bases ← split_base f types ba
            addr0 ← need bases.1
            addr ← add_offset f types addr0 offset
            if same_class (types type).class TypeClass.array
                then pure (record { dst = some addr; base = bases.0 })
                else element f types type (elim bases.0 [ none ↦ bases.1 | some b ↦ some b ]) addr)
          (AttrOk ty)
  index_end info ba o dd db do' = Safe-need_then info.sema_type _ (λ type.
      Safe-need_then (types type).type_size _ (λ size.
        Safe-bind _ _ (Safe-scale o size (Has-rest (Has-rest do'))) (λ offset.
          Safe-bind _ _
            (Safe-split_base ba (search safe_rules depth 10) (search safe_rules depth 10))
            (λ bases. Safe-need_then bases.1 _ (λ addr0.
              Safe-bind _ _
                (Safe-add_offset addr0 offset (Has-need bases.1 addr0 (Has-pair_1 bases))
                  (Has-rest (Has-rest Has-last)))
                (λ addr.
                  Safe-if _ _ _
                    (Safe-pure _ (Has-pair Has-last (Has-rest (Has-rest (Has-pair_0 bases)))))
                    (Safe-element type _ addr
                      (Has-start bases (Has-rest (Has-rest (Has-pair_0 bases)))
                        (Has-rest (Has-rest (Has-pair_1 bases))))
                      Has-last)))))))

  index_some :
      (info : Info) (kids : List Visit)
      → All (VisitOk ty) kids
      → (dst : Operand)
      → Safe ty
          (IsDat ty (some dst))
          false
          []
          []
          (translate_exp_is_exp_idx f types info kids (some dst))
          (AttrOk ty)
  unfolding translate_exp_is_exp_idx
  index_some info (base ∷ idx ∷ kids) (ob, (oi, oks)) dst =
      Safe-operand_then OpeType.temp _ refl (λ b0.
        Safe-dispatch_then base (some b0) _ ob Has-last (λ ba.
          Safe-operand_then OpeType.temp _ refl (λ i0.
            Safe-dispatch_then idx (some i0) _ oi Has-last (λ ia.
              Safe-try_deref_then ia.dst _ (Has-dst ia) (λ o.
                index_end info ba o (Has-rest (Has-rest (Has-rest (Has-dst ba))))
                  (Has-rest (Has-rest (Has-rest (Has-base ba)))) Has-last)))))
  index_some info _ ok dst = search safe_rules

  pub Safe-translate_exp_is_exp_idx :
      (info : Info) (kids : List Visit)
      → All (VisitOk ty) kids
      → ValueOk ty (translate_exp_is_exp_idx f types info kids)
  unfolding translate_exp_is_exp_idx
  Safe-translate_exp_is_exp_idx info kids ok none = search safe_rules
  Safe-translate_exp_is_exp_idx info kids ok (some dst) = index_some info kids ok dst
