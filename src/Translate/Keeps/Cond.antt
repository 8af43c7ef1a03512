-- ===== src/Translate/Keeps/Cond.antt =====
-- The conditions of translate.c.
use naivecc.Base.{ℕ, Bool, false, Option, none, some, List, [], ◌∷◌, refl}
use naivecc.Base.Int.{ℤ}
use naivecc.Operand.{Operand, OpeType}
use naivecc.Syntax.{Tag, Info}
use naivecc.Translate.{M, ◌>>=◌, Attr, Visit}
use naivecc.Translate.Exp.{integer_operand, float_operand}
use naivecc.Translate.Cond.{
  translate_cond_exp, translate_cond_not, translate_cond_relop, translate_cond_and,
  translate_cond_or, translate_cond, value_false, value_true, translate_cond_prepare,
  prepare_labels,
}
use naivecc.Translate.Safe.{Setting, in_here, in_there, All, IsLab, IsDat, Has, Safe}
use naivecc.Translate.Safe.Rules.{Safe-bind, Safe-pure}
use naivecc.Translate.Safe.Visits.{VisitOk, AttrOk, weaken, weaken_in, both-In, Has-last}
use naivecc.Translate.Safe.Sequence.{safe_rules, Safe-cell_then, Safe-operand_then}
use naivecc.Translate.Safe.Labels.{label_rules, Safe-label, Safe-put_1, Safe-put_0}
use naivecc.Translate.Safe.Instr.{get_relop-is_test}
use naivecc.Translate.Safe.Emit.{Safe-jump}

module _ {ty : Setting} where
  pub Safe-integer_operand :
      {H : Type 0} {b : Bool} {J : List Operand} (n : ℤ)
      → Safe ty H b [] J (integer_operand n) (λ p. IsDat ty (some p))
  unfolding integer_operand
  Safe-integer_operand n = search safe_rules depth 10

  pub Safe-integer_operand_then :
      {B : Type 0} {H : Type 0} {b : Bool} {L J : List Operand} {Q : B → Type 0} (n : ℤ)
      (f : Operand → M B)
      → ((x : Operand) → Safe ty (H × IsDat ty (some x)) b L J (f x) Q)
      → Safe ty H b L J (integer_operand n >>= f) Q
  Safe-integer_operand_then n f y = Safe-bind _ f (Safe-integer_operand n) y

  pub Safe-float_operand_then :
      {B : Type 0} {H : Type 0} {b : Bool} {L J : List Operand} {Q : B → Type 0} (n : ℕ)
      (f : Operand → M B)
      → ((x : Operand) → Safe ty (H × IsDat ty (some x)) b L J (f x) Q)
      → Safe ty H b L J (float_operand n >>= f) Q
  unfolding float_operand
  Safe-float_operand_then n f y =
      Safe-bind {P = λ x. IsDat ty (some x)} _ f (search safe_rules depth 10) y

-- A condition that is given two labels.
abbrev pub CondOk : Setting → (Operand → Operand → M (Unit {0})) → Type 0
CondOk ty m =
    (label_true label_false : Operand)
    → Safe ty (IsLab ty label_true × IsLab ty label_false) false [] (label_true ∷ label_false ∷ [])
        (m label_true label_false) (λ _. Unit)

-- The visit of an expression as a value.
abbrev pub ValueOk : Setting → (Option Operand → M Attr) → Type 0
ValueOk ty m = (dst : Option Operand) → Safe ty (IsDat ty dst) false [] [] (m dst) (AttrOk ty)

module _ {ty : Setting} where
  Has-true : {t f : Operand} → Has (IsLab ty t × IsLab ty f) (IsLab ty t)
  Has-true = record { get = λ h. h.0 }

  Safe-value_then :
      {B : Type 0} {H : Type 0} {b : Bool} {L J : List Operand} {Q : B → Type 0}
      (m : Option Operand → M Attr) (dst : Option Operand) (f : Attr → M B)
      → ValueOk ty m
      → Has H (IsDat ty dst)
      → ((x : Attr) → Safe ty (H × AttrOk ty x) b L J (f x) Q)
      → Safe ty H b L J (m dst >>= f) Q
  Safe-value_then m dst f ok d y = Safe-bind _ f (weaken (ok dst) d.get) y

  Safe-translate_cond_exp :
      (dispatch : Option Operand → M Attr)
      → ValueOk ty dispatch
      → CondOk ty (translate_cond_exp dispatch)
  unfolding translate_cond_exp
  Safe-translate_cond_exp dispatch ok t f = Safe-operand_then OpeType.temp _ refl (λ p.
      Safe-value_then dispatch (some p) _ ok Has-last (λ a.
        search (safe_rules, label_rules, Safe-integer_operand_then, Safe-jump, Has-true) depth 40))

  Safe-translate_cond_not :
      (kids : List Visit) → All (VisitOk ty) kids → CondOk ty (translate_cond_not kids)
  unfolding translate_cond_not
  Safe-translate_cond_not [] ok t f = search safe_rules
  Safe-translate_cond_not (v ∷ kids) (ok, oks) t f =
      search (safe_rules, label_rules, Has-true) depth 10

  Safe-translate_cond_relop :
      (info : Info) (kids : List Visit)
      → All (VisitOk ty) kids
      → CondOk ty (translate_cond_relop info kids)
  unfolding translate_cond_relop
  Safe-translate_cond_relop info (l ∷ r ∷ kids) (ol, (or, oks)) t f =
      search (safe_rules, label_rules, Safe-jump, get_relop-is_test, Has-true) depth 40
  Safe-translate_cond_relop info _ ok t f = search safe_rules

  Safe-translate_cond_and :
      (kids : List Visit) → All (VisitOk ty) kids → CondOk ty (translate_cond_and kids)
  unfolding translate_cond_and
  Safe-translate_cond_and (l ∷ r ∷ kids) (ol, (or, oks)) t f =
      search (safe_rules, label_rules, Has-true) depth 40
  Safe-translate_cond_and _ ok t f = search safe_rules

  Safe-translate_cond_or :
      (kids : List Visit) → All (VisitOk ty) kids → CondOk ty (translate_cond_or kids)
  unfolding translate_cond_or
  Safe-translate_cond_or (l ∷ r ∷ kids) (ol, (or, oks)) t f =
      search (safe_rules, label_rules, Has-true) depth 40
  Safe-translate_cond_or _ ok t f = search safe_rules

  pub Safe-value_false :
      {H : Type 0} {b : Bool} {J : List Operand} (o : Option Operand)
      → Has H (IsDat ty o)
      → Safe ty H b [] J (value_false o) (IsDat ty)
  unfolding value_false
  Safe-value_false none d = search safe_rules
  Safe-value_false (some p) d = Safe-cell_then p _ (λ c.
      Safe-bind {P = λ d. IsDat ty (some d)} _ _ (search safe_rules depth 10)
        (λ d. search (safe_rules, Safe-integer_operand_then) depth 20))

  pub Safe-value_true :
      {H : Type 0} {b : Bool} {J : List Operand} (o : Option Operand)
      → Has H (IsDat ty o)
      → Safe ty H b [] J (value_true o) (λ _. Unit)
  unfolding value_true
  Safe-value_true none d = search safe_rules
  Safe-value_true (some p) d = search (safe_rules, Safe-integer_operand_then) depth 20

  -- The labels are those that the first two commands make.
  Has-labels :
      {H X : Type 0} {t f : Operand}
      → Has (((H × IsLab ty t) × IsLab ty f) × X) (IsLab ty t × IsLab ty f)
  Has-labels = record { get = λ h. (h.0.0.1, h.0.1) }

  pub Safe-prepare_labels :
      (cond : Operand → Operand → M (Unit {0})) (dst : Option Operand)
      → CondOk ty cond
      → Safe ty
          (IsDat ty dst)
          false
          []
          []
          (prepare_labels cond dst)
          (λ r. IsLab ty r.0 × IsDat ty r.1)
  unfolding prepare_labels
  Safe-prepare_labels cond dst ok = Safe-label _ (λ t. Safe-label _ (λ f.
      Safe-bind _ _ (Safe-value_false dst (record { get = λ h. h.0.0 })) (λ d.
        Safe-bind _ _
          (weaken_in (ok t f) (Has-labels {H = IsDat ty dst}).get
            (both-In (in_there in_here) in_here))
          (λ _. Safe-put_1 t _ (search safe_rules) (λ _.
            Safe-bind _ _ (Safe-value_true d (search safe_rules)) (λ _.
              Safe-put_0 f _ (search safe_rules)
                (λ _. Safe-pure _ (record { get = λ h. (h.0.0.0.0.1, h.0.0.1) }))))))))

  pub Safe-translate_cond_prepare :
      (cond : Operand → Operand → M (Unit {0}))
      → CondOk ty cond
      → ValueOk ty (translate_cond_prepare cond)
  unfolding translate_cond_prepare
  Safe-translate_cond_prepare cond ok dst =
      Safe-bind _ _ (Safe-prepare_labels cond dst ok)
        (λ r. Safe-pure _ (record { get = λ h. (h.1.1, record { at = refl }) }))

  pub Safe-translate_cond :
      (value : Option Operand → M Attr) (info : Info) (kids : List Visit)
      → ValueOk ty value
      → All (VisitOk ty) kids
      → CondOk ty (translate_cond value info kids)
  unfolding translate_cond
  Safe-translate_cond value info kids v ok t f = by_tag info.tag
    where
      by_tag :
          (k : Tag)
          → Safe ty
              (IsLab ty t × IsLab ty f)
              false
              []
              (t ∷ f ∷ [])
              ((elim k as (λ _. Operand → Operand → M (Unit {0})) [
                | Tag.exp_is_and ↦ translate_cond_and kids
                | Tag.exp_is_or ↦ translate_cond_or kids
                | Tag.exp_is_relop ↦ translate_cond_relop info kids
                | Tag.exp_is_not ↦ translate_cond_not kids
                | _ ↦ translate_cond_exp value
              ])
                t f)
              (λ _. Unit)
      by_tag Tag.exp_is_and = Safe-translate_cond_and kids ok t f
      by_tag Tag.exp_is_or = Safe-translate_cond_or kids ok t f
      by_tag Tag.exp_is_relop = Safe-translate_cond_relop info kids ok t f
      by_tag Tag.exp_is_not = Safe-translate_cond_not kids ok t f
      by_tag _ = Safe-translate_cond_exp value v t f
