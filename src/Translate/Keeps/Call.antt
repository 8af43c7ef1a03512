-- ===== src/Translate/Keeps/Call.antt =====
-- The calls of translate.c.
use naivecc.Base.{ℕ, Bool, false, Option, none, some, List, [], ◌∷◌, refl}
use naivecc.Operand.{Operand, OpeType, FloatOps}
use naivecc.CmmType.{Types}
use naivecc.Syntax.{val_s}
use naivecc.Translate.{Visit}
use naivecc.Translate.Call.{by_address, pass_arg, write_call, common_call, own_dst, translate_call}
use naivecc.Translate.Safe.{Setting, All, IsDat, Has, Safe}
use naivecc.Translate.Safe.Rules.{Safe-bind}
use naivecc.Translate.Safe.Visits.{VisitOk, Has-last}
use naivecc.Translate.Safe.Sequence.{
  safe_rules, Safe-cell_then, Safe-operand_then, Safe-need_then, Safe-dispatch_then,
}
use naivecc.Translate.Keeps.Cond.{ValueOk}

module _ {ty : Setting} (f : FloatOps) (types : Types) where
  Safe-by_address :
      {H : Type 0} {b : Bool} {J : List Operand} (p : Operand)
      → Has H (IsDat ty (some p))
      → Safe ty H b [] J (by_address f types p) (λ p. IsDat ty (some p))
  unfolding by_address
  Safe-by_address p d = search safe_rules depth 20

  Safe-pass_arg :
      (args : List Visit) {H : Type 0}
      → All (VisitOk ty) args
      → Safe ty H false [] [] (pass_arg f types args) (λ _. Unit)
  unfolding pass_arg
  Safe-pass_arg [] ok = search safe_rules
  Safe-pass_arg (arg ∷ args) (ok, oks) = Safe-operand_then OpeType.temp _ refl (λ a0.
      Safe-dispatch_then arg (some a0) _ ok Has-last (λ a.
        Safe-bind _ _ (Safe-pass_arg args oks) (λ _. Safe-need_then a.dst _ (λ p.
          Safe-cell_then p _ (λ c.
            Safe-bind {P = λ d. IsDat ty (some d)} _ _
              (search (safe_rules, Safe-by_address) depth 10) (λ d. search safe_rules depth 10))))))

  Safe-write_call :
      {H : Type 0} (args : List Visit)
      → All (VisitOk ty) args
      → Safe ty H false [] [] (write_call f types args) (λ _. Unit)
  unfolding write_call
  Safe-write_call [] ok = search safe_rules
  Safe-write_call (arg ∷ args) (ok, oks) = search safe_rules depth 20

  Safe-common_call :
      {H : Type 0} (name : List ℕ) (args : List Visit) (d : Operand)
      → All (VisitOk ty) args
      → Has H (IsDat ty (some d))
      → Safe ty H false [] [] (common_call f types name args d) (λ _. Unit)
  unfolding common_call
  Safe-common_call name args d ok h =
      Safe-bind _ _ (Safe-pass_arg args ok) (λ _. search safe_rules depth 20)

  Safe-own_dst :
      {H : Type 0} {b : Bool} {J : List Operand} (dst : Option Operand)
      → Has H (IsDat ty dst)
      → Safe ty H b [] J (own_dst f types dst) (λ p. IsDat ty (some p))
  unfolding own_dst
  Safe-own_dst none d = search safe_rules
  Safe-own_dst (some p) d = search safe_rules

  pub Safe-translate_call :
      (kids : List Visit) → All (VisitOk ty) kids → ValueOk ty (translate_call f types kids)
  unfolding translate_call
  Safe-translate_call [] ok dst = search safe_rules
  Safe-translate_call (func ∷ args) (ok, oks) dst =
      Safe-bind _ _ (Safe-own_dst dst (search safe_rules)) (λ d.
        Safe-need_then (val_s func.info.val) _ (λ name.
          Safe-bind {P = λ _. Unit} _ _
            (search (safe_rules, Safe-write_call, Safe-common_call) depth 10)
            (λ _. search safe_rules depth 10)))
