-- ===== src/Translate/Safe/Sequence.antt =====
-- The rules for a command and what follows it, and the set of all rules.
use naivecc.Base.{ℕ, Bool, false, Option, none, some, List, [], ◌≡◌, refl}
use naivecc.Operand.{Operand, OpeType, OperandCell, same_ope_type}
use naivecc.Base.Int.{ℤ}
use naivecc.Ir.Kinds.{IrType}
use naivecc.Machine.{act, kind}
use naivecc.Symtab.{Symbol}
use naivecc.Translate.{
  M, ◌>>=◌, need, operand, cell, set_integer, set_real, set_name, set_size, set_base_type, instr,
  find_symbol, find_field, set_address, enter_scope, try_deref, Attr, Visit,
}
use naivecc.Translate.Safe.{Setting, IsLab, IsDat, Has, Safe, In}
use naivecc.Translate.Safe.Rules.{Safe-pure, Safe-undefined, Safe-if, Safe-bind}
use naivecc.Translate.Safe.Commands.{Safe-operand}
use naivecc.Translate.Safe.Emit.{Safe-act, Safe-ret, Safe-func}
use naivecc.Translate.Safe.Fields.{
  Safe-cell, Safe-need, Safe-set_integer, Safe-set_real, Safe-set_name, Safe-set_size,
  Safe-set_base_type, Safe-trans_default, Safe-enter_scope, Safe-leave_scope, Safe-replace,
}
use naivecc.Translate.Safe.Symbols.{FoundOk, Safe-find_symbol, Safe-find_field, Safe-set_address}
use naivecc.Translate.Safe.Visits.{
  AttrOk, VisitOk, Has-last, Has-self, Has-rest, Has-unit, Has-pair, Has-none, Has-dst, Has-base,
  Has-need, both-In, weaken_in, weaken, Safe-dispatch, Safe-cond,
}

module _ {ty : Setting} where
  pub Safe-operand_then :
      {B : Type 0} {H : Type 0} {b : Bool} {L J : List Operand} {Q : B → Type 0} (k : OpeType)
      (f : Operand → M B)
      → same_ope_type k OpeType.label ≡ false
      → ((x : Operand) → Safe ty (H × (IsDat ty (some x))) b L J (f x) Q)
      → Safe ty H b L J (operand k >>= f) Q
  Safe-operand_then k f h0 y = Safe-bind _ f (Safe-operand k h0) y

  pub Safe-act_then :
      {B : Type 0} {H : Type 0} {b : Bool} {L J : List Operand} {Q : B → Type 0} (k : IrType)
      (rs rt rd : Option Operand) (f : Unit {0} → M B)
      → kind k ≡ act
      → Has H (IsDat ty rs)
      → Has H (IsDat ty rt)
      → Has H (IsDat ty rd)
      → ((x : Unit {0}) → Safe ty (H × Unit) b L J (f x) Q)
      → Safe ty H b L J (instr k rs rt rd >>= f) Q
  Safe-act_then k rs rt rd f h0 h1 h2 h3 y = Safe-bind _ f (Safe-act k rs rt rd h0 h1 h2 h3) y

  pub Safe-func_then :
      {B : Type 0} {H : Type 0} {b : Bool} {L J : List Operand} {Q : B → Type 0}
      (rs : Option Operand) (f : Unit {0} → M B)
      → Has H (IsDat ty rs)
      → ((x : Unit {0}) → Safe ty (H × Unit) b L J (f x) Q)
      → Safe ty H b L J (instr IrType.func rs none none >>= f) Q
  Safe-func_then rs f h y = Safe-bind _ f (Safe-func rs h) y

  pub Safe-cell_then :
      {B : Type 0} {H : Type 0} {b : Bool} {L J : List Operand} {Q : B → Type 0} (p : Operand)
      (f : OperandCell → M B)
      → ((x : OperandCell) → Safe ty (H × Unit) b L J (f x) Q)
      → Safe ty H b L J (cell p >>= f) Q
  Safe-cell_then p f y = Safe-bind _ f (Safe-cell p) y

  pub Safe-need_then :
      {B : Type 0} {H : Type 0} {b : Bool} {L J : List Operand} {Q : B → Type 0} {X : Type 0}
      (o : Option X) (f : X → M B)
      → ((x : X) → Safe ty (H × (o ≡ some x)) b L J (f x) Q)
      → Safe ty H b L J (need o >>= f) Q
  Safe-need_then o f y = Safe-bind _ f (Safe-need o) y

  pub Safe-set_integer_then :
      {B : Type 0} {H : Type 0} {b : Bool} {L J : List Operand} {Q : B → Type 0} (p : Operand)
      (n : ℤ) (f : Unit {0} → M B)
      → ((x : Unit {0}) → Safe ty (H × Unit) b L J (f x) Q)
      → Safe ty H b L J (set_integer p n >>= f) Q
  Safe-set_integer_then p n f y = Safe-bind _ f (Safe-set_integer p n) y

  pub Safe-set_real_then :
      {B : Type 0} {H : Type 0} {b : Bool} {L J : List Operand} {Q : B → Type 0} (p n : ℕ)
      (f : Unit {0} → M B)
      → ((x : Unit {0}) → Safe ty (H × Unit) b L J (f x) Q)
      → Safe ty H b L J (set_real p n >>= f) Q
  Safe-set_real_then p n f y = Safe-bind _ f (Safe-set_real p n) y

  pub Safe-set_name_then :
      {B : Type 0} {H : Type 0} {b : Bool} {L J : List Operand} {Q : B → Type 0} (p : Operand)
      (n : List ℕ) (f : Unit {0} → M B)
      → ((x : Unit {0}) → Safe ty (H × Unit) b L J (f x) Q)
      → Safe ty H b L J (set_name p n >>= f) Q
  Safe-set_name_then p n f y = Safe-bind _ f (Safe-set_name p n) y

  pub Safe-set_size_then :
      {B : Type 0} {H : Type 0} {b : Bool} {L J : List Operand} {Q : B → Type 0} (p n : ℕ)
      (f : Unit {0} → M B)
      → ((x : Unit {0}) → Safe ty (H × Unit) b L J (f x) Q)
      → Safe ty H b L J (set_size p n >>= f) Q
  Safe-set_size_then p n f y = Safe-bind _ f (Safe-set_size p n) y

  pub Safe-set_base_type_then :
      {B : Type 0} {H : Type 0} {b : Bool} {L J : List Operand} {Q : B → Type 0} (p : Operand)
      (n : Option ℕ) (f : Unit {0} → M B)
      → ((x : Unit {0}) → Safe ty (H × Unit) b L J (f x) Q)
      → Safe ty H b L J (set_base_type p n >>= f) Q
  Safe-set_base_type_then p n f y = Safe-bind _ f (Safe-set_base_type p n) y

  pub Safe-enter_scope_then :
      {B : Type 0} {H : Type 0} {b : Bool} {L J : List Operand} {Q : B → Type 0} (p : ℕ)
      (f : Unit {0} → M B)
      → ((x : Unit {0}) → Safe ty (H × Unit) b L J (f x) Q)
      → Safe ty H b L J (enter_scope p >>= f) Q
  Safe-enter_scope_then p f y = Safe-bind _ f (Safe-enter_scope p) y

  pub Safe-find_symbol_then :
      {B : Type 0} {H : Type 0} {b : Bool} {L J : List Operand} {Q : B → Type 0} (name : List ℕ)
      (f : Option Symbol → M B)
      → ((x : Option Symbol) → Safe ty (H × (FoundOk ty x)) b L J (f x) Q)
      → Safe ty H b L J (find_symbol name >>= f) Q
  Safe-find_symbol_then name f y = Safe-bind _ f (Safe-find_symbol name) y

  pub Safe-find_field_then :
      {B : Type 0} {H : Type 0} {b : Bool} {L J : List Operand} {Q : B → Type 0} (name : List ℕ)
      (p : ℕ) (f : Option Symbol → M B)
      → ((x : Option Symbol) → Safe ty (H × (FoundOk ty x)) b L J (f x) Q)
      → Safe ty H b L J (find_field name p >>= f) Q
  Safe-find_field_then name p f y = Safe-bind _ f (Safe-find_field name p) y

  pub Safe-set_address_then :
      {B : Type 0} {H : Type 0} {b : Bool} {L J : List Operand} {Q : B → Type 0} (name : List ℕ)
      (p : Operand) (f : Unit {0} → M B)
      → Has H (IsDat ty (some p))
      → ((x : Unit {0}) → Safe ty (H × Unit) b L J (f x) Q)
      → Safe ty H b L J (set_address name p >>= f) Q
  Safe-set_address_then name p f h0 y = Safe-bind _ f (Safe-set_address name p h0) y

  pub Safe-dispatch_then :
      {B : Type 0} {H : Type 0} {b : Bool} {L J : List Operand} {Q : B → Type 0} (v : Visit)
      (dst : Option Operand) (f : Attr → M B)
      → VisitOk ty v
      → Has H (IsDat ty dst)
      → ((x : Attr) → Safe ty (H × (AttrOk ty x)) b L J (f x) Q)
      → Safe ty H b L J (v.dispatch dst >>= f) Q
  Safe-dispatch_then v dst f h0 h1 y = Safe-bind _ f (Safe-dispatch v dst h0 h1) y

  pub Safe-cond_then :
      {B : Type 0} {H : Type 0} {b : Bool} {L J : List Operand} {Q : B → Type 0} (v : Visit)
      (label_true label_false : Operand) (f : Unit {0} → M B)
      → VisitOk ty v
      → Has H (IsLab ty label_true)
      → Has H (IsLab ty label_false)
      → In label_true J
      → In label_false J
      → ((x : Unit {0}) → Safe ty (H × Unit) b L J (f x) Q)
      → Safe ty H b L J (v.cond label_true label_false >>= f) Q
  Safe-cond_then v label_true label_false f h0 h1 h2 i j y =
      Safe-bind _ f (Safe-cond v label_true label_false h0 h1 h2 i j) y

  pub Safe-try_deref :
      {H : Type 0} {b : Bool} {J : List Operand} (o : Option Operand)
      → Has H (IsDat ty o)
      → Safe ty H b [] J (try_deref o) (λ p. IsDat ty (some p))
  unfolding try_deref
  Safe-try_deref none d = Safe-undefined
  Safe-try_deref (some p) d = Safe-cell_then p _ (λ c.
      Safe-if _ _ _
        (Safe-operand_then OpeType.temp _ refl (λ t.
          Safe-act_then IrType.deref_r _ _ _ _ refl (Has-rest (Has-rest d)) Has-none Has-last
            (λ _. Safe-pure t (Has-rest Has-last))))
        (Safe-pure p (Has-rest d)))

  pub Safe-try_deref_then :
      {B : Type 0} {H : Type 0} {b : Bool} {L J : List Operand} {Q : B → Type 0}
      (o : Option Operand) (f : Operand → M B)
      → Has H (IsDat ty o)
      → ((x : Operand) → Safe ty (H × (IsDat ty (some x))) b L J (f x) Q)
      → Safe ty H b L J (try_deref o >>= f) Q
  Safe-try_deref_then o f h0 y = Safe-bind _ f (Safe-try_deref o h0) y

pub ruleset safe_rules = (
  Has-self, Has-last, Has-rest, Has-unit, Has-pair, Has-none, Has-dst, Has-base, Has-need,
  Safe-pure, Safe-undefined, Safe-if, Safe-operand, Safe-act, Safe-ret, Safe-func,
  Safe-set_base_type, Safe-trans_default, Safe-leave_scope, Safe-replace, Safe-dispatch, Safe-cond,
  Safe-try_deref, Safe-operand_then, Safe-act_then, Safe-func_then, Safe-cell_then, Safe-need_then,
  Safe-set_integer_then, Safe-set_real_then, Safe-set_name_then, Safe-set_size_then,
  Safe-set_base_type_then, Safe-enter_scope_then, Safe-find_symbol_then, Safe-find_field_then,
  Safe-set_address_then, Safe-dispatch_then, Safe-cond_then, Safe-try_deref_then,
)
