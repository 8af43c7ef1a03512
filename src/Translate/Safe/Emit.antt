-- ===== src/Translate/Safe/Emit.antt =====
-- The rules for new instructions.
use naivecc.Base.{◌<◌, Bool, true, false, Option, none, some, List, [], ◌≡◌, refl, arith, inl, inr}
use naivecc.Operand.{Operand}
use naivecc.Ir.{blank_ir}
use naivecc.Ir.Kinds.{IrType, same_type}
use naivecc.Machine.{act, kind}
use naivecc.Preprocess.Inv.{is_typed, uses}
use naivecc.Translate.{instr}
use naivecc.Translate.Safe.{Setting, IsLab, IsDat, Has, Safe, In}
use naivecc.Translate.Safe.Marks.{marks-append}
use naivecc.Translate.Safe.Instr.{
  instr-Appended, Later-Appended, Inv-Appended, is_test, act-plain, test-plain, test-typed,
  test_target, no_target, one_target, target-Appended,
}

module _ {ty : Setting} where
  -- A new instruction that is no label.
  pub Safe-instr :
      {H : Type 0} {b : Bool} {J : List Operand} (k : IrType) (rs rt rd : Option Operand)
      → same_type k IrType.label ≡ false
      → (same_type k IrType.jmp ≡ true → b ≡ true)
      → Has H (is_typed ty.type_of (blank_ir k rs rt rd) ≡ true)
      → ((p : Operand) → 0 < uses p (blank_ir k rs rt rd) → In p J)
      → Safe ty H b [] J (instr k rs rt rd) (λ _. Unit)
  Safe-instr k rs rt rd plain jumps typed goes = record {
    later = λ s t x e. Later-Appended (instr-Appended k rs rt rd s t x e);
    good = λ s t x e h agree inv pend n.
        let a = instr-Appended k rs rt rd s t x e in
        record {
          inv = Inv-Appended a (typed.get h) (λ c. n (jumps c)) (λ l c. cc (rw plain at c)) inv;
          marked = λ l q o.
              rw (a.buf, marks-append l s.buf (blank_ir k rs rt rd)) (rw plain (omega arith));
          placed = λ l i. elim i [ ];
          targets =
              λ p g. elim (target-Appended p a g) [ inl z ↦ inl z | inr z ↦ inr (inr (goes p z)) ];
          post = tt;
        };
  }

  -- A data instruction, on operands that are no labels.
  pub Safe-act :
      {H : Type 0} {b : Bool} {J : List Operand} (k : IrType) (rs rt rd : Option Operand)
      → kind k ≡ act
      → Has H (IsDat ty rs)
      → Has H (IsDat ty rt)
      → Has H (IsDat ty rd)
      → Safe ty H b [] J (instr k rs rt rd) (λ _. Unit)
  Safe-act k rs rt rd e s t d =
      Safe-instr k rs rt rd (act-plain k e).0 (λ c. cc (rw (act-plain k e).1 at c))
        (record { get = λ h. rw e (rw ((s.get h).at, (t.get h).at, (d.get h).at) refl) })
        (λ p. no_target p (blank_ir k rs rt rd) (rw e refl))

  pub Safe-ret :
      {H : Type 0} {b : Bool} {J : List Operand} (rs : Option Operand)
      → Has H (IsDat ty rs)
      → Safe ty H b [] J (instr IrType.ret rs none none) (λ _. Unit)
  Safe-ret rs s =
      Safe-instr IrType.ret rs none none refl (λ c. cc c) (record { get = λ h. (s.get h).at })
        (λ p. no_target p (blank_ir IrType.ret rs none none) refl)

  pub Safe-func :
      {H : Type 0} {b : Bool} {J : List Operand} (rs : Option Operand)
      → Has H (IsDat ty rs)
      → Safe ty H b [] J (instr IrType.func rs none none) (λ _. Unit)
  Safe-func rs s =
      Safe-act IrType.func rs none none refl s (record { get = λ h. record { at = refl } })
        (record { get = λ h. record { at = refl } })

  pub Safe-jump :
      {H : Type 0} {J : List Operand} (l : Operand)
      → Has H (IsLab ty l)
      → In l J
      → Safe ty H true [] J (instr IrType.jmp (some l) none none) (λ _. Unit)
  Safe-jump l lab i =
      Safe-instr IrType.jmp (some l) none none refl (λ c. refl)
        (record { get = λ h. (lab.get h).at })
        (λ p. one_target p l (blank_ir IrType.jmp (some l) none none) refl i)

  -- A comparison that jumps, or the NOP of an unknown operator.
  pub Safe-test :
      {H : Type 0} {b : Bool} {J : List Operand} (k : IrType) (rs rt : Option Operand) (l : Operand)
      → is_test k ≡ true
      → Has H (IsDat ty rs)
      → Has H (IsDat ty rt)
      → Has H (IsLab ty l)
      → In l J
      → Safe ty H b [] J (instr k rs rt (some l)) (λ _. Unit)
  Safe-test k rs rt l e s t d i =
      let (plain, still) = test-plain k e in
      Safe-instr k rs rt (some l) plain (λ c. cc (rw still at c))
        (record { get = λ h. typed (s.get h) (t.get h) (d.get h) })
        (λ p. test_target p k rs rt l e i)
    where
      typed :
          IsDat ty rs
          → IsDat ty rt
          → IsLab ty l
          → is_typed ty.type_of (blank_ir k rs rt (some l)) ≡ true
      typed a b c = test-typed _ k rs rt l e a b c
