-- ===== src/Translate/Fold.antt =====
-- The two foldings of constants: `CALC` of translate.c and `calc_const` of operand.c.
use naivecc.Base.{
  ℕ, true, false, Option, none, some, ◌≡◌, refl, arith, Option-cases, inl, inr, Bool-cases,
  beq_refl,
}
use naivecc.Base.Int.{ℤ}
use naivecc.Operand.{
  Operand, OpeType, OperandCell, FloatOps, calc_const, calc_int, calc_float, same_ope_type, zeroed,
  new_operand, new_cell, write, is_const,
}
use naivecc.Ir.Kinds.{IrType}
use naivecc.CmmType.{Types}
use naivecc.Translate.{TransState, ◌>>=◌, pure, need, cell, operand, set_integer, set_real, Attr}
use naivecc.Translate.Exp.{combine, fold_int, fold_float, integer_operand, float_operand, leave}

-- The instruction of an operator.
pub data OpChar : ℕ → IrType → Type 0 where
  plus : OpChar b'+' IrType.add
  minus : OpChar b'-' IrType.sub
  times : OpChar b'*' IrType.mul
  over : OpChar b'/' IrType.div

module _ (f : FloatOps) (ts : Types) where
  fold_int-calc_int :
      (op : ℕ) (k : IrType) (a b : ℤ) → OpChar op k → fold_int f ts op a b ≡ calc_int k a b
  unfolding fold_int calc_int
  fold_int-calc_int _ _ a b plus = refl
  fold_int-calc_int _ _ a b minus = refl
  fold_int-calc_int _ _ a b times = refl
  fold_int-calc_int _ _ a b over = refl

  fold_float-calc_float :
      (op : ℕ) (k : IrType) (a b : ℕ)
      → OpChar op k
      → calc_float f k a b ≡ some (fold_float f ts op a b)
  unfolding fold_float calc_float
  fold_float-calc_float _ _ a b plus = refl
  fold_float-calc_float _ _ a b minus = refl
  fold_float-calc_float _ _ a b times = refl
  fold_float-calc_float _ _ a b over = refl

  -- The outcome of a folding: a new operand with the given contents, and no instruction; or none.
  unfoldable pub Folded : Option OperandCell → TransState → Option (Attr × TransState) → Type 0
  Folded none s r = r ≡ none
  Folded (some c) s r =
      (p : Operand) × (t : TransState) × (r ≡ some (record { dst = some p; base = none }, t))
      × (t.store.heap p ≡ c)
      × (t.buf ≡ s.buf)

  Folded-integer :
      (s : TransState) (n : ℤ)
      → Folded
          (some (record (zeroed OpeType.integer) { integer = n }))
          s
          ((integer_operand n >>= λ p. leave (some p)) s)
  unfolding Folded ◌>>=◌ integer_operand operand new_operand new_cell set_integer write pure
  Folded-integer s n =
      let here = beq_refl s.store.next in (s.store.next, _, refl, rw here refl, refl)

  Folded-float :
      (s : TransState) (x : ℕ)
      → Folded
          (some (record (zeroed OpeType.float) { real = x }))
          s
          ((float_operand x >>= λ p. leave (some p)) s)
  unfolding Folded ◌>>=◌ float_operand operand new_operand new_cell set_real write pure
  Folded-float s x = let here = beq_refl s.store.next in (s.store.next, _, refl, rw here refl, refl)

  const-float :
      (c : OperandCell)
      → is_const c ≡ true
      → same_ope_type c.type OpeType.integer ≡ false
      → same_ope_type c.type OpeType.float ≡ true
  unfolding is_const
  const-float c h n = ground arith

  -- On two integer constants, or two float constants, and one of the four operators, the translation
  -- of a binary expression makes no instruction but a new operand, whose contents are those that
  -- `calc_const` computes; it is undefined exactly where `calc_const` is.
  pub combine-calc_const :
      (op : ℕ) (k : IrType) (l r : Operand) (dst : Option Operand) (s : TransState)
      → OpChar op k
      → same_ope_type (s.store.heap l).type (s.store.heap r).type ≡ true
      → is_const (s.store.heap l) ≡ true
      → Folded (calc_const f k (s.store.heap l) (s.store.heap r)) s (combine f ts op l r dst s)
  unfolding Folded combine calc_const ◌>>=◌ cell need
  combine-calc_const op k l r dst s o same const =
      elim (Bool-cases (same_ope_type (s.store.heap l).type OpeType.integer)) [
        | inl c ↦
            rw (same, const)
              (rw c (
                rw (fold_int-calc_int op k (s.store.heap l).integer (s.store.heap r).integer o)
                  (elim (Option-cases
                    (calc_int k (s.store.heap l).integer (s.store.heap r).integer)) [
                      | inl (n, e) ↦ rw e (Folded-integer s n)
                      | inr e ↦ rw e refl
                    ])))
        | inr c ↦
            rw (same, const)
              (rw (c, const-float (s.store.heap l) const c)
                (rw (fold_float-calc_float op k (s.store.heap l).real (s.store.heap r).real o) (
                  Folded-float s (fold_float f ts op (s.store.heap l).real (s.store.heap r).real))))
      ]
