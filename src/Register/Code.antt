-- ===== src/Register/Code.antt =====
-- The assembly that asm.c and register.c write, the state of the generator, and its commands.
use naivecc.Base.{ℕ, Bool, Option, none, some, List, [], ◌∷◌, ◌++◌}
use naivecc.Base.Int.{ℤ}
use naivecc.Operand.{Operand, Heap}
use naivecc.Ir.Kinds.{IrType}

-- Registers by number; `lw`, `sw` have the register, the offset and the base. A jump names its
-- label operand, a call the name of the function.
pub data Asm : Type 0 where
  label_line : Operand → Asm
  func_line : List ℕ → Asm
  li : ℕ → ℤ → Asm
  lw sw : ℕ → ℤ → ℕ → Asm
  move : ℕ → ℕ → Asm
  addi addiu : ℕ → ℕ → ℤ → Asm
  add sub mul : ℕ → ℕ → ℕ → Asm
  div : ℕ → ℕ → Asm
  mflo : ℕ → Asm
  j : Operand → Asm
  jal : List ℕ → Asm
  jr : ℕ → Asm
  br : IrType → ℕ → ℕ → Operand → Asm

-- `$v0`, `$a0`, `$sp`, `$ra`
abbrev pub v0 : ℕ
v0 = 2

abbrev pub a0 : ℕ
a0 = 4

abbrev pub sp : ℕ
sp = 29

abbrev pub ra : ℕ
ra = 31

-- The globals of register.c and asm.c. `behind` is the word after `ope_in_reg`, and `out` what
-- stands in `asm_file`.
pub record AsmState : Type 0 where
  pub heap : Heap
  pub ope_in_reg : List (Option Operand)
  pub behind : Option Operand
  pub dirty : List Bool
  pub sp_offset : ℤ
  pub curr_func : Option Operand
  pub nr_arg : ℕ
  pub out : List Asm

abbrev pub M : Type 0 → Type 0
M A = AsmState → Option (A × AsmState)

infixl 5 ◌>>=◌ ◌>>◌
abbrev pub ◌>>=◌ : {A B : Type 0} → M A → (A → M B) → M B
◌>>=◌ m f s = elim (m s) [ none ↦ none | some r ↦ f r.0 r.1 ]

abbrev pub ◌>>◌ : {A B : Type 0} → M A → M B → M B
m >> k = m >>= λ _. k

abbrev pub pure : {A : Type 0} → A → M A
pure a s = some (a, s)

abbrev pub undefined : {A : Type 0} → M A
undefined s = none

-- A command that only updates the state.
abbrev pub update : (AsmState → AsmState) → M (Unit {0})
update f s = some (tt, f s)

abbrev pub gets : {A : Type 0} → (AsmState → A) → M A
gets f s = some (f s, s)

-- A pointer that the code reads through.
abbrev pub deref : Option Operand → M Operand
deref none s = none
deref (some p) s = some (p, s)

-- `emit_asm`
abbrev pub emit : Asm → M (Unit {0})
emit a s = some (tt, record s { out = s.out ++ a ∷ [] })
