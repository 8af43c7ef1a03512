-- ===== src/Machine.antt =====
-- What the intermediate code means: an abstract machine that runs a buffer from an index. The data
-- instructions and the comparisons are those of a `Machine`; jumps go to the label they name.
pub mod Labels
pub mod Run
pub mod Steps
pub mod Cases
use naivecc.Base.{
  ℕ, zero, suc, ◌+◌, Bool, true, false, ◌&&◌, not, Option, none, some, List, [], ◌∷◌, ◌≡◌,
  get_elem?, if◌then◌else◌, same_ptr,
}
use naivecc.Base.Int.{ℤ}
use naivecc.Operand.{Operand}
use naivecc.Ir.Anti.{decides, is_branch-Listed}
use naivecc.Ir.{Ir, Buffer, is_branch}
use naivecc.Ir.Kinds.{IrType, same_type}
use naivecc.Ir.Relop.{get_relop_anti}

-- `act` runs a data instruction on its type, rd, rs and rt, and `value` is the integer that a
-- comparison reads. The head of a function is such an instruction, since it sets up the frame, and
-- so is a call: what the callee does to the state is the machine's to say.
pub record Machine : Type 1 where
  pub State : Type 0
  pub act : IrType → Option Operand → Option Operand → Option Operand → State → State
  pub value : Option Operand → State → ℤ

-- Whether a branch of the type `t` on `rs` and `rt` is taken.
abbrev pub holds : (m : Machine) → IrType → Option Operand → Option Operand → m.State → Bool
holds m t rs rt s = decides t (m.value rs s) (m.value rt s)

pub holds_anti :
    (m : Machine) (ir : Ir) (s : m.State)
    → is_branch ir ≡ true
    → holds m (get_relop_anti ir.type) ir.rs ir.rt s ≡ not (holds m ir.type ir.rs ir.rt s)
holds_anti m ir s h = (is_branch-Listed ir h).opposite (m.value ir.rs s) (m.value ir.rt s)

pub data Kind : Type 0 where
  skip jump branch return act : Kind

abbrev pub kind : IrType → Kind
kind IrType.nop = skip
kind IrType.label = skip
kind IrType.jmp = jump
kind IrType.beq = branch
kind IrType.blt = branch
kind IrType.ble = branch
kind IrType.bgt = branch
kind IrType.bge = branch
kind IrType.bne = branch
kind IrType.ret = return
kind _ = act

-- The label that an instruction may jump to.
abbrev pub target : Ir → Option Operand
target ir = elim (kind ir.type) [ jump ↦ ir.rs | branch ↦ ir.rd | _ ↦ none ]

abbrev pub labels : Operand → Ir → Bool
labels p ir = same_type ir.type IrType.label && same_ptr ir.rs (some p)

-- The index of the first label `p`.
unfoldable pub label_index : Operand → Buffer → Option ℕ
label_index p [] = none
label_index p (ir ∷ buf) =
    if labels p ir then some 0 else elim (label_index p buf) [ none ↦ none | some j ↦ some (suc j) ]

module _ (m : Machine) where
  pub data Outcome : Type 0 where
    returned : Option Operand → m.State → Outcome
    fell : m.State → Outcome

  pub data Next : Type 0 where
    more : ℕ → m.State → Next
    halted : Outcome → Next
    stuck : Next

  unfoldable pub goto : Buffer → Option Operand → m.State → Next
  goto buf none s = stuck
  goto buf (some p) s = elim (label_index p buf) [ none ↦ stuck | some j ↦ more j s ]

  unfoldable pub exec : Buffer → Ir → ℕ → m.State → Next
  exec buf ir pc s = elim (kind ir.type) [
    | skip ↦ more (pc + 1) s
    | jump ↦ goto buf ir.rs s
    | branch ↦ if holds m ir.type ir.rs ir.rt s then goto buf ir.rd s else more (pc + 1) s
    | return ↦ halted (returned ir.rs s)
    | act ↦ more (pc + 1) (m.act ir.type ir.rd ir.rs ir.rt s)
  ]

  unfoldable pub step : Buffer → ℕ → m.State → Next
  step buf pc s = elim (get_elem? buf pc) [ none ↦ halted (fell s) | some ir ↦ exec buf ir pc s ]

  unfoldable pub run : Buffer → ℕ → ℕ → m.State → Option Outcome
  run buf zero pc s = none
  run buf (suc n) pc s = elim (step buf pc s) [
    | more pc' s' ↦ run buf n pc' s'
    | halted o ↦ some o
    | stuck ↦ none
  ]

  -- From `pc` in state `s` the code halts with outcome `o`.
  abbrev pub Halts : Buffer → ℕ → m.State → Outcome → Type 0
  Halts buf pc s o = (n : ℕ) × (run buf n pc s ≡ some o)
