-- ===== src/Machine/Steps.antt =====
-- One step of the machine, by the kind of the instruction.
use naivecc.Base.{
  ℕ, ◌+◌, true, false, Option, none, some, ◌≡◌, refl, get_elem?, ◌∙◌, ◌≢◌, arith, Option-cases, inl,
  inr,
}
use naivecc.Operand.{Operand}
use naivecc.Ir.{Ir, Buffer, is_branch}
use naivecc.Ir.Relop.{get_relop_anti}
use naivecc.Machine.{
  holds, Machine, skip, jump, branch, kind, target, labels, more, goto, exec, step, label_index,
}
use naivecc.Machine.Labels.{labels?, Unique, label_index-eq}

pub kind-is_branch : (ir : Ir) → is_branch ir ≡ true → kind ir.type ≡ branch
unfolding is_branch
kind-is_branch ir h = ground arith

pub kind-get_relop_anti : (ir : Ir) → is_branch ir ≡ true → kind (get_relop_anti ir.type) ≡ branch
unfolding is_branch get_relop_anti
kind-get_relop_anti ir h = ground arith

pub target-branch : (ir : Ir) → kind ir.type ≡ branch → target ir ≡ ir.rd
target-branch ir k = ground arith

pub target-jump : (ir : Ir) → kind ir.type ≡ jump → target ir ≡ ir.rs
target-jump ir k = ground arith

-- Only instructions that fall through are labels.
pub labels-of_kind : (q : Operand) (ir : Ir) → kind ir.type ≢ skip → labels q ir ≡ false
labels-of_kind q ir h = ground arith

module _ (m : Machine) (buf : Buffer) (pc : ℕ) (s : m.State) {ir : Ir}
    (at : get_elem? buf pc ≡ some ir) where
  pub step-skip : kind ir.type ≡ skip → step m buf pc s ≡ more (pc + 1) s
  unfolding step exec
  step-skip k = rw (step, at) (rw (exec, k))

  pub step-jump : kind ir.type ≡ jump → step m buf pc s ≡ goto m buf ir.rs s
  unfolding step exec
  step-jump k = rw (step, at) (rw (exec, k))

  pub step-branch_taken :
      kind ir.type ≡ branch
      → holds m ir.type ir.rs ir.rt s ≡ true
      → step m buf pc s ≡ goto m buf ir.rd s
  unfolding step exec
  step-branch_taken k h = rw (step, at) (rw (exec, k, h))

  pub step-branch_not :
      kind ir.type ≡ branch
      → holds m ir.type ir.rs ir.rt s ≡ false
      → step m buf pc s ≡ more (pc + 1) s
  unfolding step exec
  step-branch_not k h = rw (step, at) (rw (exec, k, h))

module _ (m : Machine) where
  pub goto-label :
      (buf : Buffer) (p : Operand) (j : ℕ) (s : m.State)
      → Unique buf
      → labels? p (get_elem? buf j) ≡ true
      → goto m buf (some p) s ≡ more j s
  unfolding goto
  goto-label buf p j s u h = rw (goto, label_index-eq p buf j u h)

  pub goto-congr :
      (xs ys : Buffer) (q : Option Operand) (s : m.State)
      → ((p : Operand) → label_index p xs ≡ label_index p ys)
      → goto m xs q s ≡ goto m ys q s
  unfolding goto
  goto-congr xs ys none s l = refl
  goto-congr xs ys (some p) s l = rw (goto, l p)

  pub exec-congr :
      (xs ys : Buffer) (ir : Ir) (pc : ℕ) (s : m.State)
      → goto m xs (target ir) s ≡ goto m ys (target ir) s
      → exec m xs ir pc s ≡ exec m ys ir pc s
  unfolding exec
  exec-congr xs ys ir pc s e = ground arith

  -- Two buffers agree on a step where they hold one instruction and its target stands at one place.
  pub step-congr_at :
      (xs ys : Buffer) (pc : ℕ) (s : m.State) (ir : Ir)
      → get_elem? xs pc ≡ some ir
      → get_elem? ys pc ≡ some ir
      → goto m xs (target ir) s ≡ goto m ys (target ir) s
      → step m xs pc s ≡ step m ys pc s
  unfolding step
  step-congr_at xs ys pc s ir ex ey l = rw (step, ex, ey) (exec-congr xs ys ir pc s l)

  pub step-congr :
      (xs ys : Buffer) (pc : ℕ) (s : m.State)
      → get_elem? xs pc ≡ get_elem? ys pc
      → ((p : Operand) → label_index p xs ≡ label_index p ys)
      → step m xs pc s ≡ step m ys pc s
  unfolding step
  step-congr xs ys pc s e l = elim (Option-cases (get_elem? ys pc)) [
    | inl (ir, ey) ↦ step-congr_at xs ys pc s ir (e ∙ ey) ey (goto-congr xs ys (target ir) s l)
    | inr ey ↦ let ex : get_elem? xs pc ≡ none = e ∙ ey in rw (step, ex, ey)
  ]
