-- ===== src/Preprocess/Merge/Step.antt =====
-- A step of an instruction under `replace_operand`, and runs through instructions that do nothing.
use mathlib.Core.Path.{subst}
use mathlib.Core.Bool.{false≢true}
use naivecc.Base.{
  ℕ, zero, suc, ◌+◌, ◌<◌, ◌≤◌, Bool, true, false, Option, none, some, ◌≡◌, refl, get_elem?, ◌==◌,
  ◌↔◌, ◌⊎◌, arith, if◌then◌else◌, Bool-cases, inl, inr, iff_trans, eq_of_beq,
}
use naivecc.Operand.{Operand, OpeType, same_ope_type}
use naivecc.Ir.{Ir, Buffer}
use naivecc.Ir.Kinds.{IrType, same_type, eq_nop}
use naivecc.Preprocess.{replace_in, swap_ptr}
use naivecc.Preprocess.Inv.{is_typed, is_data}
use naivecc.Machine.{
  holds, Machine, Kind, skip, jump, branch, return, act, kind, target, Outcome, returned, Next,
  more, halted, goto, exec, step, run, Halts,
}
use naivecc.Machine.Run.{Halts-step}
use naivecc.Machine.Steps.{step-skip}

-- An instruction that is no NOP, under `replace_operand`.
abbrev pub replaced : Operand → Operand → Ir → Ir
replaced a b ir = record ir {
  rs = swap_ptr a (some b) ir.rs;
  rt = swap_ptr a (some b) ir.rt;
  rd = swap_ptr a (some b) ir.rd;
}

-- Pointers that are not replaced.
pub swap_ptr-data :
    (ty : Operand → OpeType) (a b : Operand) (p : Option Operand)
    → same_ope_type (ty b) OpeType.label ≡ true
    → is_data ty p ≡ true
    → swap_ptr a (some b) p ≡ p
unfolding swap_ptr
swap_ptr-data ty a b none l d = refl
swap_ptr-data ty a b (some q) l d = elim (Bool-cases (q == b)) [
  | inl e ↦ absurd (false≢true (ground (arith, eq_of_beq q b e)))
  | inr e ↦ rw e
]

-- A data instruction has no field that is replaced.
pub replace_in-act :
    (ty : Operand → OpeType) (a b : Operand) (ir : Ir)
    → same_ope_type (ty b) OpeType.label ≡ true
    → is_typed ty ir ≡ true
    → kind ir.type ≡ act
    → replace_in a (some b) ir ≡ ir
unfolding replace_in
replace_in-act ty a b ir l t e = elim (Bool-cases (same_type ir.type IrType.nop)) [
  | inl n ↦ rw (replace_in, n) refl
  | inr n ↦
      rw
        (
          replace_in,
          n,
          swap_ptr-data ty a b ir.rd l (ground arith),
          swap_ptr-data ty a b ir.rs l (ground arith),
          swap_ptr-data ty a b ir.rt l (ground arith),
        )
        refl
]

-- An instruction with the outcome of its jump given.
unfoldable pub exec_to : (m : Machine) → Next m → Ir → ℕ → m.State → Next m
exec_to m g ir pc s = elim (kind ir.type) [
  | skip ↦ more (pc + 1) s
  | jump ↦ g
  | branch ↦ if holds m ir.type ir.rs ir.rt s then g else more (pc + 1) s
  | return ↦ halted (returned ir.rs s)
  | act ↦ more (pc + 1) (m.act ir.type ir.rd ir.rs ir.rt s)
]

module _ (m : Machine) where
  pub exec-exec_to :
      (buf : Buffer) (ir : Ir) (pc : ℕ) (s : m.State)
      → exec m buf ir pc s ≡ exec_to m (goto m buf (target ir) s) ir pc s
  unfolding exec exec_to
  exec-exec_to buf ir pc s = ground arith

  -- An instruction follows its jump or does not look at it.
  pub exec_to-cases :
      (ir : Ir) (pc : ℕ) (s : m.State)
      → ((g : Next m) → exec_to m g ir pc s ≡ g)
        ⊎ ((t : Next m) × ((g : Next m) → exec_to m g ir pc s ≡ t))
  unfolding exec_to
  exec_to-cases ir pc s = go (kind ir.type) refl (holds m ir.type ir.rs ir.rt s) refl
    where
      go :
          (k : Kind)
          → kind ir.type ≡ k
          → (h : Bool) → holds m ir.type ir.rs ir.rt s ≡ h
          → ((g : Next m) → exec_to m g ir pc s ≡ g)
            ⊎ ((t : Next m) × ((g : Next m) → exec_to m g ir pc s ≡ t))
      go skip e h e' = inr (more (pc + 1) s, λ g. rw (exec_to, e))
      go jump e h e' = inl (λ g. rw (exec_to, e))
      go branch e true e' = inl (λ g. rw (exec_to, e, e'))
      go branch e false e' = inr (more (pc + 1) s, λ g. rw (exec_to, e, e'))
      go return e h e' = inr (halted (returned ir.rs s), λ g. rw (exec_to, e))
      go act e h e' = inr (more (pc + 1) (m.act ir.type ir.rd ir.rs ir.rt s), λ g. rw (exec_to, e))

  -- A run through instructions that do nothing.
  pub Halts-skip :
      (buf : Buffer) (d k : ℕ) (s : m.State) (o : Outcome m)
      → ((j : ℕ)
          → k ≤ j
          → j < k + d
          → (ir : Ir) × (get_elem? buf j ≡ some ir) × (kind ir.type ≡ skip))
      → Halts m buf k s o ↔ Halts m buf (k + d) s o
  unfolding run
  Halts-skip buf zero k s o h =
      subst (λ j. Halts m buf k s o ↔ Halts m buf j s o) (omega arith) (λ x. x, λ x. x)
  Halts-skip buf (suc d) k s o h =
      let (ir, e, sk) = h k (omega arith) (omega arith) in
      let st : step m buf k s ≡ more (k + 1) s = step-skip m buf k s e sk in
      let rest : Halts m buf (k + 1) s o ↔ Halts m buf (k + 1 + d) s o =
        Halts-skip buf d (k + 1) s o (λ j l u. h j (omega arith) (omega arith)) in
      iff_trans (back st, Halts-step m buf k (k + 1) s s st)
        (subst (λ j. Halts m buf (k + 1) s o ↔ Halts m buf j s o) (omega arith) rest)
    where
      back : step m buf k s ≡ more (k + 1) s → Halts m buf k s o → Halts m buf (k + 1) s o
      back st (zero, e) = cc
      back st (suc n, e) = (n, rw (run, st) at e)

  exec_to-replaced :
      (ty : Operand → OpeType) (a b : Operand) (g : Next m) (ir : Ir) (pc : ℕ) (s : m.State)
      → same_ope_type (ty b) OpeType.label ≡ true
      → is_typed ty ir ≡ true
      → (k : Kind) → kind ir.type ≡ k
      → exec_to m g (replaced a b ir) pc s ≡ exec_to m g ir pc s
  unfolding exec_to
  exec_to-replaced ty a b g ir pc s l t skip e = rw (exec_to, e)
  exec_to-replaced ty a b g ir pc s l t jump e = rw (exec_to, e)
  exec_to-replaced ty a b g ir pc s l t branch e = rw (
    exec_to,
    e,
    swap_ptr-data ty a b ir.rs l (ground arith),
    swap_ptr-data ty a b ir.rt l (ground arith),
  )
  exec_to-replaced ty a b g ir pc s l t return e =
      rw (exec_to, e, swap_ptr-data ty a b ir.rs l (ground arith))
  exec_to-replaced ty a b g ir pc s l t act e = rw (
    exec_to,
    e,
    swap_ptr-data ty a b ir.rd l (ground arith),
    swap_ptr-data ty a b ir.rs l (ground arith),
    swap_ptr-data ty a b ir.rt l (ground arith),
  )

  pub exec_to-replace :
      (ty : Operand → OpeType) (a b : Operand) (g : Next m) (ir : Ir) (pc : ℕ) (s : m.State)
      → same_ope_type (ty b) OpeType.label ≡ true
      → is_typed ty ir ≡ true
      → exec_to m g (replace_in a (some b) ir) pc s ≡ exec_to m g ir pc s
  unfolding replace_in
  exec_to-replace ty a b g ir pc s l t = elim (Bool-cases (same_type ir.type IrType.nop)) [
    | inl e ↦ rw (replace_in, e)
    | inr e ↦ rw (replace_in, e) (exec_to-replaced ty a b g ir pc s l t (kind ir.type) refl)
  ]

target-replaced :
    (a b : Operand) (ir : Ir) → target (replaced a b ir) ≡ swap_ptr a (some b) (target ir)
unfolding swap_ptr
target-replaced a b ir = ground arith

pub target-replace :
    (a b : Operand) (ir : Ir) → target (replace_in a (some b) ir) ≡ swap_ptr a (some b) (target ir)
unfolding replace_in swap_ptr
target-replace a b ir = elim (Bool-cases (same_type ir.type IrType.nop)) [
  | inl e ↦ let e' : ir.type ≡ IrType.nop = eq_nop ir.type e in rw (replace_in, e) (rw e' refl)
  | inr e ↦ rw (replace_in, e) (target-replaced a b ir)
]
