-- ===== src/Preprocess/Drop.antt =====
-- Instructions that may become NOPs: a jump to the next label, and a label that nothing names.
use mathlib.Core.Path.{subst}
use naivecc.Base.{
  ℕ, zero, suc, ◌+◌, true, false, Option, none, some, ◌≡◌, refl, get_elem?, ap, ◌∙◌, ◌==◌, ◌≢◌, ◌↔◌,
  arith, length, sym, Option-cases, inl, inr, if◌then◌else◌, Bool-cases, eq_of_beq, beq_refl,
}
use naivecc.Operand.{Operand}
use naivecc.Ir.{Ir, Buffer}
use naivecc.Ir.Kinds.{IrType, eq_jmp, eq_label}
use naivecc.Preprocess.{is_skip_jump}
use naivecc.Preprocess.Invert.{dropped}
use naivecc.Machine.{
  Machine, skip, kind, target, labels, Outcome, more, halted, stuck, goto, step, run, Halts,
}
use naivecc.Machine.Labels.{labels?, Unique, label_index-congr}
use naivecc.Machine.Steps.{
  step-skip, step-jump, step-congr, step-congr_at, goto-label, labels-of_kind,
}

module _ (m : Machine) (xs ys : Buffer)
    (same : (pc : ℕ) (s : m.State) → step m xs pc s ≡ step m ys pc s) where
  run-same : (n pc : ℕ) (s : m.State) → run m xs n pc s ≡ run m ys n pc s
  unfolding run
  run-same zero pc s = refl
  run-same (suc n) pc s = λ i. elim (same pc s i) [
    | more pc' s' ↦ run-same n pc' s' i
    | halted o ↦ some o
    | stuck ↦ none
  ]

  pub Halts-same : (pc : ℕ) (s : m.State) (o : Outcome m) → Halts m xs pc s o ↔ Halts m ys pc s o
  Halts-same pc s o = (λ (n, h). (n, sym (run-same n pc s) ∙ h), λ (n, h). (n, run-same n pc s ∙ h))

-- `ys` is `xs` with the jump at `i`, whose label is next, dropped.
pub record JumpDropped (xs ys : Buffer) (i : ℕ) (a b : Ir) (p : Operand) : Type 0 where
  pub first : get_elem? xs i ≡ some a
  pub second : get_elem? xs (i + 1) ≡ some b
  pub is_pattern : is_skip_jump a b ≡ true
  pub named : a.rs ≡ some p
  pub unique : Unique xs
  pub same_length : length xs ≡ length ys
  pub rest : (j : ℕ) → get_elem? ys j ≡ (if i == j then some (dropped a) else get_elem? xs j)

module _ (xs ys : Buffer) (i : ℕ) (a b : Ir) (p : Operand) (v : JumpDropped xs ys i a b p) where
  jump_first : a.type ≡ IrType.jmp
  unfolding is_skip_jump
  jump_first = eq_jmp a.type (ground (arith, v.is_pattern))

  label_second : labels? p (get_elem? xs (i + 1)) ≡ true
  unfolding is_skip_jump
  label_second = rw v.second (ground (arith, v.is_pattern, v.named))

  ys_at : get_elem? ys i ≡ some (dropped a)
  ys_at = v.rest i ∙ rw (beq_refl i)

  same_labels : (q : Operand) (j : ℕ) → labels? q (get_elem? xs j) ≡ labels? q (get_elem? ys j)
  same_labels q j = elim (Bool-cases (i == j)) [
    | inl e ↦
        rw (← eq_of_beq i j e)
          (rw (v.first, ys_at) (labels-of_kind q a (rw jump_first (ground arith))))
    | inr n ↦ ap (labels? q) {x = get_elem? xs j} (sym (v.rest j ∙ rw n))
  ]

  pub Halts-JumpDropped :
      (m : Machine) (pc : ℕ) (s : m.State) (o : Outcome m) → Halts m xs pc s o ↔ Halts m ys pc s o
  Halts-JumpDropped m = Halts-same m xs ys λ pc s. elim (Bool-cases (i == pc)) [
    | inl e ↦
        subst (λ k. step m xs k s ≡ step m ys k s) (eq_of_beq i pc e)
          (step-jump m xs i s v.first (rw jump_first refl)
            ∙ rw v.named (goto-label m xs p (i + 1) s v.unique label_second)
            ∙ sym (step-skip m ys i s ys_at refl))
    | inr n ↦
        step-congr m xs ys pc s (sym (v.rest pc ∙ rw n))
          (λ q. label_index-congr q xs ys v.same_length (same_labels q))
  ]

abbrev pub unlabelled : Ir → Ir
unlabelled c = record c { type = IrType.nop; rs = none }

-- No instruction jumps to `p`.
abbrev pub Unused : Operand → Buffer → Type 0
Unused p buf = (j : ℕ) (ir : Ir) → get_elem? buf j ≡ some ir → target ir ≢ some p

-- `ys` is `xs` with the label `p` at `k`, that nothing names, dropped.
pub record LabelDropped (xs ys : Buffer) (k : ℕ) (c : Ir) (p : Operand) : Type 0 where
  pub place : get_elem? xs k ≡ some c
  pub is_label : labels p c ≡ true
  pub unused : Unused p xs
  pub same_length : length xs ≡ length ys
  pub rest : (j : ℕ) → get_elem? ys j ≡ (if k == j then some (unlabelled c) else get_elem? xs j)

module _ (xs ys : Buffer) (k : ℕ) (c : Ir) (p : Operand) (v : LabelDropped xs ys k c p) where
  ys_place : get_elem? ys k ≡ some (unlabelled c)
  ys_place = v.rest k ∙ rw (beq_refl k)

  label_type : kind c.type ≡ skip
  label_type = rw (eq_label c.type (ground (arith, v.is_label)))

  others : (q : Operand) → p ≢ q → (j : ℕ) → labels? q (get_elem? xs j) ≡ labels? q (get_elem? ys j)
  others q n j = elim (Bool-cases (k == j)) [
    | inl e ↦ rw (← eq_of_beq k j e) (rw (v.place, ys_place) (ground (arith, v.is_label)))
    | inr n' ↦ ap (labels? q) {x = get_elem? xs j} (sym (v.rest j ∙ rw n'))
  ]

  module _ (m : Machine) where
    same_goto : (q : Option Operand) (s : m.State) → q ≢ some p → goto m xs q s ≡ goto m ys q s
    unfolding goto
    same_goto none s n = refl
    same_goto (some q) s n =
        rw (goto, label_index-congr q xs ys v.same_length (others q (λ e. n (ap some (sym e)))))

    other_step : (pc : ℕ) (s : m.State) → (k == pc) ≡ false → step m xs pc s ≡ step m ys pc s
    unfolding step
    other_step pc s n = elim (Option-cases (get_elem? xs pc)) [
      | inl (ir, e) ↦
          step-congr_at m xs ys pc s ir e (v.rest pc ∙ rw n e)
            (same_goto (target ir) s (v.unused pc ir e))
      | inr e ↦ let e' : get_elem? ys pc ≡ none = v.rest pc ∙ rw n e in rw (step, e, e')
    ]

  pub Halts-LabelDropped :
      (m : Machine) (pc : ℕ) (s : m.State) (o : Outcome m) → Halts m xs pc s o ↔ Halts m ys pc s o
  Halts-LabelDropped m = Halts-same m xs ys λ pc s. elim (Bool-cases (k == pc)) [
    | inl e ↦
        subst (λ j. step m xs j s ≡ step m ys j s) (eq_of_beq k pc e)
          (step-skip m xs k s v.place label_type ∙ sym (step-skip m ys k s ys_place refl))
    | inr n ↦ other_step m pc s n
  ]
