-- ===== src/Machine/Cases.antt =====
-- What a step can be: where control goes next.
use naivecc.Base.{
  ℕ, ◌+◌, true, Option, none, some, ◌≡◌, refl, get_elem?, Option-cases, inl, inr, Bool-cases,
}
use naivecc.Operand.{Operand}
use naivecc.Ir.{Ir, Buffer}
use naivecc.Machine.{
  holds, Machine, Kind, skip, jump, branch, return, act, kind, Outcome, Next, more, halted, stuck,
  goto, exec, step, label_index,
}
use naivecc.Machine.Labels.{labels?, label_index_sound}

module _ (m : Machine) where
  -- The next instruction in order, a label, or none.
  pub data Goes (buf : Buffer) (pc : ℕ) : Next m → Type 0 where
    on : {s : m.State} → Goes buf pc (more (pc + 1) s)
    to :
        {j : ℕ} {s : m.State} (p : Operand)
        → labels? p (get_elem? buf j) ≡ true
        → Goes buf pc (more j s)
    halts : {o : Outcome m} → Goes buf pc (halted o)
    blocked : Goes buf pc stuck

  -- A jump reaches a label with the state unchanged, or there is none.
  pub data Lands (buf : Buffer) (s : m.State) : Next m → Type 0 where
    lands : {j : ℕ} (p : Operand) → labels? p (get_elem? buf j) ≡ true → Lands buf s (more j s)
    nowhere : Lands buf s stuck

  pub goto-Lands : (buf : Buffer) (q : Option Operand) (s : m.State) → Lands buf s (goto m buf q s)
  unfolding goto
  goto-Lands buf none s = nowhere
  goto-Lands buf (some p) s = elim (Option-cases (label_index p buf)) [
    | inl (j, e) ↦ rw (goto, e) (lands p (label_index_sound p buf e))
    | inr e ↦ rw (goto, e) nowhere
  ]

  Lands-Goes : {buf : Buffer} {s : m.State} {t : Next m} (pc : ℕ) → Lands buf s t → Goes buf pc t
  Lands-Goes pc (lands p h) = to p h
  Lands-Goes pc nowhere = blocked

  exec-Goes :
      (k : Kind) (buf : Buffer) (ir : Ir) (pc : ℕ) (s : m.State)
      → kind ir.type ≡ k
      → Goes buf pc (exec m buf ir pc s)
  unfolding exec
  exec-Goes skip buf ir pc s e = rw (exec, e) on
  exec-Goes jump buf ir pc s e = rw (exec, e) (Lands-Goes pc (goto-Lands buf ir.rs s))
  exec-Goes branch buf ir pc s e = elim (Bool-cases (holds m ir.type ir.rs ir.rt s)) [
    | inl h ↦ rw (exec, e, h) (Lands-Goes pc (goto-Lands buf ir.rd s))
    | inr h ↦ rw (exec, e, h) on
  ]
  exec-Goes return buf ir pc s e = rw (exec, e) halts
  exec-Goes act buf ir pc s e = rw (exec, e) on

  pub step-Goes : (buf : Buffer) (pc : ℕ) (s : m.State) → Goes buf pc (step m buf pc s)
  unfolding step
  step-Goes buf pc s = elim (Option-cases (get_elem? buf pc)) [
    | inl (ir, e) ↦ rw (step, e) (exec-Goes (kind ir.type) buf ir pc s refl)
    | inr e ↦ rw (step, e) halts
  ]
