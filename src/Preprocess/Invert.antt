-- ===== src/Preprocess/Invert.antt =====
-- `IF c GOTO L0; GOTO L1; LABEL L0` against `IF !c GOTO L1; NOP; LABEL L0`.
use naivecc.Base.{
  ℕ, ◌+◌, true, false, some, ◌≡◌, refl, get_elem?, ap, ◌∙◌, ◌==◌, ◌≢◌, ◌↔◌, arith, length, sym, inl,
  inr, if◌then◌else◌, Bool-cases, beq_refl, eq_of_beq,
}
use mathlib.Core.Path.{subst}
use naivecc.Operand.{Operand}
use naivecc.Ir.{Ir, Buffer, is_branch}
use naivecc.Ir.Kinds.{IrType, eq_jmp}
use naivecc.Ir.Relop.{get_relop_anti}
use naivecc.Preprocess.{is_skip_branch}
use naivecc.Machine.{
  holds, holds_anti, Machine, Next, more, goto, step, label_index, Halts, Outcome,
}
use naivecc.Machine.Labels.{labels?, Unique, label_index-congr}
use naivecc.Machine.Run.{Match, blocks, one, two, blocks_next, simulate, Halts-step, Match-same}
use naivecc.Machine.Cases.{Lands, lands, nowhere, goto-Lands}
use naivecc.Machine.Steps.{
  kind-is_branch, kind-get_relop_anti, step-skip, step-jump, step-branch_taken, step-branch_not,
  goto-label, step-congr, labels-of_kind, goto-congr,
}

abbrev pub inverted : Ir → Ir → Ir
inverted a b = record a { type = get_relop_anti a.type; rd = b.rs }

abbrev pub dropped : Ir → Ir
dropped b = record b { type = IrType.nop }

-- `ys` is `xs` with the branch at `i` inverted and the jump behind it dropped.
pub record Inverted (xs ys : Buffer) (i : ℕ) (a b c : Ir) (p : Operand) : Type 0 where
  pub first : get_elem? xs i ≡ some a
  pub second : get_elem? xs (i + 1) ≡ some b
  pub third : get_elem? xs (i + 2) ≡ some c
  pub is_pattern : is_skip_branch a b c ≡ true
  pub named : a.rd ≡ some p
  pub unique : Unique xs
  pub same_length : length xs ≡ length ys
  pub rest :
      (j : ℕ)
      → get_elem? ys j ≡ (
          if i == j
          then some (inverted a b)
          else if i + 1 == j
          then some (dropped b)
          else get_elem? xs j)

module _ (xs ys : Buffer) (i : ℕ) (a b c : Ir) (p : Operand) (v : Inverted xs ys i a b c p) where
  branch_first : is_branch a ≡ true
  unfolding is_skip_branch
  branch_first = ground (arith, v.is_pattern)

  jump_second : b.type ≡ IrType.jmp
  unfolding is_skip_branch
  jump_second = eq_jmp b.type (ground (arith, v.is_pattern))

  label_third : labels? p (get_elem? xs (i + 2)) ≡ true
  unfolding is_skip_branch
  label_third = rw v.third (ground (arith, v.is_pattern, v.named))

  ys_first : get_elem? ys i ≡ some (inverted a b)
  ys_first = v.rest i ∙ rw (beq_refl i)

  ys_second : get_elem? ys (i + 1) ≡ some (dropped b)
  ys_second = v.rest (i + 1) ∙ ground arith

  ys_other : (j : ℕ) → j ≢ i → j ≢ i + 1 → get_elem? ys j ≡ get_elem? xs j
  ys_other j n1 n2 = v.rest j ∙ ground arith

  same_labels : (q : Operand) (j : ℕ) → labels? q (get_elem? xs j) ≡ labels? q (get_elem? ys j)
  same_labels q j = elim (Bool-cases (i == j)) [
    | inl e ↦ rw (← eq_of_beq i j e) (
        rw (v.first, ys_first)
          (labels-of_kind q a (ground (arith, kind-is_branch a branch_first))
            ∙ sym (
                labels-of_kind q (inverted a b)
                  (ground (arith, kind-get_relop_anti a branch_first)))))
    | inr n ↦ elim (Bool-cases (i + 1 == j)) [
      | inl e ↦
          rw (← eq_of_beq (i + 1) j e)
            (rw (v.second, ys_second) (labels-of_kind q b (rw jump_second (ground arith))))
      | inr n' ↦ ap (labels? q) (sym (ys_other j (ground arith) (ground arith)))
    ]
  ]

  same_index : (q : Operand) → label_index q xs ≡ label_index q ys
  same_index q = label_index-congr q xs ys v.same_length (same_labels q)

  -- A label stands elsewhere than at the dropped jump.
  not_second : (q : Operand) (j : ℕ) → labels? q (get_elem? xs j) ≡ true → j ≢ i + 1
  not_second q j h e =
      let h' : labels? q (get_elem? xs (i + 1)) ≡ true =
        subst (λ k. labels? q (get_elem? xs k) ≡ true) e h in
      ground (arith, labels-of_kind q b (rw jump_second (ground arith)), (rw v.second at h'))

  module _ (m : Machine) where
    same_step : (j : ℕ) (s : m.State) → j ≢ i → j ≢ i + 1 → step m xs j s ≡ step m ys j s
    same_step j s n1 n2 = step-congr m xs ys j s (sym (ys_other j n1 n2)) same_index

    -- The three ways through the pattern.
    xs_taken : (s : m.State) → holds m a.type a.rs a.rt s ≡ true → step m xs i s ≡ more (i + 2) s
    xs_taken s h =
        step-branch_taken m xs i s v.first (kind-is_branch a branch_first) h
        ∙ rw v.named (goto-label m xs p (i + 2) s v.unique label_third)

    xs_not_taken :
        (s : m.State) → holds m a.type a.rs a.rt s ≡ false → step m xs i s ≡ more (i + 1) s
    xs_not_taken s h = step-branch_not m xs i s v.first (kind-is_branch a branch_first) h

    xs_jump : (s : m.State) → step m xs (i + 1) s ≡ goto m xs b.rs s
    xs_jump s = step-jump m xs (i + 1) s v.second (rw jump_second refl)

    ys_taken : (s : m.State) → holds m a.type a.rs a.rt s ≡ false → step m ys i s ≡ goto m ys b.rs s
    ys_taken s h =
        step-branch_taken m ys i s ys_first (kind-get_relop_anti a branch_first)
          (holds_anti m a s branch_first ∙ rw h)

    ys_not_taken :
        (s : m.State) → holds m a.type a.rs a.rt s ≡ true → step m ys i s ≡ more (i + 1) s
    ys_not_taken s h =
        step-branch_not m ys i s ys_first (kind-get_relop_anti a branch_first)
          (holds_anti m a s branch_first ∙ rw h)

    ys_nop : (s : m.State) → step m ys (i + 1) s ≡ more (i + 1 + 1) s
    ys_nop s = step-skip m ys (i + 1) s ys_second refl

    Good : ℕ → Type 0
    Good j = j ≢ i + 1

    -- Both ends of the pattern, by the buffer that makes the first step.
    xs_jumps :
        (s : m.State) {t : Next m}
        → holds m a.type a.rs a.rt s ≡ false
        → goto m xs b.rs s ≡ t
        → Lands m xs s t
        → Match m Good xs ys i s
    unfolding Good
    xs_jumps s h q (lands {j} p' l) =
        two (i + 1) s j s (xs_not_taken s h) (xs_jump s ∙ q) (not_second p' j l) (λ o.
          Halts-step m ys i j s s (ys_taken s h ∙ sym (goto-congr m xs ys b.rs s same_index) ∙ q))
    xs_jumps s h q nowhere = blocks_next (i + 1) s (xs_not_taken s h) (xs_jump s ∙ q)

    ys_jumps :
        (s : m.State) {t : Next m}
        → holds m a.type a.rs a.rt s ≡ false
        → goto m xs b.rs s ≡ t
        → Lands m xs s t
        → Match m Good ys xs i s
    unfolding Good
    ys_jumps s h q (lands {j} p' l) =
        one j s (ys_taken s h ∙ sym (goto-congr m xs ys b.rs s same_index) ∙ q) (not_second p' j l)
          (λ o r.
            Halts-step m xs i (i + 1) s s (xs_not_taken s h)
              (Halts-step m xs (i + 1) j s s (xs_jump s ∙ q) r))
    ys_jumps s h q nowhere = blocks (ys_taken s h ∙ sym (goto-congr m xs ys b.rs s same_index) ∙ q)

    xs_pattern : (s : m.State) → Match m Good xs ys i s
    unfolding Good
    xs_pattern s = elim (Bool-cases (holds m a.type a.rs a.rt s)) [
      | inl h ↦ one (i + 2) s (xs_taken s h) (ground arith) (λ o r.
          Halts-step m ys i (i + 1) s s (ys_not_taken s h) (
            Halts-step m ys (i + 1) (i + 1 + 1) s s (ys_nop s)
              (subst (λ k. Halts m ys k s o) (omega arith) r)))
      | inr h ↦ xs_jumps s h refl (goto-Lands m xs b.rs s)
    ]

    ys_pattern : (s : m.State) → Match m Good ys xs i s
    unfolding Good
    ys_pattern s = elim (Bool-cases (holds m a.type a.rs a.rt s)) [
      | inl h ↦ two (i + 1) s (i + 1 + 1) s (ys_not_taken s h) (ys_nop s) (ground arith) (λ o r.
          Halts-step m xs i (i + 2) s s (xs_taken s h)
            (subst (λ k. Halts m xs k s o) (omega arith) r))
      | inr h ↦ ys_jumps s h refl (goto-Lands m xs b.rs s)
    ]

    forward : (pc : ℕ) (s : m.State) → Good pc → Match m Good xs ys pc s
    unfolding Good
    forward pc s g = elim (Bool-cases (i == pc)) [
      | inl e ↦ subst (λ k. Match m Good xs ys k s) (eq_of_beq i pc e) (xs_pattern s)
      | inr n ↦
          Match-same m Good xs ys pc s (same_step pc s (ground arith) g)
            (λ j l. not_second l.0 j l.1) (ground arith)
    ]

    backward : (pc : ℕ) (s : m.State) → Good pc → Match m Good ys xs pc s
    unfolding Good
    backward pc s g = elim (Bool-cases (i == pc)) [
      | inl e ↦ subst (λ k. Match m Good ys xs k s) (eq_of_beq i pc e) (ys_pattern s)
      | inr n ↦
          Match-same m Good ys xs pc s (sym (same_step pc s (ground arith) g))
            (λ j l. not_second l.0 j (same_labels l.0 j ∙ l.1)) (ground arith)
    ]

    -- From anywhere but the dropped jump the two buffers have the same outcomes.
    pub Halts-Inverted :
        (pc : ℕ) (s : m.State) (o : Outcome m) → pc ≢ i + 1 → Halts m xs pc s o ↔ Halts m ys pc s o
    unfolding Good
    Halts-Inverted pc s o g = (
      λ (n, h). simulate m Good xs ys forward n pc s g h,
      λ (n, h). simulate m Good ys xs backward n pc s g h,
    )
