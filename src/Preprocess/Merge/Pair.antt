-- ===== src/Preprocess/Merge/Pair.antt =====
-- Two buffers of which one has a label merged into an earlier one mean the same.
use mathlib.Core.Path.{subst}
use mathlib.Core.Bool.{false≢true}
use naivecc.Base.{
  ℕ, ◌+◌, ◌<◌, ◌≤◌, true, false, Option, none, some, ◌≡◌, refl, get_elem?, ◌∙◌, ◌==◌, ◌↔◌, ◌⊎◌,
  arith, length, sym, if◌then◌else◌, Bool-cases, inl, inr, same_ptr, Option-cases, eq_of_beq,
  eq_of_same_ptr, beq_refl,
}
use naivecc.Operand.{Operand, OpeType, same_ope_type}
use naivecc.Ir.{Ir, Buffer}
use naivecc.Ir.Kinds.{IrType, same_type, eq_label}
use naivecc.Preprocess.{replace_in, swap_ptr}
use naivecc.Preprocess.Inv.{Every, is_typed}
use naivecc.Preprocess.Merge.Step.{
  exec_to, exec-exec_to, exec_to-cases, exec_to-replace, target-replace, Halts-skip,
}
use naivecc.Machine.{
  Machine, skip, kind, target, labels, Outcome, Next, more, goto, step, label_index, Halts,
}
use naivecc.Machine.Labels.{labels?, Unique, label_index-congr}
use naivecc.Machine.Run.{Match, one, simulate, Halts-step, Match-same}
use naivecc.Machine.Steps.{step-skip, goto-label}

-- What `replace_operand_global` makes of a position.
abbrev pub replace_at : Operand → Operand → Option Ir → Option Ir
replace_at a b none = none
replace_at a b (some ir) = some (replace_in a (some b) ir)

-- `zs` is `xs` with the label `b`, `d` positions behind the label `a`, merged into it.
pub record Merged (ty : Operand → OpeType) (xs zs : Buffer) (k d : ℕ) (p c : Ir) (a b : Operand)
    : Type 0 where
  pub first : get_elem? xs k ≡ some p
  pub first_label : labels a p ≡ true
  pub second : get_elem? xs (k + d) ≡ some c
  pub second_label : labels b c ≡ true
  pub apart : 0 < d
  pub between :
      (j : ℕ) → k ≤ j → j < k + d → (ir : Ir) × (get_elem? xs j ≡ some ir) × (kind ir.type ≡ skip)
  pub unique : Unique xs
  pub typed : Every (λ ir. is_typed ty ir ≡ true) xs
  pub label_type : same_ope_type (ty b) OpeType.label ≡ true
  pub same_length : length xs ≡ length zs
  pub merged : Ir
  pub merged_type : merged.type ≡ IrType.nop
  pub rest :
      (j : ℕ)
      → get_elem? zs j ≡ (if k + d == j then some merged else replace_at a b (get_elem? xs j))

pub labels-replace :
    (a b q : Operand) (ir : Ir)
    → labels b ir ≡ false
    → labels q (replace_in a (some b) ir) ≡ labels q ir
unfolding replace_in swap_ptr
labels-replace a b q ir h = ground arith

pub type-replace_in : (a b : Operand) (ir : Ir) → (replace_in a (some b) ir).type ≡ ir.type
unfolding replace_in
type-replace_in a b ir = elim (Bool-cases (same_type ir.type IrType.nop)) [
  | inl e ↦ rw (replace_in, e)
  | inr e ↦ rw (replace_in, e)
]

module _ (ty : Operand → OpeType) (xs zs : Buffer) (k d : ℕ) (p c : Ir) (a b : Operand)
    (v : Merged ty xs zs k d p c a b) where
  zs_at : get_elem? zs (k + d) ≡ some v.merged
  zs_at = v.rest (k + d) ∙ rw (beq_refl (k + d))

  different : (a == b) ≡ false
  different = elim (Bool-cases (a == b)) [
    | inl e ↦ absurd (
        ground (
          arith,
          v.unique b k (k + d)
              (rw v.first (subst (λ q. labels q p ≡ true) (eq_of_beq a b e) v.first_label))
              (rw v.second v.second_label),
          v.apart,
        ))
    | inr e ↦ e
  ]

  pub not_b :
      (j : ℕ) (ir : Ir) → (k + d == j) ≡ false → get_elem? xs j ≡ some ir → labels b ir ≡ false
  not_b j ir n e = elim (Bool-cases (labels b ir)) [
    | inl h ↦ absurd (ground (arith, v.unique b (k + d) j (rw v.second v.second_label) (rw e h)))
    | inr h ↦ h
  ]

  same_labels :
      (q : Operand)
      → (q == b) ≡ false
      → (j : ℕ) → labels? q (get_elem? xs j) ≡ labels? q (get_elem? zs j)
  same_labels q n j = elim (Bool-cases (k + d == j)) [
    | inl e ↦
        subst (λ t. labels? q (get_elem? xs t) ≡ labels? q (get_elem? zs t)) (eq_of_beq (k + d) j e)
          (rw (v.second, zs_at) (ground (arith, v.second_label, v.merged_type)))
    | inr e ↦ elim (Option-cases (get_elem? xs j)) [
      | inl (ir, e') ↦
          let z : get_elem? zs j ≡ some (replace_in a (some b) ir) = v.rest j ∙ rw (e, e') in
          rw (e', z) (sym (labels-replace a b q ir (not_b j ir e e')))
      | inr e' ↦ let z : get_elem? zs j ≡ none = v.rest j ∙ rw (e, e') in rw (e', z)
    ]
  ]

  -- Every label that is left was one before.
  pub zs-labels :
      (q : Operand) (j : ℕ) → labels? q (get_elem? zs j) ≡ true → labels? q (get_elem? xs j) ≡ true
  zs-labels q j h = elim (Bool-cases (k + d == j)) [
    | inl e ↦
        let z : get_elem? zs j ≡ some v.merged = v.rest j ∙ rw e in
        absurd (false≢true (sym (ground (arith, v.merged_type)) ∙ (rw z at h)))
    | inr e ↦ elim (Option-cases (get_elem? xs j)) [
      | inl (ir, e') ↦
          let z : get_elem? zs j ≡ some (replace_in a (some b) ir) = v.rest j ∙ rw (e, e') in
          rw e' (sym (labels-replace a b q ir (not_b j ir e e')) ∙ (rw z at h))
      | inr e' ↦
          let z : get_elem? zs j ≡ none = v.rest j ∙ rw (e, e') in absurd (false≢true (rw z at h))
    ]
  ]

  same_index : (q : Operand) → (q == b) ≡ false → label_index q xs ≡ label_index q zs
  same_index q n = label_index-congr q xs zs v.same_length (same_labels q n)

  module _ (m : Machine) where
    goto_other :
        (t : Option Operand) (s : m.State)
        → same_ptr t (some b) ≡ false
        → goto m xs t s ≡ goto m zs (swap_ptr a (some b) t) s
    unfolding goto swap_ptr
    goto_other none s n = refl
    goto_other (some q) s n = rw (swap_ptr, n) (rw (goto, same_index q n))

    goto_b_xs : (s : m.State) → goto m xs (some b) s ≡ more (k + d) s
    goto_b_xs s = goto-label m xs b (k + d) s v.unique (rw v.second v.second_label)

    goto_b_zs : (s : m.State) → goto m zs (swap_ptr a (some b) (some b)) s ≡ more k s
    unfolding swap_ptr goto
    goto_b_zs s =
        rw (swap_ptr, beq_refl b)
          (rw (goto, ← same_index a different)
            (goto-label m xs a k s v.unique (rw v.first v.first_label)))

    xs_exec :
        (pc : ℕ) (s : m.State) (ir : Ir)
        → get_elem? xs pc ≡ some ir
        → step m xs pc s ≡ exec_to m (goto m xs (target ir) s) ir pc s
    unfolding step
    xs_exec pc s ir e = rw (step, e) (exec-exec_to m xs ir pc s)

    zs_exec :
        (pc : ℕ) (s : m.State) (ir : Ir)
        → (k + d == pc) ≡ false
        → get_elem? xs pc ≡ some ir
        → step m zs pc s ≡ exec_to m (goto m zs (swap_ptr a (some b) (target ir)) s) ir pc s
    unfolding step
    zs_exec pc s ir n e =
        let z : get_elem? zs pc ≡ some (replace_in a (some b) ir) = v.rest pc ∙ rw (n, e) in
        rw (step, z)
          (exec-exec_to m zs (replace_in a (some b) ir) pc s
            ∙ rw (target-replace a b ir) (
                exec_to-replace m ty a b (goto m zs (swap_ptr a (some b) (target ir)) s) ir pc s
                  v.label_type (v.typed pc ir e)))

    Anywhere : ℕ → Type 0
    Anywhere j = Unit {0}

    -- The labels from `k` to `k + d` do nothing in either buffer.
    pub zs_between :
        (j : ℕ) → k ≤ j → j < k + d → (ir : Ir) × (get_elem? zs j ≡ some ir) × (kind ir.type ≡ skip)
    unfolding replace_in
    zs_between j l u =
        let (ir, e, sk) = v.between j l u in
        let n : (k + d == j) ≡ false = ground arith in
        (replace_in a (some b) ir, v.rest j ∙ rw (n, e), rw (type-replace_in a b ir) sk)

    xs_skip : (s : m.State) (o : Outcome m) → Halts m xs k s o ↔ Halts m xs (k + d) s o
    xs_skip s o = Halts-skip m xs d k s o v.between

    zs_skip : (s : m.State) (o : Outcome m) → Halts m zs k s o ↔ Halts m zs (k + d) s o
    zs_skip s o = Halts-skip m zs d k s o zs_between

    -- A step that may jump to `b`.
    xs_via :
        (pc : ℕ) (s : m.State)
        → step m xs pc s ≡ more (k + d) s
        → step m zs pc s ≡ more k s
        → Match m Anywhere xs zs pc s
    unfolding Anywhere
    xs_via pc s e e' = one (k + d) s e tt (λ o h. Halts-step m zs pc k s s e' ((zs_skip s o).1 h))

    zs_via :
        (pc : ℕ) (s : m.State)
        → step m xs pc s ≡ more (k + d) s
        → step m zs pc s ≡ more k s
        → Match m Anywhere zs xs pc s
    unfolding Anywhere
    zs_via pc s e e' = one k s e' tt (λ o h. Halts-step m xs pc (k + d) s s e ((xs_skip s o).0 h))

    -- Either the buffers make one step, or they go to the two places of the label.
    parallel :
        (pc : ℕ) (s : m.State)
        → (step m xs pc s ≡ step m zs pc s)
          ⊎ ((step m xs pc s ≡ more (k + d) s) × (step m zs pc s ≡ more k s))
    unfolding step
    parallel pc s = elim (Bool-cases (k + d == pc)) [
      | inl e ↦ inl (
          subst (λ j. step m xs j s ≡ step m zs j s) (eq_of_beq (k + d) pc e)
            (step-skip m xs (k + d) s v.second
                (rw (eq_label c.type (ground (arith, v.second_label))) refl)
              ∙ sym (step-skip m zs (k + d) s zs_at (rw v.merged_type refl))))
      | inr n ↦ elim (Option-cases (get_elem? xs pc)) [
        | inl (ir, e) ↦ elim (Bool-cases (same_ptr (target ir) (some b))) [
          | inl to_b ↦
              by_jump ir e n (eq_of_same_ptr (target ir) (some b) to_b) (exec_to-cases m ir pc s)
          | inr other ↦
              inl (
                xs_exec pc s ir e ∙ rw (goto_other (target ir) s other) (sym (zs_exec pc s ir n e)))
        ]
        | inr e ↦ let z : get_elem? zs pc ≡ none = v.rest pc ∙ rw (n, e) in inl (rw (step, e, z))
      ]
    ]
      where
        by_jump :
            (ir : Ir)
            → get_elem? xs pc ≡ some ir
            → (k + d == pc) ≡ false
            → target ir ≡ some b
            → ((g : Next m) → exec_to m g ir pc s ≡ g)
              ⊎ ((t : Next m) × ((g : Next m) → exec_to m g ir pc s ≡ t))
            → (step m xs pc s ≡ step m zs pc s)
              ⊎ ((step m xs pc s ≡ more (k + d) s) × (step m zs pc s ≡ more k s))
        by_jump ir e n t (inl follows) = inr (
          xs_exec pc s ir e ∙ follows (goto m xs (target ir) s) ∙ rw t (goto_b_xs s),
          zs_exec pc s ir n e
              ∙ follows (goto m zs (swap_ptr a (some b) (target ir)) s)
              ∙ rw t (goto_b_zs s),
        )
        by_jump ir e n t (inr (u, ignores)) = inl (
            xs_exec pc s ir e
            ∙ ignores (goto m xs (target ir) s)
            ∙ sym (zs_exec pc s ir n e ∙ ignores (goto m zs (swap_ptr a (some b) (target ir)) s)))

    forward : (pc : ℕ) (s : m.State) → Anywhere pc → Match m Anywhere xs zs pc s
    unfolding Anywhere
    forward pc s g = elim (parallel pc s) [
      | inl e ↦ Match-same m Anywhere xs zs pc s e (λ j l. tt) tt
      | inr (e, e') ↦ xs_via pc s e e'
    ]

    backward : (pc : ℕ) (s : m.State) → Anywhere pc → Match m Anywhere zs xs pc s
    unfolding Anywhere
    backward pc s g = elim (parallel pc s) [
      | inl e ↦ Match-same m Anywhere zs xs pc s (sym e) (λ j l. tt) tt
      | inr (e, e') ↦ zs_via pc s e e'
    ]

    -- From anywhere the two buffers have the same outcomes.
    pub Halts-Merged :
        (pc : ℕ) (s : m.State) (o : Outcome m) → Halts m xs pc s o ↔ Halts m zs pc s o
    unfolding Anywhere
    Halts-Merged pc s o = (
      λ (n, h). simulate m Anywhere xs zs forward n pc s tt h,
      λ (n, h). simulate m Anywhere zs xs backward n pc s tt h,
    )
