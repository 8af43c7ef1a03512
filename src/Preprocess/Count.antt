-- ===== src/Preprocess/Count.antt =====
-- The first loop of `preprocess_ir` counts the uses of every label.
use mathlib.Core.Path.{fun_ext}
use naivecc.Base.{
  ℕ, suc, ◌+◌, true, false, Option, none, some, [], ◌∷◌, ◌≡◌, refl, ap, ◌∙◌, ◌⊎◌, arith,
  if◌then◌else◌, Bool-cases, inl, inr, same_ptr, eq_of_beq,
}
use naivecc.Base.Int.{pos, ◌+ℤ◌}
use naivecc.Operand.{Operand, OpeType, Heap, write}
use naivecc.Ir.{Ir, Buffer, is_branch}
use naivecc.Ir.Kinds.{IrType, same_type, eq_jmp}
use naivecc.Preprocess.{add_ref, count_refs}
use naivecc.Preprocess.Inv.{Every, is_typed, types, types-add_ref, refs, uses-eq}
use naivecc.Preprocess.Peephole.{named_branch, named_jump}
use naivecc.Machine.Steps.{kind-is_branch, target-branch, target-jump}
use naivecc.Machine.{branch, kind, target}

-- The outcome of the loop: the counts grow by the uses, and nothing changes its type.
pub record Counts (buf : Buffer) (h : Heap) (f : Operand → ℕ) (res : Option Heap) : Type 0 where
  pub heap : Heap
  pub succeeds : res ≡ some heap
  pub same_types : (p : Operand) → types heap p ≡ types h p
  pub counts : (p : Operand) → (heap p).label_ref_cnt ≡ pos (f p + refs p buf)

abbrev plus_use : Option Operand → (Operand → ℕ) → Operand → ℕ
plus_use t f p = f p + (if same_ptr t (some p) then 1 else 0)

add_ref-counts :
    (h : Heap) (q : Operand) (f : Operand → ℕ)
    → ((p : Operand) → (h p).label_ref_cnt ≡ pos (f p))
    → (p : Operand) → ((add_ref h q (pos 1)) p).label_ref_cnt ≡ pos (plus_use (some q) f p)
unfolding add_ref write ◌+ℤ◌
add_ref-counts h q f c p = ground (arith, c p, c q, eq_of_beq q p)

no_target :
    (ir : Ir) → is_branch ir ≡ false → same_type ir.type IrType.jmp ≡ false → target ir ≡ none
unfolding is_branch
no_target ir b j = ground arith

-- The step of the loop on one instruction.
count_one :
    (ir : Ir) (buf : Buffer) (h : Heap)
    → is_typed (types h) ir ≡ true
    → ((q : Operand) × (target ir ≡ some q)
        × (count_refs (ir ∷ buf) h ≡ count_refs buf (add_ref h q (pos 1))))
      ⊎ ((target ir ≡ none) × (count_refs (ir ∷ buf) h ≡ count_refs buf h))
unfolding count_refs
count_one ir buf h t = elim (Bool-cases (is_branch ir)) [
  | inl b ↦
      let k : kind ir.type ≡ branch = kind-is_branch ir b in
      let (q, e) = named_branch (types h) ir k t in
      inl (q, target-branch ir k ∙ e, rw (count_refs, b, e))
  | inr b ↦ elim (Bool-cases (same_type ir.type IrType.jmp)) [
    | inl j ↦
        let k : ir.type ≡ IrType.jmp = eq_jmp ir.type j in
        let (q, e) = named_jump (types h) ir k t in
        inl (q, target-jump ir (rw k refl) ∙ e, rw (count_refs, b, j, e))
    | inr j ↦ inr (no_target ir b j, rw (count_refs, b, j))
  ]
]

typed-tail :
    {ty ty' : Operand → OpeType} (ir : Ir) (buf : Buffer)
    → ((p : Operand) → ty' p ≡ ty p)
    → Every (λ x. is_typed ty x ≡ true) (ir ∷ buf)
    → Every (λ x. is_typed ty' x ≡ true) buf
typed-tail ir buf e t j x g = rw (fun_ext e) (t (suc j) x g)

-- When jumps and branches name labels, no other field but that of a label names one, and the counts
-- are those of `f`, the counting loop succeeds, changes no operand's type, and adds to each count
-- the number of jumps and branches to that label.
pub count_refs-Counts :
    (buf : Buffer) (h : Heap) (f : Operand → ℕ)
    → Every (λ ir. is_typed (types h) ir ≡ true) buf
    → ((p : Operand) → (h p).label_ref_cnt ≡ pos (f p))
    → Counts buf h f (count_refs buf h)
unfolding refs count_refs
count_refs-Counts [] h f t c = record {
  heap = h;
  succeeds = refl;
  same_types = λ p. refl;
  counts = λ p. c p ∙ ap pos (omega arith);
}
count_refs-Counts (ir ∷ buf) h f t c = elim (count_one ir buf h (t 0 ir refl)) [
  | inl (q, e, g) ↦
      let rest =
        count_refs-Counts buf (add_ref h q (pos 1)) (plus_use (some q) f)
          (typed-tail ir buf (types-add_ref h q (pos 1)) t) (add_ref-counts h q f c) in
      record {
        heap = rest.heap;
        succeeds = g ∙ rest.succeeds;
        same_types = λ p. rest.same_types p ∙ types-add_ref h q (pos 1) p;
        counts = λ p. rest.counts p ∙ ap pos (omega (arith, uses-eq p ir e));
      }
  | inr (e, g) ↦
      let rest = count_refs-Counts buf h f (typed-tail ir buf (λ p. refl) t) c in
      record {
        heap = rest.heap;
        succeeds = g ∙ rest.succeeds;
        same_types = rest.same_types;
        counts = λ p. rest.counts p ∙ ap pos (omega (arith, uses-eq p ir e));
      }
]
