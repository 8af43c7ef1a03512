-- ===== src/Preprocess/Peephole/BranchStep.antt =====
-- One inversion of a branch by the second loop.
use naivecc.Base.{
  ℕ, suc, ◌+◌, true, Option, some, ◌≡◌, refl, get_elem?, set, ap, ◌∙◌, ◌==◌, ◌↔◌, arith, length,
  sym, if◌then◌else◌, same_ptr, get_elem?-set, set_comm, iff_trans, get_elem?-set_ne, beq_refl,
  get_elem?-lt, length-set,
}
use mathlib.Core.Bool.{false≢true}
use naivecc.Base.Int.{pos, negsuc}
use naivecc.Operand.{Operand, OpeType}
use naivecc.Ir.{Ir, Buffer}
use naivecc.Ir.Kinds.{IrType, eq_jmp}
use naivecc.Ir.Relop.{get_relop_anti}
use naivecc.Preprocess.{Code, add_ref, is_skip_branch, invert_branch}
use naivecc.Preprocess.Inv.{
  Every, Every-set, is_typed, types, refs, uses, uses-eq, refs-set, Unique-set,
}
use naivecc.Preprocess.Invert.{inverted, dropped, Inverted, Halts-Inverted}
use naivecc.Machine.{Machine, branch, kind, labels, Outcome, Halts}
use naivecc.Machine.Steps.{
  target-branch, target-jump, labels-of_kind, kind-is_branch, kind-get_relop_anti,
}
use naivecc.Machine.Labels.{Unique}
use naivecc.Preprocess.Peephole.Facts.{
  Kept, Kept-set, label-not_act, Preserves, IsReady, left_over, deref_label-eq, left_over-labels,
  left_over-typed, uses-label, left_over-uses, typed-heap, Entry-set, left_over-not_jump,
  Counted-less, drop_label-Halts,
}

typed-inverted :
    (ty : Operand → OpeType) (a b : Ir)
    → kind a.type ≡ branch
    → kind (get_relop_anti a.type) ≡ branch
    → b.type ≡ IrType.jmp
    → is_typed ty a ≡ true
    → is_typed ty b ≡ true
    → is_typed ty (inverted a b) ≡ true
typed-inverted ty a b ka ki jb ta tb = ground arith

module _ (m : Machine) (s : Code) (r : IsReady s) (i : ℕ) (a b c : Ir)
    (ea : get_elem? s.buf i ≡ some a) (eb : get_elem? s.buf (i + 1) ≡ some b)
    (ec : get_elem? s.buf (i + 2) ≡ some c) (pattern_here : is_skip_branch a b c ≡ true)
    (p : Operand) (named : a.rd ≡ some p) (n : ℕ) (count : refs p s.buf ≡ suc n) where
  label_third : labels p c ≡ true
  unfolding is_skip_branch
  label_third = ground arith

  middle : Buffer
  middle = set (set s.buf i (inverted a b)) (i + 1) (dropped b)

  final : Buffer
  unfolding middle
  final = set middle (i + 2) (left_over n c)

  middle_rest :
      (j : ℕ)
      → get_elem? middle j ≡ (
          if i == j
          then some (inverted a b)
          else if i + 1 == j
          then some (dropped b)
          else get_elem? s.buf j)
  unfolding middle
  middle_rest j = ground (
    arith,
    get_elem?-set s.buf i j (inverted a b),
    get_elem?-set (set s.buf i (inverted a b)) (i + 1) j (dropped b),
    length-set s.buf i (inverted a b),
    get_elem?-lt s.buf i ea,
    get_elem?-lt s.buf (i + 1) eb,
  )

  middle-length : length s.buf ≡ length middle
  unfolding middle
  middle-length = sym (
      length-set (set s.buf i (inverted a b)) (i + 1) (dropped b)
      ∙ length-set s.buf i (inverted a b))

  label_place : get_elem? middle (i + 2) ≡ some c
  label_place = middle_rest (i + 2) ∙ ground arith

  middle-Inverted : Inverted s.buf middle i a b c p
  unfolding middle
  middle-Inverted = record {
    first = ea;
    second = eb;
    third = ec;
    is_pattern = pattern_here;
    named = named;
    unique = r.well_formed.unique;
    same_length = middle-length;
    rest = middle_rest;
  }

  branch_first : kind a.type ≡ branch
  unfolding is_skip_branch
  branch_first = kind-is_branch a (ground arith)

  branch_inverted : kind (get_relop_anti a.type) ≡ branch
  unfolding is_skip_branch
  branch_inverted = kind-get_relop_anti a (ground arith)

  jump_second : b.type ≡ IrType.jmp
  unfolding is_skip_branch
  jump_second = eq_jmp b.type (ground arith)

  middle-refs : (q : Operand) → refs q middle + (if p == q then 1 else 0) ≡ refs q s.buf
  unfolding middle
  middle-refs q = omega (
    arith,
    refs-set q s.buf i a (inverted a b) ea,
    refs-set q (set s.buf i (inverted a b)) (i + 1) b (dropped b)
        (get_elem?-set_ne s.buf i (i + 1) (inverted a b) (ground arith) ∙ eb),
    first_uses,
    second_uses,
  )
    where
      first_uses : uses q a ≡ (if p == q then 1 else 0)
      first_uses = uses-eq q a (target-branch a branch_first ∙ named)

      second_uses : uses q (inverted a b) ≡ uses q b
      second_uses =
          ap (λ t. if same_ptr t (some q) then 1 else 0)
            (target-branch (inverted a b) branch_inverted
              ∙ sym (target-jump b (rw jump_second refl)))

  final-refs : (q : Operand) → refs q final + (if p == q then 1 else 0) ≡ refs q s.buf
  unfolding final
  final-refs q = omega (
    arith,
    middle-refs q,
    refs-set q middle (i + 2) c (left_over n c) label_place,
    left_over-uses n c p q label_third,
    uses-label c p q label_third,
  )

  inverted-typed : is_typed (types s.heap) (inverted a b) ≡ true
  inverted-typed =
      typed-inverted (types s.heap) a b branch_first branch_inverted jump_second
        (r.well_formed.typed i a ea) (r.well_formed.typed (i + 1) b eb)

  middle-typed : Every (λ ir. is_typed (types s.heap) ir ≡ true) middle
  unfolding middle
  middle-typed =
      Every-set (set s.buf i (inverted a b)) (i + 1) (dropped b)
        (Every-set s.buf i (inverted a b) r.well_formed.typed inverted-typed) refl

  final-typed : Every (λ ir. is_typed (types s.heap) ir ≡ true) final
  unfolding final
  final-typed =
      Every-set middle (i + 2) (left_over n c) middle-typed
        (left_over-typed (types s.heap) n c (r.well_formed.typed (i + 2) c ec))

  middle-Unique : Unique middle
  unfolding middle
  middle-Unique =
      Unique-set (set s.buf i (inverted a b)) (i + 1) b (dropped b)
        (get_elem?-set_ne s.buf i (i + 1) (inverted a b) (ground arith) ∙ eb) (λ q h. cc)
        (Unique-set s.buf i a (inverted a b) ea
          (λ q h. absurd (
            false≢true
              (sym (labels-of_kind q (inverted a b) (ground (arith, branch_inverted))) ∙ h)))
          r.well_formed.unique)

  final-Unique : Unique final
  unfolding final
  final-Unique =
      Unique-set middle (i + 2) c (left_over n c) label_place (left_over-labels n c) middle-Unique

  pub inverted_code : Code
  inverted_code = record { buf = final; heap = add_ref s.heap p (negsuc 0) }

  pub invert_branch-eq : invert_branch i a b c s ≡ some inverted_code
  unfolding invert_branch inverted_code final middle
  invert_branch-eq =
      rw (deref_label-eq c s.heap p n label_third (r.counted p ∙ ap pos count))
        (ap in_code commuted)
    where
      in_code : Buffer → Option Code
      in_code t = some (record { buf = t; heap = add_ref s.heap p (negsuc 0) })

      commuted :
          set (set (set s.buf (i + 2) (left_over n c)) i (inverted a b)) (i + 1) (dropped b) ≡ final
      commuted =
          ap (λ t. set t (i + 1) (dropped b))
            (set_comm s.buf (i + 2) i (left_over n c) (inverted a b) (ground arith))
          ∙ set_comm (set s.buf i (inverted a b)) (i + 2) (i + 1) (left_over n c) (dropped b)
              (ground arith)

  pub inverted-IsReady : IsReady inverted_code
  unfolding inverted_code
  inverted-IsReady = record {
    well_formed = record {
      unique = final-Unique;
      typed = typed-heap s.heap p (negsuc 0) final final-typed;
    };
    counted = Counted-less s p n r count final final-refs;
  }

  middle-final-Halts :
      (pc : ℕ) (st : m.State) (o : Outcome m) → Halts m middle pc st o ↔ Halts m final pc st o
  unfolding final
  middle-final-Halts pc st o =
      drop_label-Halts m middle (i + 2) c p n label_place label_third
        (ground (arith, middle-refs p, beq_refl p)) pc st o

  middle-Kept : Kept s.buf middle
  unfolding middle
  middle-Kept =
      Kept-set s.buf (set s.buf i (inverted a b)) (i + 1) b (dropped b)
        (get_elem?-set_ne s.buf i (i + 1) (inverted a b) (ground arith) ∙ eb)
        (rw jump_second (λ h. cc h))
        (Kept-set s.buf s.buf i a (inverted a b) ea (rw branch_first (λ h. cc h)) (λ pc ir g k. g))

  pub inverted-Preserves : Preserves m s inverted_code
  unfolding inverted_code final
  inverted-Preserves = record {
    same_length = middle-length ∙ sym (length-set middle (i + 2) (left_over n c));
    entry = λ pc g.
        Entry-set middle (i + 2) (left_over n c) pc
          (Entry-set (set s.buf i (inverted a b)) (i + 1) (dropped b) pc
            (Entry-set s.buf i (inverted a b) pc g (ground (arith, branch_inverted))) refl)
          (left_over-not_jump n c p label_third);
    kept =
        Kept-set s.buf middle (i + 2) c (left_over n c) label_place (label-not_act p c label_third)
          middle-Kept;
    halts = λ pc st o g.
        iff_trans
          (Halts-Inverted s.buf middle i a b c p middle-Inverted m pc st o
            (λ e. absurd (false≢true (sym (g b (rw e eb)) ∙ rw jump_second))))
          (middle-final-Halts pc st o);
  }
