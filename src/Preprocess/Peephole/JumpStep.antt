-- ===== src/Preprocess/Peephole/JumpStep.antt =====
-- One jump dropped by the second loop.
use naivecc.Base.{
  ℕ, suc, ◌+◌, true, some, ◌≡◌, refl, get_elem?, set, ap, ◌∙◌, ◌==◌, arith, sym, if◌then◌else◌,
  get_elem?-set, iff_trans, get_elem?-set_ne, beq_refl, get_elem?-lt, length-set,
}
use naivecc.Base.Int.{pos, negsuc}
use naivecc.Operand.{Operand}
use naivecc.Ir.{Ir, Buffer}
use naivecc.Ir.Kinds.{IrType, eq_jmp}
use naivecc.Preprocess.{Code, add_ref, is_skip_jump, drop_jump}
use naivecc.Preprocess.Inv.{Every-set, types, refs, uses-eq, refs-set, Unique-set}
use naivecc.Preprocess.Invert.{dropped}
use naivecc.Preprocess.Drop.{Halts-JumpDropped}
use naivecc.Machine.{Machine, labels}
use naivecc.Machine.Steps.{target-jump}
use naivecc.Preprocess.Peephole.Facts.{
  Kept-set, label-not_act, Preserves, IsReady, left_over, deref_label-eq, left_over-labels,
  left_over-typed, uses-label, left_over-uses, typed-heap, Entry-set, left_over-not_jump,
  Counted-less, drop_label-Halts,
}

-- `GOTO L; LABEL L`.
module _ (m : Machine) (s : Code) (r : IsReady s) (i : ℕ) (a b : Ir)
    (ea : get_elem? s.buf i ≡ some a) (eb : get_elem? s.buf (i + 1) ≡ some b)
    (pattern_here : is_skip_jump a b ≡ true) (p : Operand) (named : a.rs ≡ some p) (n : ℕ)
    (count : refs p s.buf ≡ suc n) where
  label_second : labels p b ≡ true
  unfolding is_skip_jump
  label_second = ground arith

  jump_first : a.type ≡ IrType.jmp
  unfolding is_skip_jump
  jump_first = eq_jmp a.type (ground arith)

  without_jump : Buffer
  without_jump = set s.buf i (dropped a)

  jump_dropped : Buffer
  unfolding without_jump
  jump_dropped = set without_jump (i + 1) (left_over n b)

  label_kept : get_elem? without_jump (i + 1) ≡ some b
  unfolding without_jump
  label_kept = get_elem?-set_ne s.buf i (i + 1) (dropped a) (ground arith) ∙ eb

  without_jump-refs : (q : Operand) → refs q without_jump + (if p == q then 1 else 0) ≡ refs q s.buf
  unfolding without_jump
  without_jump-refs q = omega (
    arith,
    refs-set q s.buf i a (dropped a) ea,
    uses-eq q a (target-jump a (rw jump_first refl) ∙ named),
  )

  jump_dropped-refs : (q : Operand) → refs q jump_dropped + (if p == q then 1 else 0) ≡ refs q s.buf
  unfolding jump_dropped
  jump_dropped-refs q = omega (
    arith,
    without_jump-refs q,
    refs-set q without_jump (i + 1) b (left_over n b) label_kept,
    left_over-uses n b p q label_second,
    uses-label b p q label_second,
  )

  pub jump_dropped_code : Code
  jump_dropped_code = record { buf = jump_dropped; heap = add_ref s.heap p (negsuc 0) }

  pub drop_jump-eq : drop_jump i a b s ≡ some jump_dropped_code
  unfolding drop_jump jump_dropped_code jump_dropped
  drop_jump-eq = rw (deref_label-eq b s.heap p n label_second (r.counted p ∙ ap pos count)) refl

  pub jump_dropped-IsReady : IsReady jump_dropped_code
  unfolding jump_dropped_code jump_dropped without_jump
  jump_dropped-IsReady = record {
    well_formed = record {
      unique =
          Unique-set without_jump (i + 1) b (left_over n b) label_kept (left_over-labels n b)
            (Unique-set s.buf i a (dropped a) ea (λ q h. cc) r.well_formed.unique);
      typed = typed-heap s.heap p (negsuc 0) jump_dropped (
          Every-set without_jump (i + 1) (left_over n b)
            (Every-set s.buf i (dropped a) r.well_formed.typed refl)
            (left_over-typed (types s.heap) n b (r.well_formed.typed (i + 1) b eb)));
    };
    counted = Counted-less s p n r count jump_dropped jump_dropped-refs;
  }

  pub jump_dropped-Preserves : Preserves m s jump_dropped_code
  unfolding jump_dropped_code jump_dropped without_jump
  jump_dropped-Preserves = record {
    same_length =
        sym (length-set without_jump (i + 1) (left_over n b) ∙ length-set s.buf i (dropped a));
    entry = λ pc g.
        Entry-set without_jump (i + 1) (left_over n b) pc (Entry-set s.buf i (dropped a) pc g refl)
          (left_over-not_jump n b p label_second);
    kept =
        Kept-set s.buf without_jump (i + 1) b (left_over n b) label_kept
          (label-not_act p b label_second)
          (Kept-set s.buf s.buf i a (dropped a) ea (rw jump_first (λ h. cc h)) (λ pc ir g k. g));
    halts = λ pc st o g.
        iff_trans
          (Halts-JumpDropped s.buf without_jump i a b p
            (record {
              first = ea;
              second = eb;
              is_pattern = pattern_here;
              named = named;
              unique = r.well_formed.unique;
              same_length = sym (length-set s.buf i (dropped a));
              rest = λ j. get_elem?-set s.buf i j (dropped a) (get_elem?-lt s.buf i ea);
            })
            m pc st o)
          (drop_label-Halts m without_jump (i + 1) b p n label_kept label_second
            (ground (arith, without_jump-refs p, beq_refl p)) pc st o);
  }
