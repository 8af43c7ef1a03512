-- ===== src/Preprocess/Peephole.antt =====
-- The second loop of `preprocess_ir` keeps the invariant, the reference counts and the meaning.
pub mod Facts
pub mod BranchStep
pub mod JumpStep
use mathlib.Core.Path.{fun_ext, subst}
use naivecc.Base.{
  ℕ, zero, suc, ◌+◌, ◌-◌, ◌<◌, ◌≤◌, Bool, true, false, List, [], ◌∷◌, ◌&&◌, not, Option, none, some,
  ◌≡◌, refl, get_elem?, set, ap, ◌∙◌, ◌==◌, ◌≢◌, ◌↔◌, arith, length, sym, if◌then◌else◌, Bool-cases,
  inl, inr, same_ptr, get_elem?-set, set_comm, set-get_elem?, iff_trans, eq_of_beq,
  get_elem?-set_ne, beq_refl, get_elem?-lt, length-set, ◌>>=◌, get_elem?-of-lt,
}
use mathlib.Core.Bool.{false≢true}
use naivecc.Base.Int.{ℤ, pos, negsuc, ◌+ℤ◌, beq_ℤ}
use naivecc.Operand.{Operand, OpeType, OperandCell, Heap, write}
use naivecc.Ir.{Ir, Buffer, is_branch}
use naivecc.Ir.Kinds.{IrType, same_type, eq_jmp}
use naivecc.Ir.Relop.{get_relop_anti}
use naivecc.Preprocess.{
  Code, add_ref, deref_label, is_skip_branch, is_skip_jump, invert_branch, drop_jump, peephole_at,
  peephole,
}
use naivecc.Preprocess.Inv.{
  Every, Every-set, IsWellFormed, is_typed, types, Counted, refs, uses, uses-eq, refs-set,
  Unused-of_refs, Unique-set, types-add_ref,
}
use naivecc.Preprocess.Invert.{inverted, dropped, Inverted, Halts-Inverted}
use naivecc.Preprocess.Drop.{
  JumpDropped, Halts-JumpDropped, unlabelled, LabelDropped, Halts-LabelDropped,
}
use naivecc.Machine.{Machine, Kind, jump, branch, kind, target, labels, Outcome, Halts}
use naivecc.Machine.Steps.{
  target-branch, target-jump, labels-of_kind, kind-is_branch, kind-get_relop_anti,
}
use naivecc.Machine.Labels.{Unique}
use naivecc.Preprocess.Peephole.Facts.{
  Entry, Preserves, IsReady, left_over, count_down, count_other, deref_label-eq, left_over-labels,
  left_over-typed, uses-label, left_over-uses, typed-heap, refs_pos, Entry-set, left_over-not_jump,
  Counted-less, drop_label-Halts,
}
use naivecc.Preprocess.Peephole.BranchStep.{
  inverted_code, invert_branch-eq, inverted-IsReady, inverted-Preserves,
}
use naivecc.Preprocess.Peephole.JumpStep.{
  jump_dropped_code, drop_jump-eq, jump_dropped-IsReady, jump_dropped-Preserves,
}

-- The label that a branch or a jump of a well-typed buffer names.
pub named_branch :
    (ty : Operand → OpeType) (a : Ir)
    → kind a.type ≡ branch
    → is_typed ty a ≡ true
    → (p : Operand) × (a.rd ≡ some p)
named_branch ty a k t = ground arith

pub named_jump :
    (ty : Operand → OpeType) (a : Ir)
    → a.type ≡ IrType.jmp
    → is_typed ty a ≡ true
    → (p : Operand) × (a.rs ≡ some p)
named_jump ty a k t = ground arith

pub Preserves-refl : (m : Machine) (s : Code) → Preserves m s s
Preserves-refl m s = record {
  same_length = refl;
  entry = λ pc g. g;
  kept = λ pc ir e k. e;
  halts = λ pc st o g. (λ h. h, λ h. h);
}

pub Preserves-trans :
    (m : Machine) {s t u : Code} → Preserves m s t → Preserves m t u → Preserves m s u
Preserves-trans m p q = record {
  same_length = p.same_length ∙ q.same_length;
  entry = λ pc g. q.entry pc (p.entry pc g);
  kept = λ pc ir e k. q.kept pc ir (p.kept pc ir e k) k;
  halts = λ pc st o g. iff_trans (p.halts pc st o g) (q.halts pc st o (p.entry pc g));
}

-- A rewriting that succeeds and keeps everything.
pub record Rewrites (m : Machine) (s : Code) (result : Option Code) : Type 0 where
  pub code : Code
  pub succeeds : result ≡ some code
  pub ready : IsReady code
  pub preserves : Preserves m s code

module _ (m : Machine) (s : Code) (r : IsReady s) (i : ℕ) (a b c : Ir)
    (ea : get_elem? s.buf i ≡ some a) (eb : get_elem? s.buf (i + 1) ≡ some b)
    (ec : get_elem? s.buf (i + 2) ≡ some c) where
  inverts : is_skip_branch a b c ≡ true → Rewrites m s (peephole_at i s)
  unfolding peephole_at is_skip_branch
  inverts t =
      let ka : kind a.type ≡ branch = kind-is_branch a (ground arith) in
      let (p, e) = named_branch (types s.heap) a ka (r.well_formed.typed i a ea) in
      let (n, count) = refs_pos p s.buf i a ea (target-branch a ka ∙ e) in
      record {
        code = inverted_code m s r i a b c ea eb ec t p e n count;
        succeeds =
            rw (peephole_at, ea, eb, ec)
              (rw t (invert_branch-eq m s r i a b c ea eb ec t p e n count));
        ready = inverted-IsReady m s r i a b c ea eb ec t p e n count;
        preserves = inverted-Preserves m s r i a b c ea eb ec t p e n count;
      }

  drops : is_skip_branch a b c ≡ false → is_skip_jump a b ≡ true → Rewrites m s (peephole_at i s)
  unfolding peephole_at is_skip_jump
  drops f t =
      let ja : a.type ≡ IrType.jmp = eq_jmp a.type (ground arith) in
      let (p, e) = named_jump (types s.heap) a ja (r.well_formed.typed i a ea) in
      let (n, count) = refs_pos p s.buf i a ea (target-jump a (rw ja refl) ∙ e) in
      record {
        code = jump_dropped_code m s r i a b ea eb t p e n count;
        succeeds =
            rw (peephole_at, ea, eb, ec) (rw (f, t) (drop_jump-eq m s r i a b ea eb t p e n count));
        ready = jump_dropped-IsReady m s r i a b ea eb t p e n count;
        preserves = jump_dropped-Preserves m s r i a b ea eb t p e n count;
      }

  stays : is_skip_branch a b c ≡ false → is_skip_jump a b ≡ false → Rewrites m s (peephole_at i s)
  unfolding peephole_at
  stays f g = record {
    code = s;
    succeeds = rw (peephole_at, ea, eb, ec) (rw (f, g) refl);
    ready = r;
    preserves = Preserves-refl m s;
  }

  at_instructions : Rewrites m s (peephole_at i s)
  at_instructions = elim (Bool-cases (is_skip_branch a b c)) [
    | inl t ↦ inverts t
    | inr f ↦ elim (Bool-cases (is_skip_jump a b)) [ inl t ↦ drops f t | inr g ↦ stays f g ]
  ]

-- One round of the loop.
peephole_at-Rewrites :
    (m : Machine) (s : Code) (i : ℕ)
    → IsReady s
    → i + 2 < length s.buf
    → Rewrites m s (peephole_at i s)
peephole_at-Rewrites m s i r h =
    let (a, ea) = get_elem?-of-lt s.buf i (omega arith) in
    let (b, eb) = get_elem?-of-lt s.buf (i + 1) (omega arith) in
    let (c, ec) = get_elem?-of-lt s.buf (i + 2) (omega arith) in
    at_instructions m s r i a b c ea eb ec

-- The whole loop.
pub peephole-Rewrites :
    (m : Machine) (n i : ℕ) (s : Code)
    → IsReady s
    → n + i ≤ length s.buf - 2
    → Rewrites m s (peephole n i s)
unfolding peephole
peephole-Rewrites m zero i s r h = record {
  code = s;
  succeeds = refl;
  ready = r;
  preserves = Preserves-refl m s;
}
peephole-Rewrites m (suc n) i s r h =
    let one = peephole_at-Rewrites m s i r (omega arith) in
    let rest =
      peephole-Rewrites m n (i + 1) one.code one.ready (omega (arith, one.preserves.same_length)) in
    record {
      code = rest.code;
      succeeds = rw (peephole, one.succeeds) rest.succeeds;
      ready = rest.ready;
      preserves = Preserves-trans m one.preserves rest.preserves;
    }
