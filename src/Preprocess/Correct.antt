-- ===== src/Preprocess/Correct.antt =====
-- The whole of `preprocess_ir`: it succeeds on well-formed code, and keeps its meaning.
use naivecc.Base.{
  ℕ, ◌-◌, Option, none, some, [], ◌∷◌, ◌≡◌, refl, ◌∙◌, ap, sym, false, get_elem?, ◌↔◌, arith,
  length, iff_trans, Bool-cases, inl, inr,
}
use mathlib.Core.Path.{fun_ext, subst}
use naivecc.Base.Int.{pos}
use naivecc.Ir.{Ir, Buffer}
use naivecc.Operand.{Operand}
use naivecc.Preprocess.{Code, preprocess_ir}
use naivecc.Preprocess.Inv.{IsWellFormed}
use naivecc.Preprocess.Count.{count_refs-Counts}
use naivecc.Preprocess.Peephole.{peephole-Rewrites}
use naivecc.Preprocess.Peephole.Facts.{Entry, IsReady}
use naivecc.Preprocess.Merge.All.{merge_labels-Merges}
use naivecc.Preprocess.Compress.Filter.{compress_ir-eq, is_nop, without_nops}
use naivecc.Preprocess.Compress.Meaning.{rank, rank-zero, get-rank, Halts-without_nops}
use naivecc.Machine.{Machine, Outcome, Halts, act, kind}

without_nops-twice : (buf : Buffer) → without_nops (without_nops buf) ≡ without_nops buf
unfolding without_nops
without_nops-twice [] = refl
without_nops-twice (ir ∷ buf) = elim (Bool-cases (is_nop ir)) [
  | inl c ↦ rw c (without_nops-twice buf)
  | inr c ↦ rw c (rw c (ap (λ t. ir ∷ t) (without_nops-twice buf)))
]

-- The result of `preprocess_ir`, and for each place where execution may begin the place in the
-- result with the same outcomes.
record Preprocessed (m : Machine) (s : Code) (res : Option Code) : Type 0 where
  code : Code
  succeeds : res ≡ some code
  place : ℕ → ℕ
  starts : place 0 ≡ 0
  kept :
      (pc : ℕ) (ir : Ir)
      → get_elem? s.buf pc ≡ some ir
      → kind ir.type ≡ act
      → get_elem? code.buf (place pc) ≡ some ir
  compressed : without_nops code.buf ≡ code.buf
  same_meaning :
      (pc : ℕ) (st : m.State) (o : Outcome m)
      → Entry s.buf pc
      → Halts m s.buf pc st o ↔ Halts m code.buf (place pc) st o

act-not_nop : (ir : Ir) → kind ir.type ≡ act → is_nop ir ≡ false
act-not_nop ir k = ground arith

act-Entry :
    (buf : Buffer) (pc : ℕ) (ir : Ir)
    → get_elem? buf pc ≡ some ir
    → kind ir.type ≡ act
    → Entry buf pc
act-Entry buf pc ir e k x e' =
    let same : some ir ≡ some x = sym e ∙ e' in
    let same' : ir ≡ x = cc in let k' : kind x.type ≡ act = rw (← same') k in ground arith

preprocess_ir-Preprocessed :
    (m : Machine) (s : Code)
    → IsWellFormed s
    → ((p : Operand) → (s.heap p).label_ref_cnt ≡ pos 0)
    → Preprocessed m s (preprocess_ir s)
unfolding preprocess_ir
preprocess_ir-Preprocessed m s w zero_counts =
    let c = count_refs-Counts s.buf s.heap (λ p. 0) w.typed zero_counts in
    let ready : IsReady (record s { heap = c.heap }) = record {
      well_formed = record {
        unique = w.unique;
        typed = λ j ir e. rw (fun_ext c.same_types) (w.typed j ir e);
      };
      counted = λ p. c.counts p ∙ ap pos (omega arith);
    } in
    let a =
      peephole-Rewrites m (length s.buf - 2) 0 (record s { heap = c.heap }) ready (omega arith) in
    let b =
      merge_labels-Merges m (length a.code.buf) 0 none a.code a.ready.well_formed (omega arith)
        tt in
    record {
      code = record b.code { buf = without_nops b.code.buf };
      succeeds =
          rw (preprocess_ir, c.succeeds)
            (rw a.succeeds (rw b.succeeds (rw (compress_ir-eq b.code.buf) refl)));
      place = rank b.code.buf;
      compressed = without_nops-twice b.code.buf;
      starts = rank-zero b.code.buf;
      kept = λ pc ir e k.
          get-rank b.code.buf pc ir (b.preserves.kept pc ir (a.preserves.kept pc ir e k) k)
            (act-not_nop ir k);
      same_meaning = λ pc st o g. iff_trans (a.preserves.halts pc st o g) (
          iff_trans (b.preserves.halts pc st o (a.preserves.entry pc g))
            (Halts-without_nops m b.code.buf pc st o));
    }

-- On code in which every label stands once, jumps and branches name labels and all other fields
-- but those of labels name none, whose counts are zero and whose first instruction is no GOTO,
-- `preprocess_ir` succeeds with code that has no NOP. On every machine, whose data instructions,
-- calls and heads of functions among them, do anything to the state, and whose branches compare
-- integers, the two programs halt from the same states with the same outcomes.
pub preprocess_ir-Halts :
    (m : Machine) (s : Code)
    → IsWellFormed s
    → ((p : Operand) → (s.heap p).label_ref_cnt ≡ pos 0)
    → Entry s.buf 0
    → (t : Code) × (preprocess_ir s ≡ some t)
      × (without_nops t.buf ≡ t.buf)
      × ((st : m.State) (o : Outcome m) → Halts m s.buf 0 st o ↔ Halts m t.buf 0 st o)
preprocess_ir-Halts m s w zero_counts first =
    let p = preprocess_ir-Preprocessed m s w zero_counts in
    (
      p.code,
      p.succeeds,
      p.compressed,
      λ st o.
          subst (λ k. Halts m s.buf 0 st o ↔ Halts m p.code.buf k st o) p.starts
            (p.same_meaning 0 st o first),
    )

-- On code in which every label stands once, jumps and branches name labels and all other fields
-- but those of labels name none, and whose counts are zero, `preprocess_ir` succeeds, and every data
-- instruction, a head of a function among them, stands in the result too, unchanged. On every machine
-- the two programs halt from there, from the same states, with the same outcomes.
pub preprocess_ir-functions :
    (m : Machine) (s : Code)
    → IsWellFormed s
    → ((p : Operand) → (s.heap p).label_ref_cnt ≡ pos 0)
    → (pc : ℕ) (ir : Ir) → get_elem? s.buf pc ≡ some ir
    → kind ir.type ≡ act
    → (t : Code) × (preprocess_ir s ≡ some t)
      × ((j : ℕ) × (get_elem? t.buf j ≡ some ir)
          × ((st : m.State) (o : Outcome m) → Halts m s.buf pc st o ↔ Halts m t.buf j st o))
preprocess_ir-functions m s w zero_counts pc ir e k =
    let p = preprocess_ir-Preprocessed m s w zero_counts in
    (
      p.code,
      p.succeeds,
      (p.place pc, p.kept pc ir e k, λ st o. p.same_meaning pc st o (act-Entry s.buf pc ir e k)),
    )
