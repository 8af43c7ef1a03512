-- ===== src/Translate/Correct.antt =====
-- What translation gives to `preprocess_ir`: the whole of translate.c followed by the passes of ir.c.
use naivecc.Base.{
  ℕ, get_elem?, ◌<◌, inl, inr, true, none, some, List, [], ◌∷◌, ◌≡◌, refl, arith, ◌↔◌,
}
use naivecc.Base.Int.{pos}
use naivecc.Operand.{Operand, FloatOps}
use naivecc.CmmType.{Types}
use naivecc.Symtab.{Symbol}
use naivecc.Syntax.{Tree}
use naivecc.Machine.{Machine, Outcome, Halts}
use naivecc.Preprocess.{Code, preprocess_ir}
use naivecc.Preprocess.Inv.{Every, is_typed, IsWellFormed, types, refs}
use naivecc.Preprocess.Peephole.Facts.{Entry}
use naivecc.Preprocess.Compress.Filter.{without_nops}
use naivecc.Preprocess.Correct.{preprocess_ir-Halts, preprocess_ir-functions}
use naivecc.Translate.{TransState}
use naivecc.Translate.Program.{translate_tree}
use naivecc.Translate.Loops.{plain_loops}
use naivecc.Ir.{Ir}
use naivecc.Ir.Kinds.{IrType}
use naivecc.Translate.Safe.{Setting, All, marks, SymbolsOk, Inv}
use naivecc.Translate.Safe.Marks.{Unique-once}
use naivecc.Translate.Keeps.Whole.{Safe-translate_tree}

-- Where translation begins: no instruction, and no symbol with an address.
pub record IsStart (s : TransState) : Type 0 where
  pub empty : s.buf ≡ []
  pub counts : (p : Operand) → (s.store.heap p).label_ref_cnt ≡ pos 0
  pub unplaced : All (All (All (λ (x : Symbol). x.address ≡ none))) s.scopes.tables

All-map :
    {A : Type 0} {P Q : A → Type 0} (xs : List A) → ((x : A) → P x → Q x) → All P xs → All Q xs
All-map [] f h = tt
All-map (x ∷ xs) f h = (f x h.0, All-map xs f h.1)

module _ (ty : Setting) where
  SymbolsOk-unplaced : (s : TransState) → IsStart s → SymbolsOk ty s.scopes.tables
  SymbolsOk-unplaced s start =
      All-map s.scopes.tables
        (λ table. All-map table (λ chain. All-map chain (λ x e. record { at = rw e refl })))
        start.unplaced

  Inv-start : (s : TransState) → IsStart s → Inv ty s
  unfolding marks
  Inv-start s start = record {
    typed = rw start.empty (λ j ir e. cc e);
    once = λ c l. rw start.empty (omega arith);
    fresh = λ l h. rw start.empty refl;
    counts = start.counts;
    symbols = SymbolsOk-unplaced s start;
    first = rw start.empty (λ ir e. cc e);
  }

-- The code of a state.
abbrev pub code_of : TransState → Code
code_of t = record { buf = t.buf; heap = t.store.heap }

-- From a state with no instruction and with no address in a symbol, translation that succeeds, of a
-- tree in which the body of no FOR is a logic expression, leaves code in which jumps name labels,
-- data instructions name none, and every label stands at one place at most; no label has been
-- counted, and the code does not begin with a jump.
pub translate_tree-IsWellFormed :
    (f : FloatOps) (ts : Types) (prog : Tree) (s t : TransState)
    → plain_loops prog ≡ true
    → IsStart s
    → translate_tree f ts prog s ≡ some (tt, t)
    → IsWellFormed (code_of t)
      × ((p : Operand) → (t.store.heap p).label_ref_cnt ≡ pos 0)
      × Entry t.buf 0
translate_tree-IsWellFormed f ts prog s t plain start e =
    let ty : Setting = record { type_of = types t.store.heap; IsOnce = Unit } in
    let inv =
      ((Safe-translate_tree ty f ts prog (λ o. plain)).good s t tt e tt (λ p h. refl)
        (Inv-start ty s start) tt (λ c. cc c)).inv in
    (record { unique = Unique-once t.buf (inv.once tt); typed = inv.typed }, inv.counts, inv.first)

-- From such a state, and for any tree, every label that an instruction jumps to stands in the code.
pub translate_tree-targets :
    (f : FloatOps) (ts : Types) (prog : Tree) (s t : TransState)
    → IsStart s
    → translate_tree f ts prog s ≡ some (tt, t)
    → (p : Operand) → 0 < refs p t.buf
    → 0 < marks p t.buf
unfolding refs
translate_tree-targets f ts prog s t start e p h =
    let ty : Setting = record { type_of = types t.store.heap; IsOnce = ⊥ } in
    let o =
      (Safe-translate_tree ty f ts prog (λ c. absurd c)).good s t tt e tt (λ p h. refl)
        (Inv-start ty s start) tt (λ c. cc c) in
    elim (o.targets p h) [
      | inl z ↦ absurd (omega (arith, (rw start.empty at z)))
      | inr z ↦ elim z [ inl w ↦ w | inr j ↦ elim j [ ] ]
    ]

-- From such a state, and for any tree, jumps and branches name labels.
pub translate_tree-typed :
    (f : FloatOps) (ts : Types) (prog : Tree) (s t : TransState)
    → IsStart s
    → translate_tree f ts prog s ≡ some (tt, t)
    → Every (λ ir. is_typed (types t.store.heap) ir ≡ true) t.buf
translate_tree-typed f ts prog s t start e =
    let ty : Setting = record { type_of = types t.store.heap; IsOnce = ⊥ } in
    ((Safe-translate_tree ty f ts prog (λ c. absurd c)).good s t tt e tt (λ p h. refl)
      (Inv-start ty s start) tt (λ c. cc c)).inv.typed

-- From a state with no instruction and with no address in a symbol, translation that succeeds, of a
-- tree in which the body of no FOR is a logic expression, leaves code on which `preprocess_ir`
-- succeeds, with code that has no NOP. On every machine, whose data instructions, calls and heads of
-- functions among them, do anything to the state, and whose branches compare integers, the two
-- programs halt from the same states with the same outcomes.
pub translate_tree-preprocess_ir :
    (f : FloatOps) (ts : Types) (prog : Tree) (s t : TransState)
    → plain_loops prog ≡ true
    → IsStart s
    → translate_tree f ts prog s ≡ some (tt, t)
    → (m : Machine)
    → (c : Code) × (preprocess_ir (code_of t) ≡ some c)
      × (without_nops c.buf ≡ c.buf)
      × ((st : m.State) (o : Outcome m) → Halts m t.buf 0 st o ↔ Halts m c.buf 0 st o)
translate_tree-preprocess_ir f ts prog s t plain start e m =
    let (w, zero_counts, entry) = translate_tree-IsWellFormed f ts prog s t plain start e in
    preprocess_ir-Halts m (code_of t) w zero_counts entry

-- From a state with no instruction and with no address in a symbol, translation that succeeds, of a
-- tree in which the body of no FOR is a logic expression, leaves code on which `preprocess_ir`
-- succeeds, and the head of every function in the code stands in the result too, unchanged. On every
-- machine the two programs halt from there, from the same states, with the same outcomes.
pub translate_tree-functions :
    (f : FloatOps) (ts : Types) (prog : Tree) (s t : TransState)
    → plain_loops prog ≡ true
    → IsStart s
    → translate_tree f ts prog s ≡ some (tt, t)
    → (m : Machine) (pc : ℕ) (ir : Ir) → get_elem? t.buf pc ≡ some ir
    → ir.type ≡ IrType.func
    → (c : Code) × (preprocess_ir (code_of t) ≡ some c)
      × ((j : ℕ) × (get_elem? c.buf j ≡ some ir)
          × ((st : m.State) (o : Outcome m) → Halts m t.buf pc st o ↔ Halts m c.buf j st o))
translate_tree-functions f ts prog s t plain start e m pc ir g head =
    let (w, zero_counts, entry) = translate_tree-IsWellFormed f ts prog s t plain start e in
    preprocess_ir-functions m (code_of t) w zero_counts pc ir g (rw head refl)
