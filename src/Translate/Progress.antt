-- ===== src/Translate/Progress.antt =====
-- Translated code never gets stuck: every jump finds its label.
use naivecc.Base.{
  ℕ, zero, suc, ◌+◌, ◌<◌, Bool, true, false, Option, none, some, [], ◌∷◌, ◌≡◌, ◌≢◌, refl, arith,
  get_elem?, beq_refl, Bool-cases, Option-cases, inl, inr, and_left, if◌then◌else◌,
}
use naivecc.Operand.{Operand, OpeType, FloatOps}
use naivecc.Ir.{Ir, Buffer}
use naivecc.CmmType.{Types}
use naivecc.Syntax.{Tree}
use naivecc.Machine.{
  holds, Machine, Kind, skip, jump, branch, return, act, kind, Next, goto, stuck, more, exec, step,
  label_index, labels, target,
}
use naivecc.Preprocess.Inv.{types, refs, uses-eq, is_typed, is_label}
use naivecc.Translate.{TransState}
use naivecc.Translate.Program.{translate_tree}
use naivecc.Translate.Safe.{marks}
use naivecc.Translate.Correct.{IsStart, translate_tree-typed, translate_tree-targets}

refs-get :
    (buf : Buffer) (j : ℕ) (ir : Ir) (p : Operand)
    → get_elem? buf j ≡ some ir
    → target ir ≡ some p
    → 0 < refs p buf
unfolding refs
refs-get [] j ir p e t = cc e
refs-get (x ∷ buf) zero ir p e t =
    let same : x ≡ ir = cc e in
    let t' : target x ≡ some p = rw same t in
    let u = uses-eq p x t' in let here = beq_refl p in omega (arith, (rw here at u))
refs-get (x ∷ buf) (suc j) ir p e t = let z = refs-get buf j ir p e t in omega arith

label_index-marks :
    (p : Operand) (buf : Buffer) → 0 < marks p buf → (j : ℕ) × (label_index p buf ≡ some j)
unfolding marks label_index
label_index-marks p [] h = absurd (omega arith)
label_index-marks p (ir ∷ buf) h = elim (Bool-cases (labels p ir)) [
  | inl c ↦ (0, rw (c, label_index) refl)
  | inr c ↦
      let (j, e) = label_index-marks p buf (let z = rw c at h in omega arith) in
      (suc j, ground arith)
]

goto-not_stuck :
    (m : Machine) (buf : Buffer) (p : Operand) (st : m.State)
    → 0 < marks p buf
    → goto m buf (some p) st ≢ stuck
unfolding goto
goto-not_stuck m buf p st h e = let (j, f) = label_index-marks p buf h in cc (rw (f, goto) at e)

-- The target of a jump or a branch, in code where these name labels.
Reaches : Buffer → Option Operand → Type 0
Reaches buf none = ⊥
Reaches buf (some p) = 0 < marks p buf

module _ (m : Machine) (buf : Buffer) where
  goto-Reaches : (o : Option Operand) (st : m.State) → Reaches buf o → goto m buf o st ≢ stuck
  unfolding Reaches
  goto-Reaches none st r = elim r [ ]
  goto-Reaches (some p) st r = goto-not_stuck m buf p st r

  if-not_stuck : (c : Bool) (x y : Next m) → x ≢ stuck → y ≢ stuck → (if c then x else y) ≢ stuck
  if-not_stuck true x y a b = a
  if-not_stuck false x y a b = b

  exec-not_stuck :
      (ty : Operand → OpeType) (ir : Ir) (pc : ℕ) (st : m.State)
      → is_typed ty ir ≡ true
      → ((p : Operand) → target ir ≡ some p → 0 < marks p buf)
      → exec m buf ir pc st ≢ stuck
  unfolding exec Reaches
  exec-not_stuck ty ir pc st typed goes = by_kind (kind ir.type) refl
    where
      label_reaches : (o : Option Operand) → is_label ty o ≡ true → target ir ≡ o → Reaches buf o
      label_reaches none h e = cc h
      label_reaches (some p) h e = goes p e

      by_kind : (k : Kind) → kind ir.type ≡ k → exec m buf ir pc st ≢ stuck
      by_kind skip e = rw (e, exec) (λ h. cc h)
      by_kind return e = rw (e, exec) (λ h. cc h)
      by_kind act e = rw (e, exec) (λ h. cc h)
      by_kind jump e =
          rw (e, exec)
            (goto-Reaches ir.rs st
              (label_reaches ir.rs (rw (e, is_typed) at typed) (rw (e, target) refl)))
      by_kind branch e =
          rw (e, exec)
            (if-not_stuck (holds m ir.type ir.rs ir.rt st) (goto m buf ir.rd st) (more (pc + 1) st)
              (goto-Reaches ir.rd st (
                label_reaches ir.rd (and_left (is_label ty ir.rd) _ (rw (e, is_typed) at typed))
                  (rw (e, target) refl)))
              (λ h. cc h))

-- From a state with no instruction and with no address in a symbol, translation of any tree that
-- succeeds leaves code that never gets stuck: on every machine and in every state, no instruction
-- jumps to a label that does not stand.
pub translate_tree-step :
    (f : FloatOps) (ts : Types) (prog : Tree) (s t : TransState)
    → IsStart s
    → translate_tree f ts prog s ≡ some (tt, t)
    → (m : Machine) (pc : ℕ) (st : m.State) → step m t.buf pc st ≢ stuck
unfolding step
translate_tree-step f ts prog s t start e m pc st = elim (Option-cases (get_elem? t.buf pc)) [
  | inr g ↦ rw (g, step) (λ h. cc h)
  | inl (ir, g) ↦
      rw (g, step)
        (exec-not_stuck m t.buf (types t.store.heap) ir pc st
          (translate_tree-typed f ts prog s t start e pc ir g)
          (λ p k. translate_tree-targets f ts prog s t start e p (refs-get t.buf pc ir p g k)))
]
