-- ===== src/Translate/Safe/Relabel.antt =====
-- Visits that overwrite the label that their node was given, and labels that stand nowhere.
use naivecc.Base.{
  ◌<◌, ◌≤◌, refl, Bool, true, false, none, some, List, ◌≡◌, ◌∙◌, arith, [], inl, inr,
}
use naivecc.Operand.{Operand, OpeType}
use naivecc.Ir.{blank_ir}
use naivecc.Ir.Kinds.{IrType}
use naivecc.Translate.{TransState, M, ◌>>=◌, operand}
use naivecc.Translate.Cond.{put_label}
use naivecc.Translate.Safe.{Setting, marks, IsLab, Safe}
use naivecc.Translate.Safe.Marks.{marks-append}
use naivecc.Translate.Safe.Rules.{Safe-bind, Safe-bind_instr, Later-trans, bind-Steps}
use naivecc.Translate.Safe.Commands.{Safe-spare}
use naivecc.Translate.Safe.Instr.{instr-Appended, instr-filled, Later-Appended}
use naivecc.Translate.Safe.Labels.{label_target, marks-put, Inv-put}

-- A visit that leaves its node another label than it was given, and has placed that label.
pub record Relabels (ty : Setting) (m : M Operand) : Type 0 where
  pub safe : Safe ty Unit false [] [] m (IsLab ty)
  pub own :
      (s t : TransState) (l : Operand) → m s ≡ some (l, t) → (s.store.next ≤ l) × (l < t.store.next)

put-grows :
    (l q : Operand) (s t : TransState) (a : Unit {0})
    → put_label l s ≡ some (a, t)
    → 0 < marks q s.buf
    → 0 < marks q t.buf
put-grows l q s t a e h =
    let new = instr-Appended IrType.label (some l) none none s t a e in
    rw (new.buf, marks-append q s.buf (blank_ir IrType.label (some l) none none)) (omega arith)

module _ {ty : Setting} where
  -- Placing its label again, where labels need not stand once.
  Safe-relabel :
      {H : Type 0} {b : Bool} {J : List Operand} (m : M Operand)
      → Relabels ty m
      → (ty.IsOnce → ⊥)
      → Safe ty H b [] J (m >>= put_label) (λ _. Unit)
  Safe-relabel m x never = record {
    later = λ s t v e.
        let r = bind-Steps m put_label s t v e in
        Later-trans s r.mid t (x.safe.later s r.mid r.value r.first) (
          Later-Appended (instr-Appended IrType.label (some r.value) none none r.mid t v r.second));
    good = λ s t v e h agree inv p n.
        let r = bind-Steps m put_label s t v e in
        let l2 =
          Later-Appended
            (instr-Appended IrType.label (some r.value) none none r.mid t v r.second) in
        let o =
          x.safe.good s r.mid r.value r.first tt
            (λ q k. (rw⁻¹ (l2.kept q k) refl) ∙ agree q (let z = l2.next_le in omega arith)) inv tt
            (λ c. cc c) in
        let (ge, lt) = x.own s r.mid r.value r.first in
        record {
          inv = Inv-put r.value r.mid t v r.second o.post (λ c. absurd (never c)) lt o.inv;
          marked =
              λ q k out. marks-put r.value q r.mid t v r.second (ground arith) ∙ o.marked q k tt;
          placed = λ q i. elim i [ ];
          targets = λ q k. elim (o.targets q (label_target r.value q r.mid t v r.second k)) [
            | inl z ↦ inl z
            | inr z ↦ elim z [
              | inl w ↦ inr (inl (put-grows r.value q r.mid t v r.second w))
              | inr i ↦ elim i [ ]
            ]
          ];
          post = tt;
        };
  }

  pub Safe-relabel_then :
      {B : Type 0} {H : Type 0} {b : Bool} {L J : List Operand} {Q : B → Type 0} (m : M Operand)
      (f : Unit {0} → M B)
      → Relabels ty m
      → (ty.IsOnce → ⊥)
      → ((x : Unit {0}) → Safe ty (H × Unit) true L J (f x) Q)
      → Safe ty H b L J ((m >>= put_label) >>= f) Q
  Safe-relabel_then m f x never y =
      Safe-bind_instr _ f
        (λ s t a e.
          let r = bind-Steps m put_label s t a e in
          instr-filled IrType.label (some r.value) none none r.mid t a r.second)
        (Safe-relabel m x never) y

  -- A new label that is placed nowhere.
  pub Safe-spare_label :
      {B : Type 0} {H : Type 0} {b : Bool} {L J : List Operand} {Q : B → Type 0} (f : Operand → M B)
      → ((l : Operand) → Safe ty (H × Unit) b L J (f l) Q)
      → Safe ty H b L J (operand OpeType.label >>= f) Q
  Safe-spare_label f y = Safe-bind _ f (Safe-spare OpeType.label) y
