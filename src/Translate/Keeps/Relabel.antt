-- ===== src/Translate/Keeps/Relabel.antt =====
-- The label that `translate_cond_prepare` leaves in its node.
use naivecc.Base.{ap, arith, ◌≡◌, ◌<◌, ◌≤◌, false, Option, none, some, [], refl}
use naivecc.Operand.{Operand, OpeType}
use naivecc.Ir.Kinds.{IrType}
use naivecc.Translate.{TransState, operand, pure, M}
use naivecc.Translate.Cond.{value_false, value_true, prepare_labels, put_label}
use naivecc.Translate.Program.{relabelled}
use naivecc.Translate.Safe.Relabel.{Relabels}
use naivecc.Translate.Safe.Commands.{operand-Fresh, Later-Fresh}
use naivecc.Translate.Safe.Instr.{instr-Appended, Later-Appended}
use naivecc.Translate.Safe.{Setting, IsDat}
use naivecc.Translate.Safe.Rules.{Safe-bind, Safe-pure, bind-Steps}
use naivecc.Translate.Safe.Visits.{Has-none, Has-self, weaken}
use naivecc.Translate.Keeps.Cond.{CondOk, Safe-prepare_labels, Safe-value_false, Safe-value_true}

pure-result : {A : Type 0} (x y : A) (u t : TransState) → pure x u ≡ some (y, t) → (x ≡ y) × (u ≡ t)
unfolding pure
pure-result x y u t e = (cc e, cc e)

module _ {ty : Setting} where
  -- The label that `translate_cond_prepare` leaves is new.
  prepare_labels-new :
      (cond : Operand → Operand → M (Unit {0}))
      → CondOk ty cond
      → (s t : TransState) (r : Operand × Option Operand) → prepare_labels cond none s ≡ some (r, t)
      → (s.store.next ≤ r.0) × (r.0 < t.store.next)
  unfolding prepare_labels pure
  prepare_labels-new cond ok s t r e =
      let a = bind-Steps (operand OpeType.label) _ s t r e in
      let new = operand-Fresh OpeType.label s a.mid a.value a.first in
      let b = bind-Steps (operand OpeType.label) _ a.mid t r a.second in
      let m1 = (Later-Fresh (operand-Fresh OpeType.label a.mid b.mid b.value b.first)).next_le in
      let c = bind-Steps (value_false none) _ b.mid t r b.second in
      let m2 =
        ((Safe-value_false {ty = ty} {H = Unit} {b = false} {J = []} none Has-none).later b.mid
          c.mid c.value c.first).next_le in
      let d = bind-Steps (cond a.value b.value) _ c.mid t r c.second in
      let m3 = ((ok a.value b.value).later c.mid d.mid d.value d.first).next_le in
      let g = bind-Steps (put_label a.value) _ d.mid t r d.second in
      let m4 =
        (Later-Appended (
          instr-Appended IrType.label (some a.value) none none d.mid g.mid g.value
            g.first)).next_le in
      let h = bind-Steps (value_true c.value) _ g.mid t r g.second in
      let m5 =
        ((Safe-value_true {ty = ty} {H = IsDat ty c.value} {b = false} {J = []} c.value
            Has-self).later
          g.mid h.mid h.value h.first).next_le in
      let k = bind-Steps (put_label b.value) _ h.mid t r h.second in
      let m6 =
        (Later-Appended (
          instr-Appended IrType.label (some b.value) none none h.mid k.mid k.value
            k.first)).next_le in
      let (value, state) = pure-result (a.value, c.value) r k.mid t k.second in
      let label : a.value ≡ r.0 = ap (λ x. x.0) value in
      let next : k.mid.store.next ≡ t.store.next = ap (λ u. u.store.next) state in
      let is_next = new.is_next in let after = new.next in (omega arith, omega arith)

  pub relabelled-Relabels :
      (cond : Operand → Operand → M (Unit {0})) → CondOk ty cond → Relabels ty (relabelled cond)
  unfolding relabelled pure
  relabelled-Relabels cond ok = record {
    safe =
        Safe-bind _ _ (weaken (Safe-prepare_labels cond none ok) (λ h. record { at = refl }))
          (λ r. Safe-pure _ (record { get = λ h. h.1.0 }));
    own = λ s t l e.
        let r = bind-Steps (prepare_labels cond none) _ s t l e in
        let z = prepare_labels-new cond ok s r.mid r.value r.first in
        let (label, state) = pure-result r.value.0 l r.mid t r.second in
        let next : r.mid.store.next ≡ t.store.next = ap (λ u. u.store.next) state in
        let (low, high) = z in (omega arith, omega arith);
  }
