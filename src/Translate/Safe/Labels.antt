-- ===== src/Translate/Safe/Labels.antt =====
-- The rules for labels, jumps and branches.
use naivecc.Preprocess.Inv.{refs}
use naivecc.Base.{
  ◌<◌, Bool, true, false, Option, none, some, List, ◌∷◌, ◌≡◌, ap, ◌∙◌, ◌==◌, arith, eq_of_beq, [],
  inl, inr, beq_refl,
}
use naivecc.Operand.{Operand, OpeType}
use naivecc.Ir.{blank_ir}
use naivecc.Ir.Kinds.{IrType}
use naivecc.Translate.{TransState, M, ◌>>=◌, operand, instr}
use naivecc.Translate.Cond.{put_label, jump}
use naivecc.Translate.Safe.{
  Setting, marks, Pending, IsLab, IsDat, Inv, Has, Safe, Takes, here, there, In, in_here, in_there,
}
use naivecc.Translate.Safe.Pending.{
  Pending-kept, Pending-placed, Pending-Takes, NotIn-Takes, NotIn-new, In-Takes,
}
use naivecc.Translate.Safe.Marks.{marks-append}
use naivecc.Translate.Safe.Rules.{Safe-bind_instr, Later-trans, bind-Steps, Outcome-stands}
use naivecc.Translate.Safe.Commands.{operand-Fresh, Later-Fresh, Inv-Fresh}
use naivecc.Translate.Safe.Instr.{
  is_test, instr-Appended, instr-filled, Later-Appended, Inv-Appended, target-Appended,
}
use naivecc.Translate.Safe.Emit.{Safe-test, Safe-jump}

NotIn-made : (q n : Operand) → q < n → (q == n) ≡ false
NotIn-made q n h = ground arith

-- Placing one label leaves the number of every other.
pub marks-put :
    (l q : Operand) (s t : TransState) (a : Unit {0})
    → put_label l s ≡ some (a, t)
    → (q == l) ≡ false
    → marks q t.buf ≡ marks q s.buf
marks-put l q s t a e ne =
    let ap' = instr-Appended IrType.label (some l) none none s t a e in
    rw (ap'.buf, marks-append q s.buf (blank_ir IrType.label (some l) none none))
      (let ne' : (l == q) ≡ false = ground arith in rw ne' (omega arith))

pub label_target :
    (l p : Operand) (s t : TransState) (a : Unit {0})
    → put_label l s ≡ some (a, t)
    → 0 < refs p t.buf
    → 0 < refs p s.buf
label_target l p s t a e h =
    elim (target-Appended p (instr-Appended IrType.label (some l) none none s t a e) h) [
      | inl z ↦ z
      | inr z ↦ absurd (omega arith)
    ]

put-placed :
    (l : Operand) (s t : TransState) (a : Unit {0})
    → put_label l s ≡ some (a, t)
    → 0 < marks l t.buf
put-placed l s t a e =
    let new = instr-Appended IrType.label (some l) none none s t a e in
    rw (new.buf, marks-append l s.buf (blank_ir IrType.label (some l) none none))
      (rw (beq_refl l) (omega arith))

module _ {ty : Setting} where
  -- A new label may be placed by what follows.
  pub Safe-label :
      {B : Type 0} {H : Type 0} {b : Bool} {L J : List Operand} {Q : B → Type 0} (f : Operand → M B)
      → ((l : Operand) → Safe ty (H × IsLab ty l) b (l ∷ L) (l ∷ J) (f l) Q)
      → Safe ty H b L J (operand OpeType.label >>= f) Q
  Safe-label {L} f y = record {
    later = λ s t v e.
        let r = bind-Steps (operand OpeType.label) f s t v e in
        Later-trans s r.mid t (Later-Fresh (operand-Fresh OpeType.label s r.mid r.value r.first))
          ((y r.value).later r.mid t v r.second);
    good = λ s t v e h agree inv p n.
        let r = bind-Steps (operand OpeType.label) f s t v e in
        let new = operand-Fresh OpeType.label s r.mid r.value r.first in
        let l2 = (y r.value).later r.mid t v r.second in
        let lt : r.value < r.mid.store.next = rw (new.is_next, new.next) (omega arith) in
        let lab : IsLab ty r.value = record {
          at =
              rw (← (agree r.value (let z = l2.next_le in omega arith)))
                (l2.kept r.value lt ∙ new.label_type);
        } in
        let p' : Pending L r.mid =
          Pending-kept s r.mid L (let z = new.next in omega arith) (λ l k. ap (marks l) new.buf)
            p in
        let absent : marks r.value r.mid.buf ≡ 0 =
          rw new.buf (inv.fresh r.value (rw new.is_next (omega arith))) in
        let out =
          (y r.value).good r.mid t v r.second (h, lab) agree (Inv-Fresh new inv)
            (lt, absent, rw new.is_next (NotIn-new s L p), p') (λ c. rw new.buf (n c)) in
        record {
          inv = out.inv;
          marked = λ q k o.
              out.marked q (let z = new.next in omega arith)
                (rw new.is_next (NotIn-made q s.store.next k), o)
              ∙ ap (marks q) new.buf;
          placed = λ q i. out.placed q (in_there i);
          targets = λ q k. elim (out.targets q k) [
            | inl z ↦ inl (rw new.buf at z)
            | inr z ↦ elim z [
              | inl w ↦ inr (inl w)
              | inr j ↦ elim (In-Takes q here j) [
                | inl same ↦ inr (inl (rw same (out.placed r.value in_here)))
                | inr w ↦ inr (inr w)
              ]
            ]
          ];
          post = out.post;
        };
  }

  pub Inv-put :
      (l : Operand) (s t : TransState) (a : Unit {0})
      → put_label l s ≡ some (a, t)
      → IsLab ty l
      → (ty.IsOnce → marks l s.buf ≡ 0)
      → l < s.store.next
      → Inv ty s
      → Inv ty t
  Inv-put l s t a e lab absent lt inv =
      Inv-Appended (instr-Appended IrType.label (some l) none none s t a e) lab.at (λ c. cc c)
        (λ q c. let same : l ≡ q = eq_of_beq l q c in (λ o. rw (← same) (absent o), rw (← same) lt))
        inv

  -- A pending label is placed.
  pub Safe-put :
      {B : Type 0} {H : Type 0} {b : Bool} {L L' J : List Operand} {Q : B → Type 0} (l : Operand)
      (f : Unit {0} → M B)
      → Takes l L L'
      → Has H (IsLab ty l)
      → ((a : Unit {0}) → Safe ty H true L' J (f a) Q)
      → Safe ty H b L J (put_label l >>= f) Q
  Safe-put {L'} l f k lab y = record {
    later = λ s t v e.
        let r = bind-Steps (put_label l) f s t v e in
        Later-trans s r.mid t
          (Later-Appended (instr-Appended IrType.label (some l) none none s r.mid r.value r.first))
          ((y r.value).later r.mid t v r.second);
    good = λ s t v e h agree inv p n.
        let r = bind-Steps (put_label l) f s t v e in
        let new = instr-Appended IrType.label (some l) none none s r.mid r.value r.first in
        let (lt, absent, out_l, rest) = Pending-Takes s k p in
        let inv' = Inv-put l s r.mid r.value r.first (lab.get h) (λ o. absent) lt inv in
        let p' =
          Pending-placed s r.mid l L' (rw new.store (omega arith))
            (λ q ne. marks-put l q s r.mid r.value r.first ne) out_l rest in
        let out =
          (y r.value).good r.mid t v r.second h agree inv' p'
            (λ c. instr-filled IrType.label (some l) none none s r.mid r.value r.first) in
        record {
          inv = out.inv;
          marked = λ q lt' o.
              let (ne, o') = NotIn-Takes q k o in
              out.marked q (rw new.store lt') o' ∙ marks-put l q s r.mid r.value r.first ne;
          placed = λ q i. elim (In-Takes q k i) [
            | inl same ↦ rw same (Outcome-stands inv' out l (put-placed l s r.mid r.value r.first))
            | inr j ↦ out.placed q j
          ];
          targets = λ q z. elim (out.targets q z) [
            | inl w ↦ inl (label_target l q s r.mid r.value r.first w)
            | inr w ↦ inr w
          ];
          post = out.post;
        };
  }

  pub Safe-put_last :
      {H : Type 0} {b : Bool} {J : List Operand} (l : Operand)
      → Has H (IsLab ty l)
      → Safe ty H b (l ∷ []) J (put_label l) (λ _. Unit)
  Safe-put_last l lab = record {
    later = λ s t a e. Later-Appended (instr-Appended IrType.label (some l) none none s t a e);
    good = λ s t a e h agree inv p n. record {
      inv = Inv-put l s t a e (lab.get h) (λ o. p.1) p.0 inv;
      marked = λ q k o. marks-put l q s t a e o.0;
      placed = λ q i. elim (In-Takes q here i) [
        | inl same ↦ rw same (put-placed l s t a e)
        | inr j ↦ elim j [ ]
      ];
      targets = λ q k. inl (label_target l q s t a e k);
      post = tt;
    };
  }

  pub Safe-put_0 :
      {B : Type 0} {H : Type 0} {b : Bool} {L J : List Operand} {Q : B → Type 0} (l : Operand)
      (f : Unit {0} → M B)
      → Has H (IsLab ty l)
      → ((a : Unit {0}) → Safe ty H true L J (f a) Q)
      → Safe ty H b (l ∷ L) J (put_label l >>= f) Q
  Safe-put_0 l f lab y = Safe-put l f here lab y

  pub Safe-put_1 :
      {B : Type 0} {H : Type 0} {b : Bool} {L J : List Operand} {Q : B → Type 0} {x : Operand}
      (l : Operand) (f : Unit {0} → M B)
      → Has H (IsLab ty l)
      → ((a : Unit {0}) → Safe ty H true (x ∷ L) J (f a) Q)
      → Safe ty H b (x ∷ l ∷ L) J (put_label l >>= f) Q
  Safe-put_1 l f lab y = Safe-put l f (there here) lab y

  pub Safe-put_2 :
      {B : Type 0} {H : Type 0} {b : Bool} {L J : List Operand} {Q : B → Type 0} {x y : Operand}
      (l : Operand) (f : Unit {0} → M B)
      → Has H (IsLab ty l)
      → ((a : Unit {0}) → Safe ty H true (x ∷ y ∷ L) J (f a) Q)
      → Safe ty H b (x ∷ y ∷ l ∷ L) J (put_label l >>= f) Q
  Safe-put_2 l f lab y = Safe-put l f (there (there here)) lab y

  pub Safe-put_3 :
      {B : Type 0} {H : Type 0} {b : Bool} {L J : List Operand} {Q : B → Type 0} {x y z : Operand}
      (l : Operand) (f : Unit {0} → M B)
      → Has H (IsLab ty l)
      → ((a : Unit {0}) → Safe ty H true (x ∷ y ∷ z ∷ L) J (f a) Q)
      → Safe ty H b (x ∷ y ∷ z ∷ l ∷ L) J (put_label l >>= f) Q
  Safe-put_3 l f lab y = Safe-put l f (there (there (there here))) lab y

  pub Safe-jump_then :
      {B : Type 0} {H : Type 0} {L J : List Operand} {Q : B → Type 0} (l : Operand)
      (f : Unit {0} → M B)
      → Has H (IsLab ty l)
      → In l J
      → ((x : Unit {0}) → Safe ty (H × Unit) true L J (f x) Q)
      → Safe ty H true L J (jump l >>= f) Q
  Safe-jump_then l f lab i y =
      Safe-bind_instr _ f (instr-filled IrType.jmp (some l) none none) (Safe-jump l lab i) y

  pub Safe-test_then :
      {B : Type 0} {H : Type 0} {b : Bool} {L J : List Operand} {Q : B → Type 0} (k : IrType)
      (rs rt : Option Operand) (l : Operand) (f : Unit {0} → M B)
      → is_test k ≡ true
      → Has H (IsDat ty rs)
      → Has H (IsDat ty rt)
      → Has H (IsLab ty l)
      → In l J
      → ((x : Unit {0}) → Safe ty (H × Unit) true L J (f x) Q)
      → Safe ty H b L J (instr k rs rt (some l) >>= f) Q
  Safe-test_then k rs rt l f e s t d i y =
      Safe-bind_instr _ f (instr-filled k rs rt (some l)) (Safe-test k rs rt l e s t d i) y

pub ruleset label_rules = (
  in_here, in_there, Safe-label, Safe-put_0, Safe-put_1, Safe-put_2, Safe-put_3, Safe-put_last,
  Safe-jump_then, Safe-test_then,
)
