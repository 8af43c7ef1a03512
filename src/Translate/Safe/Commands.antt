-- ===== src/Translate/Safe/Commands.antt =====
-- What the commands of translation keep.
use naivecc.Base.{
  ℕ, ◌+◌, ◌<◌, Bool, true, false, some, List, ◌≡◌, refl, ◌==◌, arith, Bool-cases, inl, inr, [],
}
use naivecc.Base.Int.{pos}
use naivecc.Operand.{Operand, OpeType, new_operand, new_cell, write, same_ope_type}
use naivecc.Translate.{TransState, operand}
use naivecc.Translate.Safe.{Setting, is_label_type, Later, IsDat, Inv, Safe}

-- The states before and after a new operand.
pub record Made (k : OpeType) (s t : TransState) (p : Operand) : Type 0 where
  pub is_next : p ≡ s.store.next
  pub state : TransState.store t ≡ (new_operand k s.store).1
  pub buf : t.buf ≡ s.buf
  pub tables : t.scopes ≡ s.scopes
  pub unsupport : t.unsupport ≡ s.unsupport

pub operand-Made :
    (k : OpeType) (s t : TransState) (p : Operand) → operand k s ≡ some (p, t) → Made k s t p
unfolding operand new_operand
operand-Made k s t p e = record {
  is_next = cc e;
  state = cc e;
  buf = cc e;
  tables = cc e;
  unsupport = cc e;
}

new_cell-fields :
    (k : OpeType) (n l : ℕ) → ((new_cell k n l).label_ref_cnt ≡ pos 0) × ((new_cell k n l).type ≡ k)
unfolding new_cell
new_cell-fields OpeType.var n l = (refl, refl)
new_cell-fields OpeType.ref n l = (refl, refl)
new_cell-fields OpeType.bool n l = (refl, refl)
new_cell-fields OpeType.temp n l = (refl, refl)
new_cell-fields OpeType.addr n l = (refl, refl)
new_cell-fields OpeType.label n l = (refl, refl)
new_cell-fields OpeType.func n l = (refl, refl)
new_cell-fields OpeType.not_used n l = (refl, refl)
new_cell-fields OpeType.deref n l = (refl, refl)
new_cell-fields OpeType.refaddr n l = (refl, refl)
new_cell-fields OpeType.integer n l = (refl, refl)
new_cell-fields OpeType.float n l = (refl, refl)

-- What a new operand is, and that it changes no other.
pub record Fresh (k : OpeType) (s t : TransState) (p : Operand) : Type 0 where
  pub is_next : p ≡ s.store.next
  pub next : t.store.next ≡ s.store.next + 1
  pub label_type : is_label_type t.store.heap p ≡ same_ope_type k OpeType.label
  pub others :
      (q : Operand) → q < s.store.next → is_label_type t.store.heap q ≡ is_label_type s.store.heap q
  pub counts :
      ((q : Operand) → (s.store.heap q).label_ref_cnt ≡ pos 0)
      → (q : Operand) → (t.store.heap q).label_ref_cnt ≡ pos 0
  pub buf : t.buf ≡ s.buf
  pub tables : t.scopes ≡ s.scopes
  pub unsupport : t.unsupport ≡ s.unsupport

pub operand-Fresh :
    (k : OpeType) (s t : TransState) (p : Operand) → operand k s ≡ some (p, t) → Fresh k s t p
unfolding operand new_operand write
operand-Fresh k s t p e =
    let m = operand-Made k s t p e in
    let (zero_count, type) = new_cell-fields k s.store.nr_ope s.store.nr_label in
    record {
      is_next = m.is_next;
      next = rw m.state refl;
      label_type = rw (m.state, m.is_next) (rw (eq_self s.store.next) (rw type refl));
      others = λ q k. rw m.state (rw (ne_of_lt k) refl);
      counts = λ c q.
          rw m.state (elim (Bool-cases (s.store.next == q)) [
            | inl h ↦ rw h zero_count
            | inr h ↦ rw h (c q)
          ]);
      buf = m.buf;
      tables = m.tables;
      unsupport = m.unsupport;
    }
  where
    eq_self : (n : ℕ) → (n == n) ≡ true
    eq_self n = ground arith

    ne_of_lt : {q n : ℕ} → q < n → (n == q) ≡ false
    ne_of_lt h = ground arith

pub Later-Fresh : {k : OpeType} {s t : TransState} {p : Operand} → Fresh k s t p → Later s t
Later-Fresh f = record {
  next_le = rw f.next (omega arith);
  length_le = rw f.buf (omega arith);
  bounded = λ h. rw f.buf h;
  sticky = λ h. rw f.unsupport h;
  kept = f.others;
}

module _ {ty : Setting} where
  pub Inv-Fresh :
      {k : OpeType} {s t : TransState} {p : Operand} → Fresh k s t p → Inv ty s → Inv ty t
  Inv-Fresh {s} {t} f i = record {
    typed = rw f.buf i.typed;
    once = rw f.buf i.once;
    fresh = λ l le. rw f.buf (i.fresh l (omega (arith, (rw f.next at le))));
    counts = f.counts i.counts;
    symbols = rw f.tables i.symbols;
    first = rw f.buf i.first;
  }

  pub Safe-spare :
      {H : Type 0} {b : Bool} {J : List Operand} (k : OpeType)
      → Safe ty H b [] J (operand k) (λ p. Unit)
  Safe-spare k = record {
    later = λ s t p e. Later-Fresh (operand-Fresh k s t p e);
    good = λ s t p e h agree inv pend n.
        let f = operand-Fresh k s t p e in
        record {
          inv = Inv-Fresh f inv;
          marked = λ l k o. rw f.buf refl;
          placed = λ l i. elim i [ ];
          targets = λ l k. inl (rw f.buf at k);
          post = tt;
        };
  }

  pub Safe-operand :
      {H : Type 0} {b : Bool} {J : List Operand} (k : OpeType)
      → same_ope_type k OpeType.label ≡ false
      → Safe ty H b [] J (operand k) (λ p. IsDat ty (some p))
  Safe-operand k plain = record {
    later = λ s t p e. Later-Fresh (operand-Fresh k s t p e);
    good = λ s t p e h agree inv pend n.
        let f = operand-Fresh k s t p e in
        record {
          inv = Inv-Fresh f inv;
          marked = λ l k o. rw f.buf refl;
          placed = λ l i. elim i [ ];
          targets = λ l k. inl (rw f.buf at k);
          post = record {
            at =
                rw (← (agree p (rw (f.is_next, f.next) (omega arith))))
                  (rw (f.label_type, plain) refl);
          };
        };
  }
