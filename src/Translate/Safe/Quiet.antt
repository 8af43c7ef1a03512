-- ===== src/Translate/Safe/Quiet.antt =====
-- The commands that emit nothing and make no operand.
use naivecc.Base.{Bool, true, some, List, [], ◌≡◌, refl, ap, ◌∙◌, ◌==◌, arith, Bool-cases, inl, inr}
use naivecc.Operand.{Operand, OperandCell, write}
use naivecc.Translate.{TransState, M, put}
use naivecc.Translate.Safe.{Setting, marks, is_label_type, SymbolsOk, Safe}

-- No operand is made or changes its type or its count of references, and the buffer is kept.
pub record Quiet (s t : TransState) : Type 0 where
  pub next : t.store.next ≡ s.store.next
  pub buf : t.buf ≡ s.buf
  pub types : (p : Operand) → is_label_type t.store.heap p ≡ is_label_type s.store.heap p
  pub sticky : s.unsupport ≡ true → t.unsupport ≡ true
  pub counts : (p : Operand) → (t.store.heap p).label_ref_cnt ≡ (s.store.heap p).label_ref_cnt

pub Quiet-refl : (s : TransState) → Quiet s s
Quiet-refl s = record {
  next = refl;
  buf = refl;
  types = λ p. refl;
  sticky = λ h. h;
  counts = λ p. refl;
}

pub Quiet-put :
    (s : TransState) (p : Operand) (c : OperandCell)
    → c.type ≡ (s.store.heap p).type
    → c.label_ref_cnt ≡ (s.store.heap p).label_ref_cnt
    → Quiet s (put s p c)
unfolding write
Quiet-put s p c type count = record {
  next = refl;
  buf = refl;
  sticky = λ h. h;
  types = λ q. elim (Bool-cases (p == q)) [
    | inl h ↦ let same : p ≡ q = ground arith in rw h (rw type (rw same refl))
    | inr h ↦ rw h refl
  ];
  counts = λ q. elim (Bool-cases (p == q)) [
    | inl h ↦ let same : p ≡ q = ground arith in rw h (rw count (rw same refl))
    | inr h ↦ rw h refl
  ];
}

module _ {ty : Setting} where
  pub Safe-quiet :
      {A : Type 0} {H : Type 0} {b : Bool} {J : List Operand} {Q : A → Type 0} (m : M A)
      → ((s t : TransState) (a : A) → m s ≡ some (a, t) → Quiet s t)
      → ((s t : TransState) (a : A)
          → m s ≡ some (a, t)
          → H
          → SymbolsOk ty s.scopes.tables
          → SymbolsOk ty t.scopes.tables × Q a)
      → Safe ty H b [] J m Q
  Safe-quiet m quiet symbols = record {
    later = λ s t a e.
        let q = quiet s t a e in
        record {
          next_le = rw q.next (omega arith);
          length_le = rw q.buf (omega arith);
          bounded = λ h. rw q.buf h;
          sticky = q.sticky;
          kept = λ p k. q.types p;
        };
    good = λ s t a e h agree inv p n.
        let q = quiet s t a e in
        let (ok, post) = symbols s t a e h inv.symbols in
        record {
          inv = record {
            typed = rw q.buf inv.typed;
            once = rw q.buf inv.once;
            fresh = λ l le. rw q.buf (inv.fresh l (rw q.next at le));
            counts = λ l. q.counts l ∙ inv.counts l;
            symbols = ok;
            first = rw q.buf inv.first;
          };
          marked = λ l k o. ap (marks l) q.buf;
          placed = λ l i. elim i [ ];
          targets = λ l k. inl (rw q.buf at k);
          post = post;
        };
  }

  -- A command that also keeps the symbols.
  pub Safe-same :
      {A : Type 0} {H : Type 0} {b : Bool} {J : List Operand} {Q : A → Type 0} (m : M A)
      → ((s t : TransState) (a : A)
          → m s ≡ some (a, t)
          → Quiet s t × (t.scopes.tables ≡ s.scopes.tables))
      → ((s t : TransState) (a : A) → m s ≡ some (a, t) → Q a)
      → Safe ty H b [] J m Q
  Safe-same m quiet post =
      Safe-quiet m (λ s t a e. (quiet s t a e).0)
        (λ s t a e h ok. (rw ((quiet s t a e).1) ok, post s t a e))
