-- ===== src/Translate/Safe/Fields.antt =====
-- The rules for the commands that read or write one operand, the scopes or the buffer in place.
use naivecc.Base.{
  ℕ, Bool, true, Option, none, some, List, [], ◌∷◌, ◌≡◌, refl, ap, ◌∙◌, arith, Bool-cases, inl, inr,
  same_ptr,
}
use naivecc.Base.Int.{ℤ}
use naivecc.Operand.{Operand, OperandCell}
use naivecc.Symtab.{Scopes, push_symtab, pop_symtab}
use naivecc.Preprocess.{replace_operand_global}
use naivecc.Translate.{
  TransState, M, put, need, cell, set_integer, set_real, set_name, set_size, set_base_type, replace,
  enter_scope, leave_scope, trans_default,
}
use naivecc.Translate.Safe.{Setting, marks, IsDat, Has, Safe}
use naivecc.Translate.Safe.Marks.{
  marks-replace, refs-replace, Every-replace, length-replace, first-replace,
}
use naivecc.Translate.Safe.Quiet.{Quiet-refl, Quiet-put, Safe-same}

pop_symtab-tables : (s : Scopes) → (pop_symtab s).1.tables ≡ s.tables
unfolding pop_symtab
pop_symtab-tables s =
    elim s.scopes
      as (λ k.
        (elim k as (λ _. Option ℕ × Scopes) [
          | [] ↦ (none, s)
          | p ∷ rest ↦ (some p, record s { scopes = rest })
        ]).1.tables
        ≡ s.tables) [ [] ↦ refl | p ∷ rest ↦ refl ]

module _ {ty : Setting} where
  pub Safe-cell :
      {H : Type 0} {b : Bool} {J : List Operand} (p : Operand)
      → Safe ty H b [] J (cell p) (λ _. Unit)
  unfolding cell
  Safe-cell p =
      Safe-same (cell p) (λ s t a e. let same : s ≡ t = cc e in rw (← same) (Quiet-refl s, refl))
        (λ s t a e. tt)

  pub Safe-need :
      {A : Type 0} {H : Type 0} {b : Bool} {J : List Operand} (o : Option A)
      → Safe ty H b [] J (need o) (λ a. o ≡ some a)
  unfolding need
  Safe-need none = Safe-same (need none) (λ s t a e. cc e) (λ s t a e. cc e)
  Safe-need (some x) =
      Safe-same (need (some x))
        (λ s t a e. let same : s ≡ t = cc e in rw (← same) (Quiet-refl s, refl))
        (λ s t a e. ap some (cc e))

  Safe-put :
      {H : Type 0} {b : Bool} {J : List Operand} (m : M (Unit {0})) (p : Operand)
      (f : OperandCell → OperandCell)
      → ((s : TransState) → m s ≡ some (tt, put s p (f (s.store.heap p))))
      → ((c : OperandCell) → ((f c).type ≡ c.type) × ((f c).label_ref_cnt ≡ c.label_ref_cnt))
      → Safe ty H b [] J m (λ _. Unit)
  Safe-put m p f is same =
      Safe-same m
        (λ s t a e.
          let state : put s p (f (s.store.heap p)) ≡ t = cc (is s, e) in
          let (type, count) = same (s.store.heap p) in
          rw (← state) (Quiet-put s p (f (s.store.heap p)) type count, refl))
        (λ s t a e. tt)

  pub Safe-set_integer :
      {H : Type 0} {b : Bool} {J : List Operand} (p : Operand) (n : ℤ)
      → Safe ty H b [] J (set_integer p n) (λ _. Unit)
  unfolding set_integer
  Safe-set_integer p n =
      Safe-put (set_integer p n) p (λ c. record c { integer = n }) (λ s. refl) (λ c. (refl, refl))

  pub Safe-set_real :
      {H : Type 0} {b : Bool} {J : List Operand} (p : Operand) (n : ℕ)
      → Safe ty H b [] J (set_real p n) (λ _. Unit)
  unfolding set_real
  Safe-set_real p n =
      Safe-put (set_real p n) p (λ c. record c { real = n }) (λ s. refl) (λ c. (refl, refl))

  pub Safe-set_name :
      {H : Type 0} {b : Bool} {J : List Operand} (p : Operand) (n : List ℕ)
      → Safe ty H b [] J (set_name p n) (λ _. Unit)
  unfolding set_name
  Safe-set_name p n =
      Safe-put (set_name p n) p (λ c. record c { name = n }) (λ s. refl) (λ c. (refl, refl))

  pub Safe-set_size :
      {H : Type 0} {b : Bool} {J : List Operand} (p : Operand) (n : ℕ)
      → Safe ty H b [] J (set_size p n) (λ _. Unit)
  unfolding set_size
  Safe-set_size p n =
      Safe-put (set_size p n) p (λ c. record c { size = n }) (λ s. refl) (λ c. (refl, refl))

  pub Safe-set_base_type :
      {H : Type 0} {b : Bool} {J : List Operand} (p : Operand) (n : Option ℕ)
      → Safe ty H b [] J (set_base_type p n) (λ _. Unit)
  unfolding set_base_type
  Safe-set_base_type p n =
      Safe-put (set_base_type p n) p (λ c. record c { base_type = n }) (λ s. refl)
        (λ c. (refl, refl))

  pub Safe-trans_default :
      {H : Type 0} {b : Bool} {J : List Operand} → Safe ty H b [] J trans_default (λ _. Unit)
  unfolding trans_default
  Safe-trans_default =
      Safe-same trans_default
        (λ s t a e.
          let state : record s { unsupport = true } ≡ t = cc e in
          rw (← state) (
            record {
              next = refl;
              buf = refl;
              types = λ p. refl;
              sticky = λ h. refl;
              counts = λ p. refl;
            },
            refl,
          ))
        (λ s t a e. tt)

  pub Safe-enter_scope :
      {H : Type 0} {b : Bool} {J : List Operand} (p : ℕ)
      → Safe ty H b [] J (enter_scope p) (λ _. Unit)
  unfolding enter_scope push_symtab
  Safe-enter_scope p =
      Safe-same (enter_scope p)
        (λ s t a e.
          let state : record s { scopes = push_symtab p s.scopes } ≡ t = cc e in
          rw (← state) (
            record {
              next = refl;
              buf = refl;
              types = λ p. refl;
              sticky = λ h. h;
              counts = λ p. refl;
            },
            refl,
          ))
        (λ s t a e. tt)

  pub Safe-leave_scope :
      {H : Type 0} {b : Bool} {J : List Operand} (p : ℕ)
      → Safe ty H b [] J (leave_scope p) (λ _. Unit)
  unfolding leave_scope
  Safe-leave_scope p =
      Safe-same (leave_scope p)
        (λ s t a e. elim (Bool-cases (same_ptr (pop_symtab s.scopes).0 (some p))) [
          | inl c ↦
              let state : record s { scopes = (pop_symtab s.scopes).1 } ≡ t = cc (rw c at e) in
              rw (← state) (
                record {
                  next = refl;
                  buf = refl;
                  types = λ p. refl;
                  sticky = λ h. h;
                  counts = λ p. refl;
                },
                pop_symtab-tables s.scopes,
              )
          | inr c ↦ cc (rw c at e)
        ])
        (λ s t a e. tt)

  pub Safe-replace :
      {H : Type 0} {b : Bool} {J : List Operand} (newbie old : Operand)
      → Has H (IsDat ty (some newbie))
      → Has H (IsDat ty (some old))
      → Safe ty H b [] J (replace newbie old) (λ _. Unit)
  unfolding replace
  Safe-replace newbie old dn do' = record {
    later = λ s t a e.
        let state : record s { buf = (replace_operand_global newbie (some old) s.buf).1 } ≡ t =
          cc e in
        rw (← state) (record {
          next_le = omega arith;
          length_le = rw (length-replace newbie (some old) s.buf) (omega arith);
          bounded = λ h. rw (length-replace newbie (some old) s.buf) h;
          sticky = λ h. h;
          kept = λ p k. refl;
        });
    good = λ s t a e h agree inv p n.
        let state : record s { buf = (replace_operand_global newbie (some old) s.buf).1 } ≡ t =
          cc e in
        let same : (l : Operand)
            → marks l (replace_operand_global newbie (some old) s.buf).1 ≡ marks l s.buf =
          λ l. marks-replace ty.type_of newbie old (dn.get h).at (do'.get h).at l s.buf inv.typed in
        rw (← state) (record {
          inv = record {
            typed =
                Every-replace ty.type_of newbie old (dn.get h).at (do'.get h).at s.buf inv.typed;
            once = λ c l. rw (same l) (inv.once c l);
            fresh = λ l le. same l ∙ inv.fresh l le;
            counts = inv.counts;
            symbols = inv.symbols;
            first = first-replace newbie (some old) s.buf inv.first;
          };
          marked = λ l k o. same l;
          placed = λ l i. elim i [ ];
          targets = λ l k. inl (
              rw (refs-replace ty.type_of newbie old (dn.get h).at (do'.get h).at l s.buf inv.typed)
                at k);
          post = tt;
        });
  }
