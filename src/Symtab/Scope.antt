-- ===== src/Symtab/Scope.antt =====
-- The stack of scopes of cmm-symtab.c, and the slot that its tables lack.
use naivecc.Base.{
  ℕ, zero, suc, ◌<◌, ◌≤◌, ◌↔◌, Option, none, some, List, [], ◌∷◌, ◌++◌, ◌≡◌, refl, arith, length,
  get_elem?, >>=-eq-some, Option-cases, inl, inr, get_elem?-none,
}
use naivecc.Base.Int.{ℤ}
use naivecc.Symtab.{
  Symbol, Table, Scopes, size, hash, insert, query_without_fallback, scan_chain, query_in, query,
  push_symtab, new_symtab, pop_symtab, empty_slots,
}
use naivecc.Symtab.Lookup.{Bytes, hash-lt}

tables-append :
    (tables : List Table) (t : Table) (p : ℕ) {x : Table}
    → get_elem? tables p ≡ some x
    → get_elem? (tables ++ t ∷ []) p ≡ some x
tables-append [] t p e = cc
tables-append (y ∷ ys) t zero e = e
tables-append (y ∷ ys) t (suc p) e = tables-append ys t p e

last_table :
    (tables : List Table) (t : Table) → get_elem? (tables ++ t ∷ []) (length tables) ≡ some t
last_table [] t = refl
last_table (y ∷ ys) t = last_table ys t

-- The symbol found in a scope, and where there is none the result for the outer ones.
outer_scopes :
    {a b : Option (Option Symbol)} (found : Option Symbol) {r : Option Symbol}
    → (a ≡ some r → b ≡ some r)
    → (elim found [ none ↦ a | some y ↦ some (some y) ]) ≡ some r
    → (elim found [ none ↦ b | some y ↦ some (some y) ]) ≡ some r
outer_scopes none k h = k h
outer_scopes (some y) k h = h

query_in-append :
    (tables : List Table) (t : Table) (sym : List ℕ) (scopes : List ℕ) {r : Option Symbol}
    → query_in tables sym scopes ≡ some r
    → query_in (tables ++ t ∷ []) sym scopes ≡ some r
unfolding query_in
query_in-append tables t sym [] e = e
query_in-append tables t sym (p ∷ scopes) e =
    let (x, slot, e1) = >>=-eq-some (get_elem? tables p) _ e in
    let (found, here, e2) = >>=-eq-some (query_without_fallback sym x) _ e1 in
    rw (tables-append tables t p slot)
      (rw here (outer_scopes found (λ h. query_in-append tables t sym scopes h) e2))

le_of_none : (table : Table) (i : ℕ) → get_elem? table i ≡ none → length table ≤ i
le_of_none [] i e = omega arith
le_of_none (x ∷ xs) zero e = cc
le_of_none (x ∷ xs) (suc i) e = omega (arith, le_of_none xs i e)

empty_slots-at : (n i : ℕ) → i < n → get_elem? (empty_slots n) i ≡ some []
empty_slots-at zero i h = absurd (omega arith)
empty_slots-at (suc n) zero h = refl
empty_slots-at (suc n) (suc i) h = empty_slots-at n i (omega arith)

-- A name whose slot exists and that `query` finds, or does not find, gives the same in a scope
-- opened by `new_symtab`, and again when `pop_symtab` has closed it.
pub query-new_symtab :
    (name : List ℕ) (s : Scopes) (r : Option Symbol)
    → hash name < size
    → query name s ≡ some r
    → (query name (new_symtab s) ≡ some r) × (query name (pop_symtab (new_symtab s)).1 ≡ some r)
unfolding query new_symtab push_symtab pop_symtab query_in query_without_fallback scan_chain
query-new_symtab name s r inside found =
    let kept = query_in-append s.tables (empty_slots size) name s.scopes found in
    (
      rw (last_table s.tables (empty_slots size))
          (rw (empty_slots-at size (hash name) inside) kept),
      kept,
    )

-- On a table of the size that `new_symtab` allocates, `insert` leaves the array exactly for the
-- names of hash 63.
pub insert-out_of_bounds :
    (name : List ℕ) (type : ℕ) (line : ℤ) (table : Table)
    → Bytes name
    → length table ≡ size
    → (insert name type line table ≡ none) ↔ (hash name ≡ 63)
unfolding insert
insert-out_of_bounds name type line table b full = (
  λ e. elim (Option-cases (get_elem? table (hash name))) [
    | inl (chain, c) ↦ absurd (cc (rw c at e))
    | inr c ↦ omega (arith, le_of_none table (hash name) c, hash-lt name b)
  ],
  λ e. rw (get_elem?-none table (hash name) (omega arith)) refl,
)
