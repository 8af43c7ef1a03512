-- ===== src/Translate/Safe/Symbols.antt =====
-- The commands on symbols: the address of a symbol is never a label.
use naivecc.Base.{
  ℕ, zero, suc, Bool, Option, none, some, List, [], ◌∷◌, ◌≡◌, refl, get_elem?, set, Bool-cases, inl,
  inr, >>=-eq-some, ◌>>=◌, Option-cases,
}
use naivecc.Operand.{Operand}
use naivecc.Symtab.{Symbol, Table, hash, scan_chain, query, query_in, query_without_fallback}
use naivecc.Ir.Relop.{str_eq}
use naivecc.Translate.{TransState, find_symbol, find_field, address_in, address_at, set_address}
use naivecc.Translate.Safe.{Setting, All, IsDat, SymbolsOk, Has, Safe}
use naivecc.Translate.Safe.Quiet.{Quiet, Quiet-refl, Safe-quiet}

All-get :
    {A : Type 0} (P : A → Type 0) (xs : List A) (i : ℕ) (x : A)
    → All P xs
    → get_elem? xs i ≡ some x
    → P x
All-get P [] i x h e = cc e
All-get P (y ∷ xs) zero x h e = let same : y ≡ x = cc e in rw (← same) h.0
All-get P (y ∷ xs) (suc i) x h e = All-get P xs i x h.1 e

pub All-set :
    {A : Type 0} (P : A → Type 0) (xs : List A) (i : ℕ) (x : A)
    → All P xs
    → P x
    → All P (set xs i x)
All-set P [] i x h p = tt
All-set P (y ∷ xs) zero x h p = (p, h.1)
All-set P (y ∷ xs) (suc i) x h p = (h.0, All-set P xs i x h.1 p)

module _ (ty : Setting) where
  abbrev pub HasData : Symbol → Type 0
  HasData x = IsDat ty x.address

  -- What a query returns.
  abbrev pub FoundOk : Option Symbol → Type 0
  FoundOk none = Unit
  FoundOk (some x) = HasData x

  scan_chain-FoundOk :
      (name : List ℕ) (chain : List Symbol) → All HasData chain → FoundOk (scan_chain name chain)
  unfolding scan_chain
  scan_chain-FoundOk name [] h = tt
  scan_chain-FoundOk name (x ∷ chain) h = elim (Bool-cases (str_eq name x.symbol)) [
    | inl c ↦ rw c h.0
    | inr c ↦ rw c (scan_chain-FoundOk name chain h.1)
  ]

  table-FoundOk :
      (name : List ℕ) (table : Table) (r : Option Symbol)
      → All (All HasData) table
      → query_without_fallback name table ≡ some r
      → FoundOk r
  unfolding query_without_fallback
  table-FoundOk name table r h e =
      let (chain, g, f) =
        >>=-eq-some (get_elem? table (hash name)) (λ chain. some (scan_chain name chain)) e in
      let same : scan_chain name chain ≡ r = cc f in
      rw (← same)
        (scan_chain-FoundOk name chain (All-get (All HasData) table (hash name) chain h g))

  query_in-FoundOk :
      (name : List ℕ) (tables : List Table) (scopes : List ℕ) (r : Option Symbol)
      → SymbolsOk ty tables
      → query_in tables name scopes ≡ some r
      → FoundOk r
  unfolding query_in
  query_in-FoundOk name tables [] r h e = let same : none ≡ r = cc e in rw (← same) tt
  query_in-FoundOk name tables (t ∷ scopes) r h e =
      let (table, g, e1) =
        >>=-eq-some (get_elem? tables t)
          (λ table. query_without_fallback name table >>= λ r. elim r [
            | none ↦ query_in tables name scopes
            | some x ↦ some (some x)
          ])
          e in
      let (found, q, e2) =
        >>=-eq-some (query_without_fallback name table)
          (λ r. elim r [ none ↦ query_in tables name scopes | some x ↦ some (some x) ]) e1 in
      let ok = table-FoundOk name table found (All-get (All (All HasData)) tables t table h g) q in
      by_found (λ k. query_in-FoundOk name tables scopes r h k) found ok e2
    where
      by_found :
          (query_in tables name scopes ≡ some r → FoundOk r)
          → (found : Option Symbol) → FoundOk found
          → ◌≡◌ {A = Option (Option Symbol)}
              (elim found [ none ↦ query_in tables name scopes | some x ↦ some (some x) ])
              (some r)
          → FoundOk r
      by_found outer none ok e = outer e
      by_found outer (some x) ok e = let same : some x ≡ r = cc e in rw (← same) ok

  address_in-ok :
      (name : List ℕ) (p : Operand) (chain : List Symbol)
      → IsDat ty (some p)
      → All HasData chain
      → All HasData (address_in name p chain)
  unfolding address_in
  address_in-ok name p [] d h = tt
  address_in-ok name p (x ∷ chain) d h = elim (Bool-cases (str_eq name x.symbol)) [
    | inl c ↦ rw c (d, h.1)
    | inr c ↦ rw c (h.0, address_in-ok name p chain d h.1)
  ]

  address_at-SymbolsOk :
      (name : List ℕ) (p : Operand) (tables : List Table) (scopes : List ℕ) (r : List Table)
      → IsDat ty (some p)
      → SymbolsOk ty tables
      → address_at name p tables scopes ≡ some r
      → SymbolsOk ty r
  unfolding address_at
  address_at-SymbolsOk name p tables [] r d h e = cc e
  address_at-SymbolsOk name p tables (t ∷ scopes) r d h e =
      elim (Option-cases (get_elem? tables t)) [
        | inr g ↦ cc (rw (g, address_at) at e)
        | inl (table, g) ↦
            let e1 = rw (g, address_at) at e in
            let ok = All-get (All (All HasData)) tables t table h g in
            elim (Option-cases (get_elem? table (hash name))) [
              | inr k ↦ cc (rw k at e1)
              | inl (chain, k) ↦
                  let e2 = rw k at e1 in
                  let ok' = All-get (All HasData) table (hash name) chain ok k in
                  elim (Option-cases (scan_chain name chain)) [
                    | inr q ↦ address_at-SymbolsOk name p tables scopes r d h (rw q at e2)
                    | inl (x, q) ↦
                        let same : set tables t (set table (hash name) (address_in name p chain))
                            ≡ r =
                          cc (rw q at e2) in
                        rw (← same) (
                          All-set (All (All HasData)) tables t _ h (
                            All-set (All HasData) table (hash name) _ ok
                              (address_in-ok name p chain d ok')))
                  ]
            ]
      ]

module _ {ty : Setting} where
  pub Safe-find_symbol :
      {H : Type 0} {b : Bool} {J : List Operand} (name : List ℕ)
      → Safe ty H b [] J (find_symbol name) (FoundOk ty)
  unfolding find_symbol query
  Safe-find_symbol name =
      Safe-quiet (find_symbol name) (λ s t a e. (found s t a e).0)
        (λ s t a e h ok.
          let (q, same, f) = found s t a e in
          (rw same ok, query_in-FoundOk ty name s.scopes.tables s.scopes.scopes a ok f))
    where
      found :
          (s t : TransState) (a : Option Symbol)
          → find_symbol name s ≡ some (a, t)
          → Quiet s t
            × (t.scopes ≡ s.scopes)
            × (query_in s.scopes.tables name s.scopes.scopes ≡ some a)
      found s t a e = elim (Option-cases (query name s.scopes)) [
        | inr g ↦ cc (rw (g, find_symbol) at e)
        | inl (r, g) ↦
            let e1 = rw (g, find_symbol) at e in
            let state : s ≡ t = cc e1 in
            let same : r ≡ a = cc e1 in
            (rw (← state) (Quiet-refl s), rw (← state) refl, rw (← same) g)
      ]

  pub Safe-find_field :
      {H : Type 0} {b : Bool} {J : List Operand} (name : List ℕ) (p : ℕ)
      → Safe ty H b [] J (find_field name p) (FoundOk ty)
  unfolding find_field
  Safe-find_field name p =
      Safe-quiet (find_field name p)
        (λ s t a e. let state : s ≡ t = (found s t a e).3 in rw (← state) (Quiet-refl s))
        (λ s t a e h ok.
          let (table, g, q, state) = found s t a e in
          (
            rw (← state) ok,
            table-FoundOk ty name table a
                (All-get (All (All (HasData ty))) s.scopes.tables p table ok g) q,
          ))
    where
      found :
          (s t : TransState) (a : Option Symbol)
          → find_field name p s ≡ some (a, t)
          → (table : Table) × (get_elem? s.scopes.tables p ≡ some table)
            × (query_without_fallback name table ≡ some a)
            × (s ≡ t)
      found s t a e = elim (Option-cases (get_elem? s.scopes.tables p)) [
        | inr g ↦ cc (rw (g, find_field) at e)
        | inl (table, g) ↦
            let e1 = rw (g, find_field) at e in
            elim (Option-cases (query_without_fallback name table)) [
              | inr q ↦ cc (rw q at e1)
              | inl (r, q) ↦
                  let e2 = rw q at e1 in
                  let same : r ≡ a = cc e2 in (table, g, rw (← same) q, cc e2)
            ]
      ]

  pub Safe-set_address :
      {H : Type 0} {b : Bool} {J : List Operand} (name : List ℕ) (p : Operand)
      → Has H (IsDat ty (some p))
      → Safe ty H b [] J (set_address name p) (λ _. Unit)
  unfolding set_address
  Safe-set_address name p d =
      Safe-quiet (set_address name p)
        (λ s t a e.
          let (tables, g, state) = found s t a e in
          rw (← state) (record {
            next = refl;
            buf = refl;
            types = λ p. refl;
            sticky = λ h. h;
            counts = λ p. refl;
          }))
        (λ s t a e h ok.
          let (tables, g, state) = found s t a e in
          (
            rw (← state) (
                address_at-SymbolsOk ty name p s.scopes.tables s.scopes.scopes tables (d.get h) ok
                  g),
            tt,
          ))
    where
      found :
          (s t : TransState) (a : Unit {0})
          → set_address name p s ≡ some (a, t)
          → (tables : List Table) × (address_at name p s.scopes.tables s.scopes.scopes
              ≡ some tables)
            × (record s { scopes = record s.scopes { tables = tables } } ≡ t)
      found s t a e = elim (Option-cases (address_at name p s.scopes.tables s.scopes.scopes)) [
        | inr g ↦ cc (rw (g, set_address) at e)
        | inl (tables, g) ↦ (tables, g, cc (rw (g, set_address) at e))
      ]
