-- ===== src/Symtab/Lookup.antt =====
-- What `insert` and `query_without_fallback` of cmm-symtab.c promise each other.
use naivecc.Base.{
  ℕ, ◌<◌, true, false, Option, none, some, List, [], ◌∷◌, ◌==◌, ◌≡◌, refl, ◌∙◌, ap, arith,
  if◌then◌else◌, get_elem?, set, Bool-cases, Option-cases, inl, inr, eq_of_beq, beq_refl,
  get_elem?-set_self, get_elem?-set_ne, >>=-eq-some,
}
use naivecc.Base.Int.{ℤ}
use naivecc.Ir.Relop.{str_eq}
use naivecc.Symtab.{
  Symbol, Table, hash, hash_from, hash_step, append_loop, append_symbol, new_symbol, insert,
  store_chain, scan_chain, query_without_fallback,
}

-- A name of bytes.
abbrev pub Bytes : List ℕ → Type 0
Bytes [] = Unit {0}
Bytes (c ∷ name) = (c < 256) × Bytes name

hash_step-lt : (val c : ℕ) → val < 64 → c < 256 → hash_step val c < 64
unfolding hash_step
hash_step-lt val c v h = ground arith

hash_from-lt : (val : ℕ) (name : List ℕ) → val < 64 → Bytes name → hash_from val name < 64
unfolding hash_from
hash_from-lt val [] v b = v
hash_from-lt val (c ∷ name) v b = hash_from-lt (hash_step val c) name (hash_step-lt val c v b.0) b.1

-- The hash of a name of bytes is below 64; the tables have 63 slots.
pub hash-lt : (name : List ℕ) → Bytes name → hash name < 64
unfolding hash
hash-lt name b = hash_from-lt 0 name (omega arith) b

pub eq_of_str_eq : (a b : List ℕ) → str_eq a b ≡ true → a ≡ b
unfolding str_eq
eq_of_str_eq [] [] h = refl
eq_of_str_eq [] (c ∷ b) h = cc
eq_of_str_eq (c ∷ a) [] h = cc
eq_of_str_eq (c ∷ a) (d ∷ b) h = elim (Bool-cases (c == d)) [
  | inl e ↦ rw (eq_of_beq c d e) (ap (λ t. d ∷ t) (eq_of_str_eq a b (rw e at h)))
  | inr e ↦ absurd (cc (rw e at h))
]

pub str_eq_refl : (a : List ℕ) → str_eq a a ≡ true
unfolding str_eq
str_eq_refl [] = refl
str_eq_refl (c ∷ a) = rw (beq_refl c) (str_eq_refl a)

-- The scan of a chain with `new` at its end.
abbrev pub after : List ℕ → Symbol → Option Symbol → Option Symbol
after q new (some x) = some x
after q new none = if str_eq q new.symbol then some new else none

scan_chain-append_loop :
    (sym q : List ℕ) (head new : Symbol) (chain r : List Symbol)
    → append_loop sym head chain new ≡ some r
    → scan_chain q r ≡ after q new (scan_chain q chain)
unfolding append_loop scan_chain
scan_chain-append_loop sym q head new [] r e =
    let e' : new ∷ [] ≡ r = ground arith in rw (← e') (ground arith)
scan_chain-append_loop sym q head new (x ∷ chain) r e = elim (Bool-cases (str_eq sym head.symbol)) [
  | inl c ↦ absurd (cc (rw c at e))
  | inr c ↦
      let (xs, found, e') =
        >>=-eq-some (append_loop sym head chain new) (λ xs. some (x ∷ xs)) (rw c at e) in
      let e'' : x ∷ xs ≡ r = ground arith in
      let rec = scan_chain-append_loop sym q head new chain xs found in
      rw (← e'') (elim (Bool-cases (str_eq q x.symbol)) [ inl d ↦ rw d refl | inr d ↦ rw d rec ])
]

pub scan_chain-append_symbol :
    (sym q : List ℕ) (new : Symbol) (chain r : List Symbol)
    → append_symbol sym chain new ≡ some r
    → scan_chain q r ≡ after q new (scan_chain q chain)
unfolding append_symbol
scan_chain-append_symbol sym q new [] r e = scan_chain-append_loop sym q new new [] r e
scan_chain-append_symbol sym q new (x ∷ chain) r e =
    scan_chain-append_loop sym q x new (x ∷ chain) r e

stored :
    (sym : List ℕ) (type : ℕ) (line : ℤ) (table table' : Table) (new : Symbol) (chain : List Symbol)
    → some (
        store_chain
          (hash sym)
          (new_symbol sym type line)
          table
          (append_symbol sym chain (new_symbol sym type line)))
      ≡ some (some new, table')
    → (chain' : List Symbol) × (append_symbol sym chain new ≡ some chain')
      × (new_symbol sym type line ≡ new)
      × (set table (hash sym) chain' ≡ table')
unfolding store_chain
stored sym type line table table' new chain e =
    elim (Option-cases (append_symbol sym chain (new_symbol sym type line))) [
      | inr c ↦ absurd (cc (rw c at e))
      | inl (chain', c) ↦
          let e' = rw c at e in
          let n : new_symbol sym type line ≡ new = cc e' in (chain', rw (← n) c, n, cc e')
    ]

inside : {A : Type 0} {x y : A} → some x ≡ some y → x ≡ y
inside e = cc e

other_name :
    (sym : List ℕ) (type : ℕ) (line : ℤ) (q : List ℕ) (new : Symbol)
    → new_symbol sym type line ≡ new
    → (hash sym == hash q) ≡ false
    → str_eq q new.symbol ≡ false
other_name sym type line q new n c = elim (Bool-cases (str_eq q new.symbol)) [
  | inr d ↦ d
  | inl d ↦
      let same : q ≡ sym = eq_of_str_eq q sym (rw (← n) at d) in
      absurd (cc (beq_refl (hash sym), c, same))
]

after-miss :
    (q : List ℕ) (new : Symbol) (old : Option Symbol)
    → str_eq q new.symbol ≡ false
    → old ≡ after q new old
after-miss q new none h = rw h refl
after-miss q new (some x) h = refl

-- A table in which `insert` stored a symbol finds everything that it found before, and the new
-- symbol under its own name if there was none of that name.
pub query-insert :
    (sym : List ℕ) (type : ℕ) (line : ℤ) (table table' : Table) (new : Symbol) (q : List ℕ)
    (old : Option Symbol)
    → insert sym type line table ≡ some (some new, table')
    → query_without_fallback q table ≡ some old
    → query_without_fallback q table' ≡ some (after q new old)
unfolding insert query_without_fallback
query-insert sym type line table table' new q old e found =
    let (chain, slot, e1) = >>=-eq-some (get_elem? table (hash sym)) _ e in
    let (chain', added, n, t) = stored sym type line table table' new chain e1 in
    let (chain_q, slot_q, old_is) = >>=-eq-some (get_elem? table (hash q)) _ found in
    elim (Bool-cases (hash sym == hash q)) [
      | inl c ↦
          let same : hash sym ≡ hash q = eq_of_beq _ _ c in
          let same_chain : chain ≡ chain_q = cc (slot, slot_q, same) in
          let now : get_elem? table' (hash q) ≡ some chain' =
            rw (← same, ← t) (get_elem?-set_self table (hash sym) chain' slot) in
          rw now (
            ap some (
              scan_chain-append_symbol sym q new chain chain' added
              ∙ ap (after q new) (rw same_chain refl ∙ inside old_is)))
      | inr c ↦
          let now : get_elem? table' (hash q) ≡ some chain_q =
            rw (← t) (get_elem?-set_ne table (hash sym) (hash q) chain' c ∙ slot_q) in
          rw now
            (ap some (inside old_is ∙ after-miss q new old (other_name sym type line q new n c)))
    ]
