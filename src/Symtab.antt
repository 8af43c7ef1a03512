-- ===== src/Symtab.antt =====
-- cmm-symtab.h and cmm-symtab.c: the hash tables of symbols and the stack of scopes. A table is
-- the list of its slots, a slot the list of its symbols in the order of `link`. An access out of
-- an array's bounds and a failed assertion are `none`. A `Type *` is a number, never null here.
pub mod Lookup
pub mod Scope
pub mod Collision
use Prim.Native.Nat.{bit_xor}
use naivecc.Base.{
  ℕ, zero, suc, ◌+◌, ◌*◌, ◌/◌, ◌%◌, ◌^◌, Bool, true, false, Option, none, some, List, [], ◌∷◌, ◌++◌,
  ◌==◌, if◌then◌else◌, ◌>>=◌, length, get_elem?, set,
}
use naivecc.Base.Int.{ℤ, pos}
use naivecc.Operand.{Operand}
use naivecc.Ir.Relop.{str_eq}

abbrev pub size : ℕ
size = 0x3f

pub record Symbol : Type 0 where
  pub symbol : List ℕ
  pub type : ℕ
  pub line : ℤ
  pub address : Option Operand
  pub offset : ℤ

abbrev pub Table : Type 0
Table = List (List Symbol)

-- One round of `hash`; `& SIZE` keeps the six low bits.
unfoldable pub hash_step : ℕ → ℕ → ℕ
hash_step val c =
    let val' = (val * 4 + c) % 2 ^ 32 in
    let i = (val' * size) % 2 ^ 32 in
    if i == 0 then val' else bit_xor val' (i / 2 ^ 12) % (size + 1)

unfoldable pub hash_from : ℕ → List ℕ → ℕ
unfolding hash_step
hash_from val [] = val
hash_from val (c ∷ name) = hash_from (hash_step val c) name

unfoldable pub hash : List ℕ → ℕ
unfolding hash_step hash_from
hash name = hash_from 0 name

-- The loop of `insert` to the end of the chain. Each round compares with `table[index]`, the head
-- of the chain; `none` is a collision.
unfoldable pub append_loop : List ℕ → Symbol → List Symbol → Symbol → Option (List Symbol)
append_loop sym head [] new = some (new ∷ [])
append_loop sym head (x ∷ chain) new =
    let rest = append_loop sym head chain new in
    if str_eq sym head.symbol then none else (do xs ← rest; some (x ∷ xs))

unfoldable pub append_symbol : List ℕ → List Symbol → Symbol → Option (List Symbol)
unfolding append_loop
append_symbol sym [] new = some (new ∷ [])
append_symbol sym (head ∷ chain) new = append_loop sym head (head ∷ chain) new

abbrev pub new_symbol : List ℕ → ℕ → ℤ → Symbol
new_symbol sym type line = record {
  symbol = sym;
  type = type;
  line = line;
  address = none;
  offset = pos 0;
}

-- The end of `insert` at slot `index`.
unfoldable pub store_chain : ℕ → Symbol → Table → Option (List Symbol) → Option Symbol × Table
store_chain index new table none = (none, table)
store_chain index new table (some chain) = (some new, set table index chain)

-- What `insert` returns, which is null on a collision, and the table afterwards.
unfoldable pub insert : List ℕ → ℕ → ℤ → Table → Option (Option Symbol × Table)
unfolding hash append_symbol store_chain
insert sym type line table = do
  chain ← get_elem? table (hash sym)
  let new = new_symbol sym type line
  some (store_chain (hash sym) new table (append_symbol sym chain new))

unfoldable pub scan_chain : List ℕ → List Symbol → Option Symbol
scan_chain sym [] = none
scan_chain sym (x ∷ chain) = if str_eq sym x.symbol then some x else scan_chain sym chain

-- The symbol, which is null where there is none.
unfoldable pub query_without_fallback : List ℕ → Table → Option (Option Symbol)
unfolding hash scan_chain
query_without_fallback sym table = do
  chain ← get_elem? table (hash sym)
  some (scan_chain sym chain)

-- The allocated tables, the stack of pointers to them with the top first, and its capacity;
-- `scope_cnt` is the length of the stack.
pub record Scopes : Type 0 where
  pub tables : List Table
  pub scopes : List ℕ
  pub scope_capacity : ℕ

unfoldable pub query_in : List Table → List ℕ → List ℕ → Option (Option Symbol)
unfolding query_without_fallback
query_in tables sym [] = some none
query_in tables sym (p ∷ scopes) =
    let outer = query_in tables sym scopes in
    (do
      table ← get_elem? tables p
      result ← query_without_fallback sym table
      elim result [ none ↦ outer | some x ↦ some (some x) ])

unfoldable pub query : List ℕ → Scopes → Option (Option Symbol)
unfolding query_in
query sym s = query_in s.tables sym s.scopes

-- `scopes[scope_cnt++] = p`, with room made before.
unfoldable pub push_symtab : ℕ → Scopes → Scopes
push_symtab p s = record s {
  scopes = p ∷ s.scopes;
  scope_capacity =
      if length s.scopes == s.scope_capacity then s.scope_capacity * 2 else s.scope_capacity;
}

-- `calloc(SIZE, sizeof(Symbol *))`
abbrev pub empty_slots : ℕ → Table
empty_slots zero = []
empty_slots (suc n) = [] ∷ empty_slots n

unfoldable pub new_symtab : Scopes → Scopes
unfolding push_symtab
new_symtab s =
    push_symtab (length s.tables) (record s { tables = s.tables ++ empty_slots size ∷ [] })

unfoldable pub init_symtab : List Table → Scopes
init_symtab tables = record { tables = tables; scopes = []; scope_capacity = 1 }

unfoldable pub pop_symtab : Scopes → Option ℕ × Scopes
pop_symtab s = elim s.scopes [ [] ↦ (none, s) | p ∷ rest ↦ (some p, record s { scopes = rest }) ]

unfoldable pub get_symtab_top : Scopes → Option ℕ
get_symtab_top s = elim s.scopes [ [] ↦ none | p ∷ rest ↦ some p ]
