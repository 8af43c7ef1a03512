-- ===== src/Translate.antt =====
-- translate.c: the state of the translation, its commands, and what one node of the syntax tree
-- is to the node above it. `none` is undefined behaviour or a failed assertion: a read through
-- NULL, the member of a union that was not written, an overflow of `int`, a full buffer.
--
-- The attributes `dst`, `label_true` and `label_false` of a node are given by the node above before
-- its visit, and `dst` and `base` are read by that node after it; `translate_for` alone reads
-- `label_true` after a visit that may have overwritten it. Each node is visited once, so they are
-- arguments and results.
pub mod Exp
pub mod Index
pub mod Call
pub mod Safe
pub mod Cond
pub mod Stmt
pub mod Def
pub mod Program
pub mod Loops
pub mod Keeps
pub mod Correct
pub mod Refuse
pub mod Balance
pub mod Progress
pub mod Fold
use naivecc.Base.{
  ℕ, Bool, true, Option, none, some, List, [], ◌∷◌, if◌then◌else◌, get_elem?, set, same_ptr,
}
use naivecc.Base.Int.{ℤ, pos}
use naivecc.Operand.{Operand, OpeType, OperandCell, Store, write, new_operand, same_ope_type}
use naivecc.Ir.{Buffer, new_instr}
use naivecc.Ir.Kinds.{IrType}
use naivecc.Preprocess.{replace_operand_global}
use naivecc.Symtab.{
  Table, Symbol, Scopes, scan_chain, hash, query, query_without_fallback, push_symtab, pop_symtab,
}
use naivecc.Ir.Relop.{str_eq}
use naivecc.Syntax.{Info}

-- The globals: the operands, the instructions, the symbol tables with their scopes, and whether
-- `translate_state` is `UNSUPPORT`.
pub record TransState : Type 0 where
  pub store : Store
  pub buf : Buffer
  pub scopes : Scopes
  pub unsupport : Bool

abbrev pub M : Type 0 → Type 0
M A = TransState → Option (A × TransState)

infixl 5 ◌>>=◌ ◌>>◌
unfoldable pub ◌>>=◌ : {A B : Type 0} → M A → (A → M B) → M B
◌>>=◌ m f s = elim (m s) [ none ↦ none | some r ↦ f r.0 r.1 ]

abbrev pub ◌>>◌ : {A B : Type 0} → M A → M B → M B
m >> k = m >>= λ _. k

unfoldable pub pure : {A : Type 0} → A → M A
pure a s = some (a, s)

unfoldable pub undefined : {A : Type 0} → M A
undefined s = none

-- A value that may be undefined, and a pointer that is read through.
unfoldable pub need : {A : Type 0} → Option A → M A
need none s = none
need (some a) s = some (a, s)

-- `new_operand(type)`
unfoldable pub operand : OpeType → M Operand
operand t s = let r = new_operand t s.store in some (r.0, record s { store = r.1 })

-- `*p`
unfoldable pub cell : Operand → M OperandCell
cell p s = some (s.store.heap p, s)

abbrev pub put : TransState → Operand → OperandCell → TransState
put s p c = record s { store = record s.store { heap = write s.store.heap p c } }

unfoldable pub set_integer : Operand → ℤ → M (Unit {0})
set_integer p n s = some (tt, put s p (record (s.store.heap p) { integer = n }))

unfoldable pub set_real : Operand → ℕ → M (Unit {0})
set_real p n s = some (tt, put s p (record (s.store.heap p) { real = n }))

unfoldable pub set_name : Operand → List ℕ → M (Unit {0})
set_name p n s = some (tt, put s p (record (s.store.heap p) { name = n }))

unfoldable pub set_size : Operand → ℕ → M (Unit {0})
set_size p n s = some (tt, put s p (record (s.store.heap p) { size = n }))

unfoldable pub set_base_type : Operand → Option ℕ → M (Unit {0})
set_base_type p t s = some (tt, put s p (record (s.store.heap p) { base_type = t }))

-- `new_instr(type, rs, rt, rd)`
unfoldable pub instr : IrType → Option Operand → Option Operand → Option Operand → M (Unit {0})
instr t rs rt rd s = elim (new_instr s.buf t rs rt rd) [
  | none ↦ none
  | some r ↦ some (tt, record s { buf = r.1 })
]

-- `replace_operand_global(newbie, old)`
unfoldable pub replace : Operand → Operand → M (Unit {0})
replace newbie old s =
    some (tt, record s { buf = (replace_operand_global newbie (some old) s.buf).1 })

-- `query(name)`, which is NULL where there is no such symbol.
unfoldable pub find_symbol : List ℕ → M (Option Symbol)
find_symbol name s = elim (query name s.scopes) [ none ↦ none | some r ↦ some (r, s) ]

-- `query_without_fallback(name, table)`
unfoldable pub find_field : List ℕ → ℕ → M (Option Symbol)
find_field name p s = elim (get_elem? s.scopes.tables p) [
  | none ↦ none
  | some t ↦ elim (query_without_fallback name t) [ none ↦ none | some r ↦ some (r, s) ]
]

-- A write to the field `address` of the first symbol of the name in a chain.
unfoldable pub address_in : List ℕ → Operand → List Symbol → List Symbol
address_in name p [] = []
address_in name p (x ∷ chain) =
    let rest = address_in name p chain in
    if str_eq name x.symbol then record x { address = some p } ∷ chain else x ∷ rest

-- The same of the symbol that `query` finds, which has to be there.
unfoldable pub address_at : List ℕ → Operand → List Table → List ℕ → Option (List Table)
unfolding address_in
address_at name p tables [] = none
address_at name p tables (t ∷ scopes) =
    let outer = address_at name p tables scopes in
    elim (get_elem? tables t) [
      | none ↦ none
      | some table ↦ elim (get_elem? table (hash name)) [
        | none ↦ none
        | some chain ↦ elim (scan_chain name chain) [
          | none ↦ outer
          | some x ↦ some (set tables t (set table (hash name) (address_in name p chain)))
        ]
      ]
    ]

-- `sym->address = p`, for the symbol that `query(name)` has found.
unfoldable pub set_address : List ℕ → Operand → M (Unit {0})
unfolding address_at
set_address name p s = elim (address_at name p s.scopes.tables s.scopes.scopes) [
  | none ↦ none
  | some tables ↦ some (tt, record s { scopes = record s.scopes { tables = tables } })
]

unfoldable pub enter_scope : ℕ → M (Unit {0})
enter_scope p s = some (tt, record s { scopes = push_symtab p s.scopes })

-- `pop_symtab` and the assertion that it returns `p`.
unfoldable pub leave_scope : ℕ → M (Unit {0})
leave_scope p s =
    let r = pop_symtab s.scopes in
    if same_ptr r.0 (some p) then some (tt, record s { scopes = r.1 }) else none

-- `trans_default`
unfoldable pub trans_default : M (Unit {0})
trans_default s = some (tt, record s { unsupport = true })

-- The attributes that an expression leaves in its node.
pub record Attr : Type 0 where
  pub dst : Option Operand
  pub base : Option Operand

-- A node for the node above it: its fields; the name in the first `TERM_ID` on the way down from it
-- along first children, and for each child of it the same; the visit by `translate_dispatcher`, from
-- the `dst` that was given; where that visit overwrites `label_true`, the same without a `dst`, and
-- with the label that it leaves there; and the visit by `translate_cond`, from its two labels.
pub record Visit : Type 0 where
  pub info : Info
  pub id_name : Option (List ℕ)
  pub child_names : List (Option (List ℕ))
  pub dispatch : Option Operand → M Attr
  pub relabel : Option (M Operand)
  pub cond : Operand → Operand → M (Unit {0})

-- `translate_dispatcher` on a first child that may be NULL.
unfoldable pub dispatch_first : List Visit → M (Unit {0})
dispatch_first [] = pure tt
dispatch_first (v ∷ vs) = do v.dispatch none; pure tt

-- The loop over a list of siblings.
unfoldable pub dispatch_all : List Visit → M (Unit {0})
dispatch_all [] = pure tt
dispatch_all (v ∷ vs) = do v.dispatch none; dispatch_all vs

-- `try_deref`: the operand that is the `dst` afterwards.
unfoldable pub try_deref : Option Operand → M Operand
try_deref none = undefined
try_deref (some p) = do
  c ← cell p
  if same_ope_type c.type OpeType.addr
      then (do t ← operand OpeType.temp; instr IrType.deref_r (some p) none (some t); pure t)
      else pure p
