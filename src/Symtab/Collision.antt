-- ===== src/Symtab/Collision.antt =====
-- When `insert` of cmm-symtab.c refuses a name.
use naivecc.Base.{
  ℕ, true, false, none, some, List, [], ◌∷◌, ◌++◌, ◌≡◌, ◌↔◌, refl, get_elem?, Bool-cases, inl, inr,
}
use naivecc.Base.Int.{ℤ}
use naivecc.Ir.Relop.{str_eq}
use naivecc.Symtab.{
  Symbol, Table, hash, append_loop, append_symbol, store_chain, new_symbol, insert,
}

append_loop-eq :
    (name : List ℕ) (head new : Symbol) (chain : List Symbol)
    → str_eq name head.symbol ≡ false
    → append_loop name head chain new ≡ some (chain ++ new ∷ [])
unfolding append_loop
append_loop-eq name head new [] d = refl
append_loop-eq name head new (x ∷ chain) d = rw d (rw (append_loop-eq name head new chain d) refl)

append_loop-none :
    (name : List ℕ) (head x new : Symbol) (chain : List Symbol)
    → str_eq name head.symbol ≡ true
    → append_loop name head (x ∷ chain) new ≡ none
unfolding append_loop
append_loop-none name head x new chain d = rw d refl

-- In a slot that holds symbols, `insert` refuses a name if and only if the first symbol of the
-- chain has it, whatever the names of the others.
pub insert-refuses :
    (name : List ℕ) (type : ℕ) (line : ℤ) (table : Table) (head : Symbol) (chain : List Symbol)
    → get_elem? table (hash name) ≡ some (head ∷ chain)
    → (insert name type line table ≡ some (none, table)) ↔ (str_eq name head.symbol ≡ true)
unfolding insert append_symbol store_chain
insert-refuses name type line table head chain slot = elim (Bool-cases (str_eq name head.symbol)) [
  | inl same ↦ (
    λ e. same,
    λ e.
        rw (insert, slot)
          (rw (append_loop-none name head head (new_symbol name type line) chain same) refl),
  )
  | inr differ ↦ (
    λ e. absurd (
        cc (
          rw (append_loop-eq name head (new_symbol name type line) (head ∷ chain) differ) at
            (rw (insert, slot) at e))),
    λ e. absurd (cc (e, differ)),
  )
]
