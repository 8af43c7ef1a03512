-- ===== src/Tests/Tables.antt =====
-- The registers, the symbol tables and the string table on small data.
use naivecc.Base.{
  ℕ, zero, suc, Bool, true, false, Option, none, some, List, [], ◌∷◌, ◌≡◌, ◌↔◌, refl, arith,
  get_elem?, set,
}
use naivecc.Base.Int.{pos, ◌-ℤ◌}
use naivecc.Operand.{Operand, OpeType, zeroed}
use naivecc.Register.{allocate, remove_value, reg_group, get_reg}
use naivecc.Register.Code.{AsmState, sw, sp}
use naivecc.Register.Select.{allocate_unique}
use naivecc.Symtab.{
  Symbol, size, hash, insert, query, query_without_fallback, new_symbol, new_symtab, pop_symtab,
  init_symtab, empty_slots,
}
use naivecc.Symtab.Lookup.{after, query-insert}
use naivecc.Ir.Relop.{str_eq}
use naivecc.Symtab.Collision.{insert-refuses}
use naivecc.Symtab.Scope.{insert-out_of_bounds, query-new_symtab}
use naivecc.Strtab.{init_strtab, register_str}
use naivecc.Strtab.Intern.{Registered, init_strtab-IsValid, register_str-Registered}

abbrev regs : ℕ → List (Option Operand)
regs zero = []
regs (suc n) = some 1 ∷ regs n

abbrev dirty : ℕ → List Bool
dirty zero = []
dirty (suc n) = false ∷ dirty n

-- Every register holds the variable 1, and 2 is allocated.
abbrev asm_state : AsmState
asm_state = record {
  heap = λ p. zeroed OpeType.var;
  ope_in_reg = regs 32;
  behind = none;
  dirty = dirty 32;
  sp_offset = pos 0;
  curr_func = none;
  nr_arg = 0;
  out = [];
}

abbrev a_name : List ℕ
a_name = b'a' ∷ []

abbrev b_name : List ℕ
b_name = b'b' ∷ []

-- A name of hash 63.
abbrev bp_name : List ℕ
bp_name = b'b' ∷ b'p' ∷ []

abbrev allocated : AsmState
allocated = record asm_state { ope_in_reg = set (regs 32) 16 (some 2); out = sw 16 (pos 0) sp ∷ [] }

allocate_unique_example : (get_elem? allocated.ope_in_reg 16 ≡ some (some 2)) ↔ ◌≡◌ {A = ℕ} 16 16
unfolding allocate remove_value reg_group get_reg ◌-ℤ◌
allocate_unique_example = allocate_unique 2 asm_state allocated 16 refl 16

abbrev a_symbol : Symbol
a_symbol = new_symbol a_name 7 (pos 1)

query-insert_example :
    query_without_fallback a_name (set (empty_slots size) 32 (a_symbol ∷ []))
    ≡ some (after a_name a_symbol none)
unfolding insert query_without_fallback
query-insert_example =
    query-insert a_name 7 (pos 1) (empty_slots size) (set (empty_slots size) 32 (a_symbol ∷ []))
      a_symbol a_name none refl refl

insert-out_of_bounds_example :
    (insert bp_name 7 (pos 1) (empty_slots size) ≡ none) ↔ (hash bp_name ≡ 63)
insert-out_of_bounds_example =
    insert-out_of_bounds bp_name 7 (pos 1) (empty_slots size) (omega arith, (omega arith, tt)) refl

query-new_symtab_example :
    (query a_name (new_symtab (new_symtab (init_symtab []))) ≡ some none)
    × (query a_name (pop_symtab (new_symtab (new_symtab (init_symtab [])))).1 ≡ some none)
unfolding query new_symtab init_symtab hash
query-new_symtab_example =
    query-new_symtab a_name (new_symtab (init_symtab [])) none (omega arith) refl

register_str-Registered_example : Registered a_name init_strtab (register_str a_name init_strtab)
register_str-Registered_example = register_str-Registered a_name init_strtab init_strtab-IsValid

insert-refuses_example :
    (insert a_name 7 (pos 1) (set (empty_slots size) 32 (a_symbol ∷ []))
      ≡ some (none, set (empty_slots size) 32 (a_symbol ∷ [])))
    ↔ (str_eq a_name a_symbol.symbol ≡ true)
unfolding hash
insert-refuses_example =
    insert-refuses a_name 7 (pos 1) (set (empty_slots size) 32 (a_symbol ∷ [])) a_symbol [] refl
