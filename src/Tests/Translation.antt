-- ===== src/Tests/Translation.antt =====
-- Translation, applied to the program
--   int main() { int x; while (x < 3) x = x + 1; return x; }
use naivecc.Base.{
  ◌≢◌, ℕ, ◌+◌, zero, suc, Bool, true, false, Option, none, some, List, [], ◌∷◌, ◌≡◌, refl, set,
  take, get_elem?, ◌⊎◌, ◌↔◌, map,
}
use naivecc.Base.Int.{ℤ, pos}
use naivecc.Machine.{step, stuck, Outcome, Halts}
use naivecc.Preprocess.{Code, preprocess_ir}
use naivecc.Preprocess.Inv.{IsWellFormed}
use naivecc.Preprocess.Peephole.Facts.{Entry}
use naivecc.Preprocess.Compress.Filter.{without_nops}
use naivecc.Translate.Correct.{
  IsStart, code_of, translate_tree-IsWellFormed, translate_tree-preprocess_ir,
  translate_tree-functions,
}
use naivecc.Translate.Balance.Whole.{translate_tree-stack}
use naivecc.Translate.Progress.{translate_tree-step}
use naivecc.Translate.Refuse.{first, later, translate-refuses}
use naivecc.Syntax.Shape.{siblings, all_siblings, create_tree-children}
use naivecc.Translate.Fold.{Folded, combine-calc_const, times}
use naivecc.Translate.Loops.{plain_loops}
use naivecc.Ir.{Ir, blank_ir}
use naivecc.Ir.Kinds.{IrType, ir_code}
use naivecc.Translate.Safe.{All}
use naivecc.Translate.Safe.Symbols.{All-set}
use naivecc.Tests.Program.{sample_machine}
use naivecc.Translate.{
  ◌>>=◌, pure, undefined, need, operand, cell, set_integer, set_real, set_name, set_size,
  set_base_type, instr, replace, find_symbol, find_field, address_in, address_at, set_address,
  enter_scope, leave_scope, trans_default, dispatch_first, dispatch_all, try_deref, TransState,
}
use naivecc.Translate.Exp.{
  integer_operand, float_operand, translate_exp_is_id, translate_exp_is_const, assign_to,
  translate_exp_is_assign, translate_exp_is_exp, translate_unary_operation, op_char, fold_int,
  fold_float, emit_binary, combine, translate_binary_operation, translate_exp_is_exp_field,
}
use naivecc.Translate.Index.{
  scale, split_base, is_zero, add_offset, element, translate_exp_is_exp_idx,
}
use naivecc.Translate.Call.{
  is_reference, by_address, pass_arg, write_call, common_call, own_dst, translate_call,
}
use naivecc.Translate.Cond.{
  translate_cond_exp, translate_cond_not, translate_cond_relop, translate_cond_and,
  translate_cond_or, translate_cond, value_false, value_true, translate_cond_prepare,
  prepare_labels,
}
use naivecc.Translate.Stmt.{
  body_then, translate_for, translate_while, translate_if_else, translate_if, translate_return,
  translate_compst, translate_stmt_is_compst, translate_stmt_is_exp,
}
use naivecc.Translate.Def.{
  second_name, first_name, translate_param, translate_params, translate_func_head, is_basic,
  declare, initialize, translate_dec_is_vardec, translate_def_is_spec_dec, translate_extdef_spec,
  translate_extdef_func, translate_ast,
}
use naivecc.Translate.Program.{
  relabelled, without_attr, is_logic, name_from, visitor_at, dispatcher, visit, visits,
  translate_tree, translate,
}
use naivecc.Operand.{calc_const, is_const, new_operand, write, new_cell, FloatOps, OpeType, zeroed}
use naivecc.Ir.{new_instr}
use naivecc.Ir.Relop.{get_relop, str_eq}
use naivecc.Symtab.{
  query, query_without_fallback, hash, scan_chain, push_symtab, pop_symtab, Symbol, Table,
  new_symbol, empty_slots, size,
}
use naivecc.CmmType.{typecmp, new_type, Types, TypeClass}
use naivecc.Syntax.{
  val_s, val_i, val_f, Tag, Tree, nil, node, Val, str_val, int_val, body_size, create_tree,
  zero_info,
}
use naivecc.Preprocess.{replace_operand_global, replace_in, swap_ptr}

abbrev x_name : List ℕ
x_name = b'x' ∷ []

abbrev main_name : List ℕ
main_name = b'm' ∷ b'a' ∷ b'i' ∷ b'n' ∷ []

abbrev plain : Tag → Tree → Tree → Tree
plain tag child sibling = node (zero_info tag 1) child sibling

abbrev with_val : Tag → Val → Tree → Tree → Tree
with_val tag v child sibling = node (record (zero_info tag 1) { val = v }) child sibling

abbrev var_x : Tree → Tree
var_x sibling = plain Tag.exp_is_id (with_val Tag.term_id (str_val x_name) nil nil) sibling

abbrev number : ℤ → Tree
number n = plain Tag.exp_is_int (with_val Tag.term_int (int_val n) nil nil) nil

abbrev loop_stmt : Tree
loop_stmt =
    plain Tag.stmt_is_exp
      (plain Tag.exp_is_assign
        (var_x (with_val Tag.exp_is_binary (str_val (b'+' ∷ [])) (var_x (number (pos 1))) nil)) nil)
      nil

abbrev body : Tree
body =
    plain Tag.def_is_spec_dec
      (plain Tag.spec_is_type nil (
        plain Tag.dec_is_vardec
          (plain Tag.vardec_is_id (with_val Tag.term_id (str_val x_name) nil nil) nil) nil))
      (plain Tag.stmt_is_while
        (with_val Tag.exp_is_relop (str_val (b'<' ∷ [])) (var_x (number (pos 3))) loop_stmt)
        (plain Tag.stmt_is_return (var_x nil) nil))

abbrev main_function : Tree → Tree
main_function sibling =
    node (record (zero_info Tag.extdef_is_spec_func_compst 1) { sema_symtab = some 0 })
      (plain Tag.spec_is_type nil (
        plain Tag.func_is_id_var (with_val Tag.term_id (str_val main_name) nil nil)
          (plain Tag.compst_is_def_stmt body nil)))
      sibling

abbrev program : Tree
program = plain Tag.prog_is_extdef (main_function nil) nil

-- The same with a global variable.
abbrev global_program : Tree
global_program = main_function (plain Tag.extdef_is_spec_extdec nil nil)

abbrev floats : FloatOps
floats = record {
  add = λ a b. a;
  sub = λ a b. a;
  mul = λ a b. a;
  div = λ a b. a;
  neg = λ a. a;
  eq = λ a b. true;
}

abbrev all_int : Types
unfolding new_type
all_int p = new_type TypeClass.int [] none none

abbrev x_table : Table
unfolding hash
x_table = set (empty_slots size) (hash x_name) (new_symbol x_name 0 (pos 1) ∷ [])

abbrev start : TransState
start = record {
  store = record { heap = λ p. zeroed OpeType.not_used; next = 0; nr_ope = 0; nr_label = 0 };
  buf = [];
  scopes = record { tables = x_table ∷ []; scopes = []; scope_capacity = 1 };
  unsupport = false;
}

abbrev Unplaced : List Symbol → Type 0
Unplaced = All (λ (x : Symbol). x.address ≡ none)

empty_slots-Unplaced : (n : ℕ) → All Unplaced (empty_slots n)
empty_slots-Unplaced zero = tt
empty_slots-Unplaced (suc n) = (tt, empty_slots-Unplaced n)

start-IsStart : IsStart start
unfolding hash
start-IsStart = record {
  empty = refl;
  counts = λ p. refl;
  unplaced = (
    All-set Unplaced (empty_slots size) (hash x_name) (new_symbol x_name 0 (pos 1) ∷ [])
        (empty_slots-Unplaced size) (refl, tt),
    tt,
  );
}

abbrev is_some : {A : Type 0} → Option A → Bool
is_some none = false
is_some (some a) = true

abbrev state_of : Option (Unit {0} × TransState) → TransState
state_of none = start
state_of (some r) = r.1

some-state_of : (o : Option (Unit {0} × TransState)) → is_some o ≡ true → o ≡ some (tt, state_of o)
some-state_of none h = cc h
some-state_of (some r) h = refl

abbrev translated : TransState
translated = state_of (translate_tree floats all_int program start)

program-translated : is_some (translate_tree floats all_int program start) ≡ true
unfolding ◌>>=◌ pure undefined need operand cell set_integer set_real set_name set_size
    set_base_type instr replace find_symbol find_field address_in address_at set_address enter_scope
    leave_scope trans_default dispatch_first dispatch_all try_deref integer_operand float_operand
    translate_exp_is_id translate_exp_is_const assign_to translate_exp_is_assign scale split_base
    is_zero add_offset element translate_exp_is_exp_idx translate_exp_is_exp
    translate_unary_operation op_char fold_int fold_float emit_binary combine
    translate_binary_operation translate_exp_is_exp_field is_reference by_address pass_arg
    write_call common_call own_dst translate_call translate_cond_exp translate_cond_not
    translate_cond_relop translate_cond_and translate_cond_or translate_cond value_false value_true
    translate_cond_prepare prepare_labels relabelled body_then translate_for translate_while
    translate_if_else translate_if translate_return translate_compst translate_stmt_is_compst
    translate_stmt_is_exp second_name first_name translate_param translate_params
    translate_func_head is_basic declare initialize translate_dec_is_vardec
    translate_def_is_spec_dec translate_extdef_spec translate_extdef_func translate_ast without_attr
    is_logic name_from visitor_at dispatcher visit visits translate_tree new_operand write new_cell
    new_instr get_relop str_eq query query_without_fallback hash scan_chain push_symtab pop_symtab
    typecmp new_type val_s val_i val_f replace_operand_global replace_in swap_ptr
program-translated = refl

program-head : get_elem? translated.buf 0 ≡ some (blank_ir IrType.func (some 0) none none)
unfolding ◌>>=◌ pure undefined need operand cell set_integer set_real set_name set_size
    set_base_type instr replace find_symbol find_field address_in address_at set_address enter_scope
    leave_scope trans_default dispatch_first dispatch_all try_deref integer_operand float_operand
    translate_exp_is_id translate_exp_is_const assign_to translate_exp_is_assign scale split_base
    is_zero add_offset element translate_exp_is_exp_idx translate_exp_is_exp
    translate_unary_operation op_char fold_int fold_float emit_binary combine
    translate_binary_operation translate_exp_is_exp_field is_reference by_address pass_arg
    write_call common_call own_dst translate_call translate_cond_exp translate_cond_not
    translate_cond_relop translate_cond_and translate_cond_or translate_cond value_false value_true
    translate_cond_prepare prepare_labels relabelled body_then translate_for translate_while
    translate_if_else translate_if translate_return translate_compst translate_stmt_is_compst
    translate_stmt_is_exp second_name first_name translate_param translate_params
    translate_func_head is_basic declare initialize translate_dec_is_vardec
    translate_def_is_spec_dec translate_extdef_spec translate_extdef_func translate_ast without_attr
    is_logic name_from visitor_at dispatcher visit visits translate_tree new_operand write new_cell
    new_instr get_relop str_eq query query_without_fallback hash scan_chain push_symtab pop_symtab
    typecmp new_type val_s val_i val_f replace_operand_global replace_in swap_ptr
program-head = refl

program-run : translate_tree floats all_int program start ≡ some (tt, translated)
program-run = some-state_of (translate_tree floats all_int program start) program-translated

translate_tree-IsWellFormed_example :
    IsWellFormed (code_of translated)
    × ((p : ℕ) → (translated.store.heap p).label_ref_cnt ≡ pos 0)
    × Entry translated.buf 0
unfolding plain_loops
translate_tree-IsWellFormed_example =
    translate_tree-IsWellFormed floats all_int program start translated refl start-IsStart
      program-run

translate_tree-preprocess_ir_example :
    (c : Code) × (preprocess_ir (code_of translated) ≡ some c)
    × (without_nops c.buf ≡ c.buf)
    × ((st : ℕ → ℕ) (o : Outcome sample_machine)
        → Halts sample_machine translated.buf 0 st o ↔ Halts sample_machine c.buf 0 st o)
unfolding plain_loops
translate_tree-preprocess_ir_example =
    translate_tree-preprocess_ir floats all_int program start translated refl start-IsStart
      program-run sample_machine

translate_tree-functions_example :
    (c : Code) × (preprocess_ir (code_of translated) ≡ some c)
    × ((j : ℕ) × (get_elem? c.buf j ≡ some (blank_ir IrType.func (some 0) none none))
        × ((st : ℕ → ℕ) (o : Outcome sample_machine)
            → Halts sample_machine translated.buf 0 st o ↔ Halts sample_machine c.buf j st o))
unfolding plain_loops
translate_tree-functions_example =
    translate_tree-functions floats all_int program start translated refl start-IsStart program-run
      sample_machine 0 (blank_ir IrType.func (some 0) none none) program-head refl

translate_tree-step_example : step sample_machine translated.buf 5 (λ x. 0) ≢ stuck
translate_tree-step_example =
    translate_tree-step floats all_int program start translated start-IsStart program-run
      sample_machine 5 (λ x. 0)

translate_tree-stack_example : translated.scopes.scopes ≡ start.scopes.scopes
translate_tree-stack_example =
    translate_tree-stack floats all_int program start translated tt program-run

translate-refuses_example :
    (translate floats all_int (node (zero_info Tag.prog_is_extdef 1) global_program nil) start
      ≡ none)
    ⊎ (translate floats all_int (node (zero_info Tag.prog_is_extdef 1) global_program nil) start
        ≡ some none)
translate-refuses_example =
    translate-refuses floats all_int Tag.extdef_is_spec_extdec (zero_info Tag.prog_is_extdef 1)
      global_program start refl (later (first refl)) refl

create_tree-children_example :
    (child : Tree) × (create_tree Tag.stmt_is_while 1 (var_x nil ∷ nil ∷ [])
      ≡ some (node (zero_info Tag.stmt_is_while 1) child nil))
    × (siblings child ≡ all_siblings (take 2 (var_x nil ∷ nil ∷ [])))
unfolding body_size
create_tree-children_example =
    create_tree-children Tag.stmt_is_while 1 2 (var_x nil ∷ nil ∷ []) refl (λ e. cc e)

-- The types of the instructions.
program-codes :
    map (λ (ir : Ir). ir_code ir.type) translated.buf ≡ 2 ∷ 1 ∷ 13 ∷ 11 ∷ 1 ∷ 4 ∷ 11 ∷ 1 ∷ 18 ∷ []
unfolding ◌>>=◌ pure undefined need operand cell set_integer set_real set_name set_size
    set_base_type instr replace find_symbol find_field address_in address_at set_address enter_scope
    leave_scope trans_default dispatch_first dispatch_all try_deref integer_operand float_operand
    translate_exp_is_id translate_exp_is_const assign_to translate_exp_is_assign scale split_base
    is_zero add_offset element translate_exp_is_exp_idx translate_exp_is_exp
    translate_unary_operation op_char fold_int fold_float emit_binary combine
    translate_binary_operation translate_exp_is_exp_field is_reference by_address pass_arg
    write_call common_call own_dst translate_call translate_cond_exp translate_cond_not
    translate_cond_relop translate_cond_and translate_cond_or translate_cond value_false value_true
    translate_cond_prepare prepare_labels relabelled body_then translate_for translate_while
    translate_if_else translate_if translate_return translate_compst translate_stmt_is_compst
    translate_stmt_is_exp second_name first_name translate_param translate_params
    translate_func_head is_basic declare initialize translate_dec_is_vardec
    translate_def_is_spec_dec translate_extdef_spec translate_extdef_func translate_ast without_attr
    is_logic name_from visitor_at dispatcher visit visits translate_tree new_operand write new_cell
    new_instr get_relop str_eq query query_without_fallback hash scan_chain push_symtab pop_symtab
    typecmp new_type val_s val_i val_f replace_operand_global replace_in swap_ptr
program-codes = refl

abbrev two_and_three : TransState
two_and_three = record start {
  store = record {
    heap = λ p. record (zeroed OpeType.integer) { integer = pos (p + 2) };
    next = 2;
    nr_ope = 0;
    nr_label = 0;
  };
}

combine-calc_const_example :
    Folded floats all_int
      (calc_const floats IrType.mul (two_and_three.store.heap 0) (two_and_three.store.heap 1))
      two_and_three
      (combine floats all_int b'*' 0 1 none two_and_three)
unfolding is_const
combine-calc_const_example =
    combine-calc_const floats all_int b'*' IrType.mul 0 1 none two_and_three times refl refl
