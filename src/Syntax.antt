-- ===== src/Syntax.antt =====
-- node.h, ast.c and the production tags of lib.h: the syntax tree. A `Node` is a pointer to a node
-- that owns its child and its sibling; NULL is `nil`. The fields that a later phase computes are
-- not kept in the node: those of translation are arguments and results of its functions, and
-- `sema` is given with the node.
pub mod Shape
use naivecc.Base.{
  ℕ, zero, suc, Bool, true, false, Option, none, some, List, [], ◌∷◌, ◌==◌, if◌then◌else◌, ◌>>=◌,
  take,
}
use naivecc.Base.Int.{ℤ}

-- `enum ProductionTag`
pub data Tag : Type 0 where
  unsimplified prog_is_extdef : Tag
  extdef_is_spec_extdec extdef_is_spec extdef_is_spec_func_compst extdec_is_vardec : Tag
  spec_is_type spec_is_struct struct_is_id_def struct_is_def struct_is_id : Tag
  vardec_is_id vardec_is_vardec_size func_is_id_var var_is_spec_vardec : Tag
  compst_is_def_stmt stmt_is_exp stmt_is_compst stmt_is_return : Tag
  stmt_is_if stmt_is_if_else stmt_is_while stmt_is_for : Tag
  def_is_spec_dec dec_is_vardec dec_is_vardec_initialization : Tag
  exp_is_assign exp_is_and exp_is_or exp_is_not exp_is_relop exp_is_binary exp_is_unary : Tag
  exp_is_exp exp_is_id exp_is_id_arg exp_is_exp_idx exp_is_exp_field exp_is_int exp_is_float : Tag
  term_int term_float term_id : Tag

-- The position in the enumeration.
abbrev pub tag_code : Tag → ℕ
tag_code Tag.unsimplified = 0
tag_code Tag.prog_is_extdef = 1
tag_code Tag.extdef_is_spec_extdec = 2
tag_code Tag.extdef_is_spec = 3
tag_code Tag.extdef_is_spec_func_compst = 4
tag_code Tag.extdec_is_vardec = 5
tag_code Tag.spec_is_type = 6
tag_code Tag.spec_is_struct = 7
tag_code Tag.struct_is_id_def = 8
tag_code Tag.struct_is_def = 9
tag_code Tag.struct_is_id = 10
tag_code Tag.vardec_is_id = 11
tag_code Tag.vardec_is_vardec_size = 12
tag_code Tag.func_is_id_var = 13
tag_code Tag.var_is_spec_vardec = 14
tag_code Tag.compst_is_def_stmt = 15
tag_code Tag.stmt_is_exp = 16
tag_code Tag.stmt_is_compst = 17
tag_code Tag.stmt_is_return = 18
tag_code Tag.stmt_is_if = 19
tag_code Tag.stmt_is_if_else = 20
tag_code Tag.stmt_is_while = 21
tag_code Tag.stmt_is_for = 22
tag_code Tag.def_is_spec_dec = 23
tag_code Tag.dec_is_vardec = 24
tag_code Tag.dec_is_vardec_initialization = 25
tag_code Tag.exp_is_assign = 26
tag_code Tag.exp_is_and = 27
tag_code Tag.exp_is_or = 28
tag_code Tag.exp_is_not = 29
tag_code Tag.exp_is_relop = 30
tag_code Tag.exp_is_binary = 31
tag_code Tag.exp_is_unary = 32
tag_code Tag.exp_is_exp = 33
tag_code Tag.exp_is_id = 34
tag_code Tag.exp_is_id_arg = 35
tag_code Tag.exp_is_exp_idx = 36
tag_code Tag.exp_is_exp_field = 37
tag_code Tag.exp_is_int = 38
tag_code Tag.exp_is_float = 39
tag_code Tag.term_int = 40
tag_code Tag.term_float = 41
tag_code Tag.term_id = 42

abbrev pub same_tag : Tag → Tag → Bool
same_tag a b = tag_code a == tag_code b

-- The union `val` with the member that was written; floats are bit patterns.
pub data Val : Type 0 where
  unset : Val
  int_val : ℤ → Val
  float_val : ℕ → Val
  str_val : List ℕ → Val

-- The members that the code reads; another member than the one written is `none`.
unfoldable pub val_i : Val → Option ℤ
val_i (int_val n) = some n
val_i _ = none

unfoldable pub val_f : Val → Option ℕ
val_f (float_val n) = some n
val_f _ = none

unfoldable pub val_s : Val → Option (List ℕ)
val_s (str_val s) = some s
val_s _ = none

-- The fields of a node but its pointers: `sema_type` and `sema_symtab` are `sema.type` and
-- `sema.symtab` as semantic analysis leaves them.
pub record Info : Type 0 where
  pub tag : Tag
  pub lineno : ℕ
  pub val : Val
  pub sema_type : Option ℕ
  pub sema_symtab : Option ℕ

pub data Tree : Type 0 where
  nil : Tree
  node : Info → Tree → Tree → Tree

-- `body_size`; `none` beyond its end.
unfoldable pub body_size : Tag → Option ℕ
body_size Tag.unsimplified = some 0
body_size Tag.extdef_is_spec_extdec = some 2
body_size Tag.extdef_is_spec_func_compst = some 3
body_size Tag.struct_is_id_def = some 2
body_size Tag.vardec_is_vardec_size = some 2
body_size Tag.func_is_id_var = some 2
body_size Tag.var_is_spec_vardec = some 2
body_size Tag.compst_is_def_stmt = some 2
body_size Tag.stmt_is_if = some 2
body_size Tag.stmt_is_if_else = some 3
body_size Tag.stmt_is_for = some 4
body_size Tag.stmt_is_while = some 2
body_size Tag.def_is_spec_dec = some 2
body_size Tag.dec_is_vardec_initialization = some 2
body_size Tag.exp_is_assign = some 2
body_size Tag.exp_is_and = some 2
body_size Tag.exp_is_or = some 2
body_size Tag.exp_is_relop = some 2
body_size Tag.exp_is_binary = some 2
body_size Tag.exp_is_id_arg = some 2
body_size Tag.exp_is_exp_idx = some 2
body_size Tag.exp_is_exp_field = some 2
body_size Tag.term_int = none
body_size Tag.term_float = none
body_size Tag.term_id = none
body_size _ = some 1

-- `*curr = arg` at the end of a chain of siblings.
unfoldable pub append : Tree → Tree → Tree
append nil t = t
append (node i child sibling) t = node i child (append sibling t)

-- The loop over the arguments; a NULL argument adds nothing.
unfoldable pub chain : List Tree → Tree
unfolding append
chain [] = nil
chain (t ∷ ts) = append t (chain ts)

abbrev pub zero_info : Tag → ℕ → Info
zero_info tag lineno = record {
  tag = tag;
  lineno = lineno;
  val = unset;
  sema_type = none;
  sema_symtab = none;
}

-- The arguments that `va_arg` would find are a list; a call passes `body_size` of them.
unfoldable pub create_tree : Tag → ℕ → List Tree → Option Tree
unfolding body_size chain
create_tree tag lineno args = do
  n ← body_size tag
  some (if n == 0 then nil else node (zero_info tag lineno) (chain (take n args)) nil)
