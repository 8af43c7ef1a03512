-- ===== src/CmmType.antt =====
-- cmm-type.h and cmm-type.c: the types of C-- and their comparison. A `Type *` is an address of a
-- store. Types can be recursive in memory, so the comparison runs on fuel; `none` is a read
-- through NULL, a failed assertion, or no fuel left.
pub mod Symmetry
pub mod Fuel
pub mod Total
use naivecc.Base.{
  ℕ, zero, suc, Bool, true, false, Option, none, some, List, [], ◌∷◌, ◌==◌, ◌&&◌, ◌||◌,
  if◌then◌else◌, ◌>>=◌, same_ptr,
}
use naivecc.Base.Int.{ℤ, pos, negsuc}
use naivecc.Ir.Relop.{str_eq}

pub data TypeClass : Type 0 where
  int float array struct func field param meta : TypeClass

-- The position in the enumeration.
abbrev pub class_code : TypeClass → ℕ
class_code TypeClass.int = 0
class_code TypeClass.float = 1
class_code TypeClass.array = 2
class_code TypeClass.struct = 3
class_code TypeClass.func = 4
class_code TypeClass.field = 5
class_code TypeClass.param = 6
class_code TypeClass.meta = 7

abbrev pub same_class : TypeClass → TypeClass → Bool
same_class a b = class_code a == class_code b

-- `struct _Type`. The union `base`, `meta`, `ret` is `base`. The union `link`, `field`, `param`,
-- `field_table` is two fields: where `field_table` is set, the memory holds a pointer to a symbol
-- table, and `link` means nothing. The union `ref`, `size` is `size`. `type_size` is the union with
-- `offset`, and `none` as long as it is not written.
pub record TypeCell : Type 0 where
  pub class : TypeClass
  pub name : List ℕ
  pub base : Option ℕ
  pub link : Option ℕ
  pub field_table : Option ℕ
  pub size : ℕ
  pub type_size : Option ℕ
  pub lineno : ℤ

abbrev pub Types : Type 0
Types = ℕ → TypeCell

unfoldable pub new_type : TypeClass → List ℕ → Option ℕ → Option ℕ → TypeCell
new_type class name type link = record {
  class = class;
  name = name;
  base = type;
  link = link;
  field_table = none;
  size = 0;
  type_size = none;
  lineno = negsuc 0;
}

-- `BASIC_INT` and `BASIC_FLOAT`, the addresses of two cells.
abbrev pub basic_int : ℕ
basic_int = 0

abbrev pub basic_float : ℕ
basic_float = 1

abbrev pub is_array : Types → ℕ → Bool
is_array h p = same_class (h p).class TypeClass.array

module _ (h : Types) (rec : Option ℕ → Option ℕ → Option Bool) where
  -- The loop over two lists of parameters or fields: whether both end together.
  unfoldable pub walk : ℕ → Option ℕ → Option ℕ → Option Bool
  walk zero x y = none
  walk (suc n) none none = some true
  walk (suc n) none (some q) = some false
  walk (suc n) (some p) none = some false
  walk (suc n) (some p) (some q) =
      let rest = walk n (h p).link (h q).link in
      (do b ← rec (h p).base (h q).base; if b then rest else some false)

  -- The loop down to the basic types of two arrays, and the comparison after it.
  unfoldable pub strip : ℕ → ℕ → ℕ → Option Bool
  strip zero p q = none
  strip (suc n) p q =
      if is_array h p && is_array h q
      then (do p' ← (h p).base; q' ← (h q).base; strip n p' q')
      else if is_array h p || is_array h q
      then some false
      else rec (some p) (some q)

  -- The return types of two functions, which the code asserts to be there.
  unfoldable pub compare_ret : Option ℕ → Option ℕ → Option Bool
  compare_ret (some r) (some s) = rec (some r) (some s)
  compare_ret _ _ = none

  unfoldable pub compare_func : ℕ → ℕ → ℕ → Option Bool
  unfolding walk compare_ret
  compare_func n p q =
      if str_eq (h p).name (h q).name
      then (do
        same ← walk n (h p).link (h q).link
        if same then compare_ret (h p).base (h q).base else some false)
      else some false

  -- The fields of two structures, from their symbol tables, if set, and their lists. Of a table
  -- that the loop takes for a list it would read a type.
  unfoldable pub compare_fields : ℕ → Option ℕ → Option ℕ → Option ℕ → Option ℕ → Option Bool
  unfolding walk
  compare_fields n none none x y = walk n x y
  compare_fields n (some t) none x none = some false
  compare_fields n (some t) none x (some q) = none
  compare_fields n none (some u) none y = some false
  compare_fields n none (some u) (some p) y = none
  compare_fields n (some t) (some u) x y = none

  -- Two cells of one class.
  unfoldable pub compare_class : TypeClass → ℕ → ℕ → ℕ → Option Bool
  unfolding strip compare_func compare_fields
  compare_class TypeClass.func n p q = compare_func n p q
  compare_class TypeClass.array n p q = strip n p q
  compare_class TypeClass.struct n p q =
      compare_fields n (h p).field_table (h q).field_table (h p).link (h q).link
  compare_class TypeClass.int n p q = some true
  compare_class TypeClass.float n p q = some true
  compare_class _ n p q = none

  -- The cells of two different addresses.
  unfoldable pub compare_cells : ℕ → ℕ → ℕ → Option Bool
  unfolding compare_class
  compare_cells n p q =
      if same_class (h p).class (h q).class then compare_class (h p).class n p q else some false

unfoldable pub typecmp : Types → ℕ → Option ℕ → Option ℕ → Option Bool
unfolding compare_cells
typecmp h zero x y = none
typecmp h (suc n) none y = some true
typecmp h (suc n) (some p) none = some true
typecmp h (suc n) (some p) (some q) =
    let cells = compare_cells h (typecmp h n) n p q in if p == q then some true else cells
