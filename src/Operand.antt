-- ===== src/Operand.antt =====
-- operand.h and operand.c: the operands of the intermediate code, and the store that holds them.
-- An `Operand` of the source is a pointer; here it is an address of the store. `free` gives no
-- address back, so that addresses stay distinct. Floats are bit patterns: their arithmetic is the
-- processor's, and is a parameter.
use naivecc.Base.{
  ℕ, ◌+◌, Bool, true, false, ◌&&◌, ◌||◌, Option, none, some, List, [], ◌==◌, if◌then◌else◌, ◌>>=◌,
  ◌>>◌, guard, ◌≡◌, arith,
}
use naivecc.Base.Int.{ℤ, pos, negsuc, ◌+ℤ◌, ◌-ℤ◌, ◌*ℤ◌, ◌/ℤ◌, fits_int, beq_ℤ}
use naivecc.Ir.Kinds.{IrType}

-- `Ope_Type`
pub data OpeType : Type 0 where
  not_used var ref bool temp addr deref refaddr integer float label func : OpeType

-- The position in the enumeration.
abbrev pub ope_code : OpeType → ℕ
ope_code OpeType.not_used = 0
ope_code OpeType.var = 1
ope_code OpeType.ref = 2
ope_code OpeType.bool = 3
ope_code OpeType.temp = 4
ope_code OpeType.addr = 5
ope_code OpeType.deref = 6
ope_code OpeType.refaddr = 7
ope_code OpeType.integer = 8
ope_code OpeType.float = 9
ope_code OpeType.label = 10
ope_code OpeType.func = 11

abbrev pub same_ope_type : OpeType → OpeType → Bool
same_ope_type a b = ope_code a == ope_code b

pub ope_code_inj : (a b : OpeType) → ope_code a ≡ ope_code b → a ≡ b
ope_code_inj a b h = ground arith

-- A pointer to an operand; a field that may be NULL is an `Option Operand`.
abbrev pub Operand : Type 0
Operand = ℕ

-- `struct Operand_`, less the field `dep` that nothing reads. `base_type` points to a type.
pub record OperandCell : Type 0 where
  pub type : OpeType
  pub label : ℕ
  pub index : ℕ
  pub address : ℤ
  pub integer : ℤ
  pub real : ℕ
  pub name : List ℕ
  pub size : ℕ
  pub nr_arg : ℕ
  pub has_subroutine : Bool
  pub is_param : Bool
  pub base_type : Option ℕ
  pub label_ref_cnt : ℤ
  pub liveness : Bool
  pub next_use : ℤ

-- What `memset` leaves.
abbrev pub zeroed : OpeType → OperandCell
zeroed t = record {
  type = t;
  label = 0;
  index = 0;
  address = pos 0;
  integer = pos 0;
  real = 0;
  name = [];
  size = 0;
  nr_arg = 0;
  has_subroutine = false;
  is_param = false;
  base_type = none;
  label_ref_cnt = pos 0;
  liveness = false;
  next_use = pos 0;
}

abbrev pub Heap : Type 0
Heap = Operand → OperandCell

unfoldable pub write : Heap → Operand → OperandCell → Heap
write h p c q = if p == q then c else h q

-- `DISALIVE`, `ALIVE` are the two values of `liveness`; the others are the constants of lib.h.
abbrev pub max_line : ℕ
max_line = 4096

abbrev pub no_use : ℤ
no_use = negsuc 0

unfoldable pub is_always_live : OperandCell → Bool
is_always_live o = elim o.type [
  | OpeType.var ↦ true
  | OpeType.ref ↦ true
  | OpeType.bool ↦ true
  | _ ↦ false
]

unfoldable pub is_const : OperandCell → Bool
is_const o = same_ope_type o.type OpeType.integer || same_ope_type o.type OpeType.float

-- NULL is no temporary.
unfoldable pub is_tmp : Heap → Option Operand → Bool
is_tmp h none = false
is_tmp h (some p) = same_ope_type (h p).type OpeType.addr || same_ope_type (h p).type OpeType.temp

-- The heap with its next free address and the two static counters of `new_operand`.
pub record Store : Type 0 where
  pub heap : Heap
  pub next : ℕ
  pub nr_ope : ℕ
  pub nr_label : ℕ

-- The cell that `new_operand` fills in, from the two counters.
unfoldable pub new_cell : OpeType → ℕ → ℕ → OperandCell
new_cell OpeType.var n l = record (zeroed OpeType.var) { liveness = true; size = 4; index = n }
new_cell OpeType.ref n l = record (zeroed OpeType.ref) { liveness = true; index = n }
new_cell OpeType.bool n l = record (zeroed OpeType.bool) { liveness = true; size = 4; index = n }
new_cell OpeType.temp n l = record (zeroed OpeType.temp) { size = 4; index = n }
new_cell OpeType.addr n l = record (zeroed OpeType.addr) { size = 4; index = n }
new_cell OpeType.label n l = record (zeroed OpeType.label) { liveness = true; label = l }
new_cell OpeType.func n l = record (zeroed OpeType.func) { liveness = true }
new_cell t n l = zeroed t

-- The types that `nr_ope++` numbers.
unfoldable pub is_numbered : OpeType → Bool
is_numbered OpeType.var = true
is_numbered OpeType.ref = true
is_numbered OpeType.bool = true
is_numbered OpeType.temp = true
is_numbered OpeType.addr = true
is_numbered _ = false

-- `nr_ope` and `nr_label` are ints that no program within `MAX_LINE` instructions brings near 2^31.
unfoldable pub new_operand : OpeType → Store → Operand × Store
unfolding write new_cell is_numbered
new_operand t s = (
  s.next,
  record {
    heap = write s.heap s.next (new_cell t s.nr_ope s.nr_label);
    next = s.next + 1;
    nr_ope = if is_numbered t then s.nr_ope + 1 else s.nr_ope;
    nr_label = if same_ope_type t OpeType.label then s.nr_label + 1 else s.nr_label;
  },
)

-- Float arithmetic on bit patterns.
pub record FloatOps : Type 0 where
  pub add : ℕ → ℕ → ℕ
  pub sub : ℕ → ℕ → ℕ
  pub mul : ℕ → ℕ → ℕ
  pub div : ℕ → ℕ → ℕ
  pub neg : ℕ → ℕ
  pub eq : ℕ → ℕ → Bool

-- The `int` that a C expression has: none where it overflows.
abbrev pub checked : ℤ → Option ℤ
checked z = if fits_int z then some z else none

-- The four `case` labels on integers; a zero divisor traps, an overflow is undefined.
unfoldable pub calc_int : IrType → ℤ → ℤ → Option ℤ
calc_int IrType.add a b = checked (a +ℤ b)
calc_int IrType.sub a b = checked (a -ℤ b)
calc_int IrType.mul a b = checked (a *ℤ b)
calc_int IrType.div a b = if beq_ℤ b (pos 0) then none else checked (a /ℤ b)
calc_int _ a b = none

module _ (f : FloatOps) where
  unfoldable pub calc_float : IrType → ℕ → ℕ → Option ℕ
  calc_float IrType.add a b = some (f.add a b)
  calc_float IrType.sub a b = some (f.sub a b)
  calc_float IrType.mul a b = some (f.mul a b)
  calc_float IrType.div a b = some (f.div a b)
  calc_float _ a b = none

  -- The contents of the operand that `calc_const` returns; none where an assertion fails.
  unfoldable pub calc_const : IrType → OperandCell → OperandCell → Option OperandCell
  unfolding calc_int calc_float is_const
  calc_const op left right = do
    guard (same_ope_type left.type right.type && is_const left)
    if same_ope_type left.type OpeType.integer
        then (do
          v ← calc_int op left.integer right.integer
          some (record (zeroed OpeType.integer) { integer = v }))
        else (do
          v ← calc_float op left.real right.real
          some (record (zeroed OpeType.float) { real = v }))

  unfoldable pub get_neg : OperandCell → Option OperandCell
  unfolding is_const
  get_neg o = do
    guard (is_const o)
    if same_ope_type o.type OpeType.integer
        then (do
          v ← checked (pos 0 -ℤ o.integer)
          some (record (zeroed OpeType.integer) { integer = v }))
        else some (record (zeroed OpeType.float) { real = f.neg o.real })

  -- The value comparison of two constants of one type.
  unfoldable pub same_const : OperandCell → OperandCell → Bool
  same_const a b = elim a.type [
    | OpeType.integer ↦ beq_ℤ a.integer b.integer
    | OpeType.float ↦ f.eq a.real b.real
    | _ ↦ false
  ]

  unfoldable pub cmp_operand : Heap → Operand → Operand → Bool
  unfolding is_const same_const
  cmp_operand h first second =
      if first == second
      then true
      else if is_const (h first)
          && is_const (h second)
          && same_ope_type (h first).type (h second).type
      then same_const (h first) (h second)
      else false
