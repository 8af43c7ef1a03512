-- ===== src/Asm.antt =====
-- asm.c: one generator for each type of instruction. The comment line that `gen_asm` writes before
-- each instruction is left out.
pub mod Emit
use naivecc.Base.{
  ℕ, zero, suc, ◌+◌, ◌-◌, ◌*◌, Bool, true, false, Option, none, some, List, [], ◌∷◌, ◌++◌,
  if◌then◌else◌, get_elem?,
}
use naivecc.Base.Int.{ℤ, pos, negsuc, ◌+ℤ◌, ◌-ℤ◌}
use naivecc.Operand.{checked, Operand, OpeType, OperandCell, Heap, FloatOps, same_ope_type, write}
use naivecc.Ir.{Ir, Buffer}
use naivecc.Ir.Kinds.{IrType, same_type}
use naivecc.Register.Code.{
  Asm, label_line, func_line, li, lw, sw, move, addi, addiu, add, sub, mul, div, mflo, j, jal, jr,
  br, AsmState, M, ◌>>=◌, ◌>>◌, pure, undefined, update, gets, deref, emit, v0, a0, sp, ra,
}
use naivecc.Register.{allocate, ensure, set_dirty, push_all, clear_reg_state, is_needed}

-- The words "read" and "write".
abbrev pub read_name : List ℕ
read_name = b'r' ∷ b'e' ∷ b'a' ∷ b'd' ∷ []

abbrev pub write_name : List ℕ
write_name = b'w' ∷ b'r' ∷ b'i' ∷ b't' ∷ b'e' ∷ []

-- `curr_func`, read through.
abbrev current : M OperandCell
current s = elim s.curr_func [ none ↦ none | some p ↦ some (s.heap p, s) ]

abbrev cell : Operand → M OperandCell
cell p s = some (s.heap p, s)

-- `allocate` and `set_dirty` on the destination.
unfoldable pub target_reg : Option Operand → M ℕ
target_reg rd = do p ← deref rd; x ← allocate p; update (set_dirty x); pure x

unfoldable pub gen_asm_label : Ir → M (Unit {0})
gen_asm_label ir = do p ← deref ir.rs; emit (label_line p)

unfoldable pub gen_asm_func : Ir → M (Unit {0})
gen_asm_func ir = do
  p ← deref ir.rs
  c ← cell p
  emit (func_line c.name)
  update (λ s. record s { curr_func = some p; sp_offset = pos c.size })
  emit (addi sp sp (pos 0 -ℤ pos (c.size + (if c.has_subroutine then 4 else 0))))
  if c.has_subroutine then emit (sw ra (pos c.size) sp) else pure tt

module _ (f : FloatOps) where
  unfoldable pub source_reg : Option Operand → M ℕ
  source_reg rs = do p ← deref rs; ensure f p

  unfoldable pub gen_asm_assign : Ir → M (Unit {0})
  unfolding source_reg target_reg
  gen_asm_assign ir = do src ← source_reg ir.rs; dst ← target_reg ir.rd; emit (move dst src)

  unfoldable pub gen_asm_addi : Option Operand → Option Operand → ℤ → M (Unit {0})
  unfolding source_reg target_reg
  gen_asm_addi dst src imm = do
    first ← source_reg src
    dest ← target_reg dst
    emit (addi dest first imm)

  -- A three-register instruction.
  unfoldable pub three : (ℕ → ℕ → ℕ → Asm) → Ir → M (Unit {0})
  unfolding source_reg target_reg
  three op ir = do
    first ← source_reg ir.rs
    second ← source_reg ir.rt
    dst ← target_reg ir.rd
    emit (op dst first second)

  unfoldable pub gen_asm_add : Ir → M (Unit {0})
  unfolding gen_asm_addi three
  gen_asm_add ir = do
    rt ← deref ir.rt
    t ← cell rt
    if same_ope_type t.type OpeType.integer then gen_asm_addi ir.rd ir.rs t.integer else do
      rs ← deref ir.rs
      c ← cell rs
      if same_ope_type c.type OpeType.integer
          then gen_asm_addi ir.rd ir.rt c.integer
          else three add ir

  unfoldable pub gen_asm_sub : Ir → M (Unit {0})
  unfolding gen_asm_addi three
  gen_asm_sub ir = do
    rt ← deref ir.rt
    t ← cell rt
    if same_ope_type t.type OpeType.integer
        then elim (checked (pos 0 -ℤ t.integer)) [
          | none ↦ undefined
          | some n ↦ gen_asm_addi ir.rd ir.rs n
        ]
        else three sub ir

  unfoldable pub gen_asm_mul : Ir → M (Unit {0})
  unfolding three
  gen_asm_mul ir = three mul ir

  unfoldable pub gen_asm_div : Ir → M (Unit {0})
  unfolding source_reg target_reg
  gen_asm_div ir = do
    y ← source_reg ir.rs
    z ← source_reg ir.rt
    x ← target_reg ir.rd
    emit (div y z)
    emit (mflo x)

  unfoldable pub gen_asm_load : Ir → M (Unit {0})
  unfolding source_reg target_reg
  gen_asm_load ir = do y ← source_reg ir.rs; x ← target_reg ir.rd; emit (lw x (pos 0) y)

  unfoldable pub gen_asm_store : Ir → M (Unit {0})
  unfolding source_reg
  gen_asm_store ir = do y ← source_reg ir.rt; x ← source_reg ir.rs; emit (sw y (pos 0) x)

  unfoldable pub gen_asm_goto : Ir → M (Unit {0})
  gen_asm_goto ir = do p ← deref ir.rs; emit (j p)

  unfoldable pub gen_asm_arg : Ir → M (Unit {0})
  gen_asm_arg ir = update (λ s. record s { nr_arg = s.nr_arg + 1 })

  -- `do { arg--; } while (arg->type != IR_ARG)` over the instructions before, the nearest first:
  -- the argument, and what stands before it.
  unfoldable pub previous_arg : Buffer → Option (Ir × Buffer)
  previous_arg [] = none
  previous_arg (ir ∷ before) =
      let rest = previous_arg before in
      if same_type ir.type IrType.arg then some (ir, before) else rest

  -- The rounds left, `i - 1`, and the instructions before.
  unfoldable pub pass_args : ℕ → ℕ → Buffer → M (Unit {0})
  unfolding previous_arg source_reg
  pass_args zero i before = pure tt
  pass_args (suc n) i before = elim (previous_arg before) [
    | none ↦ undefined
    | some r ↦ (do y ← source_reg r.0.rs; emit (sw y (pos (i * 4)) sp); pass_args n (i + 1) r.1)
  ]

  unfoldable pub gen_asm_call : Buffer → Ir → M (Unit {0})
  unfolding pass_args target_reg
  gen_asm_call before ir = do
    n ← gets (λ s. s.nr_arg)
    emit (addi sp sp (pos 0 -ℤ pos (n * 4)))
    update (λ s. record s { sp_offset = s.sp_offset +ℤ pos (n * 4) })
    update push_all
    pass_args n 0 before
    func ← deref ir.rs
    c ← cell func
    emit (jal c.name)
    update clear_reg_state
    x ← target_reg ir.rd
    rd ← deref ir.rd
    d ← cell rd
    if is_needed d then emit (move x v0) else pure tt
    emit (addiu sp sp (pos (n * 4)))
    update (λ s. record s { sp_offset = s.sp_offset -ℤ pos (n * 4) })
    update (λ s. record s { nr_arg = 0 })

  unfoldable pub gen_asm_param : Ir → M (Unit {0})
  unfolding write
  gen_asm_param ir = do
    c ← current
    if c.has_subroutine
        then (do
          p ← deref ir.rs
          update (λ s. record s {
            heap = write s.heap p (record (s.heap p) { address = (s.heap p).address -ℤ pos 4 });
          }))
        else pure tt

  unfoldable pub gen_asm_return : Ir → M (Unit {0})
  unfolding source_reg
  gen_asm_return ir = do
    c ← current
    off ← gets (λ s. s.sp_offset)
    if c.has_subroutine then emit (lw ra off sp) else pure tt
    x ← source_reg ir.rs
    emit (addiu sp sp (pos (if c.has_subroutine then c.size + 4 else c.size)))
    emit (move v0 x)
    emit (jr ra)

  unfoldable pub gen_asm_br : Ir → M (Unit {0})
  unfolding source_reg
  gen_asm_br ir = do
    x ← source_reg ir.rs
    y ← source_reg ir.rt
    l ← deref ir.rd
    emit (br ir.type x y l)

  unfoldable pub gen_asm_dec : Ir → M (Unit {0})
  gen_asm_dec ir = pure tt

  unfoldable pub gen_asm_addr : Ir → M (Unit {0})
  unfolding target_reg
  gen_asm_addr ir = do
    x ← target_reg ir.rd
    rs ← deref ir.rs
    c ← cell rs
    off ← gets (λ s. s.sp_offset)
    emit (addiu x sp (off -ℤ c.address))

  unfoldable pub gen_asm_write : Ir → M (Unit {0})
  unfolding source_reg
  gen_asm_write ir = do x ← source_reg ir.rs; emit (move a0 x); emit (jal write_name)

  unfoldable pub gen_asm_read : Ir → M (Unit {0})
  unfolding target_reg
  gen_asm_read ir = do x ← target_reg ir.rd; emit (jal read_name); emit (move x v0)

  -- The table `handler`; IR_NOP has no entry. The buffer is what stands before the instruction,
  -- the nearest first.
  unfoldable pub gen_asm : Buffer → Ir → M (Unit {0})
  gen_asm before ir = elim ir.type [
    | IrType.nop ↦ undefined
    | IrType.label ↦ gen_asm_label ir
    | IrType.func ↦ gen_asm_func ir
    | IrType.assign ↦ gen_asm_assign ir
    | IrType.add ↦ gen_asm_add ir
    | IrType.sub ↦ gen_asm_sub ir
    | IrType.mul ↦ gen_asm_mul ir
    | IrType.div ↦ gen_asm_div ir
    | IrType.addr ↦ gen_asm_addr ir
    | IrType.deref_r ↦ gen_asm_load ir
    | IrType.deref_l ↦ gen_asm_store ir
    | IrType.jmp ↦ gen_asm_goto ir
    | IrType.ret ↦ gen_asm_return ir
    | IrType.dec ↦ gen_asm_dec ir
    | IrType.arg ↦ gen_asm_arg ir
    | IrType.call ↦ gen_asm_call before ir
    | IrType.param ↦ gen_asm_param ir
    | IrType.read ↦ gen_asm_read ir
    | IrType.write ↦ gen_asm_write ir
    | _ ↦ gen_asm_br ir
  ]
