-- ===== src/Frame.antt =====
-- ir.c: `in_func_check` lays out the stack frame of each function.
use naivecc.Base.{
  ℕ, ◌+◌, Bool, true, false, ◌||◌, Option, none, some, [], ◌∷◌, ◌==◌, ltb, if◌then◌else◌, ◌>>=◌,
  ◌>>◌, guard,
}
use naivecc.Base.Int.{pos, ◌-ℤ◌}
use naivecc.Operand.{Operand, Heap, write, is_numbered}
use naivecc.Ir.{Ir, Buffer}
use naivecc.Ir.Kinds.{IrType, same_type}

abbrev pub map_size : ℕ
map_size = 4096

-- The static variables of `in_func_check`, with the operands. `curr` is the operand of the current
-- function, `curr->rs`.
pub record FrameState : Type 0 where
  pub heap : Heap
  pub exists : ℕ → Bool
  pub curr : Option Operand
  pub param_size : ℕ

unfoldable pub see : ℕ → (ℕ → Bool) → ℕ → Bool
see i m j = if i == j then true else m j

-- An operand of an instruction that is no parameter: a new one is given the next slot of the
-- frame. An index outside the map, or no function yet, is `none`.
unfoldable pub place_operand : Option Operand → FrameState → Option FrameState
unfolding write see is_numbered
place_operand none s = some s
place_operand (some p) s =
    if is_numbered (s.heap p).type
    then (do
      guard (ltb (s.heap p).index map_size)
      if s.exists (s.heap p).index then some s else (do
        c ← s.curr
        let size = (s.heap c).size + (s.heap p).size
        let h1 = write s.heap c (record (s.heap c) { size = size })
        some (record s {
          heap = write h1 p (record (h1 p) { address = pos size });
          exists = see (s.heap p).index s.exists;
        })))
    else some s

unfoldable pub note_subroutine : Ir → FrameState → Option FrameState
unfolding write
note_subroutine ir s =
    if same_type ir.type IrType.call
      || same_type ir.type IrType.read
      || same_type ir.type IrType.write
    then (do
      c ← s.curr
      some (record s { heap = write s.heap c (record (s.heap c) { has_subroutine = true }) }))
    else some s

unfoldable pub enter_func : Ir → FrameState → Option FrameState
unfolding write
enter_func ir s = do
  c ← ir.rs
  some (record {
    heap = write s.heap c (record (s.heap c) { size = 0 });
    exists = λ j. false;
    curr = some c;
    param_size = 0;
  })

unfoldable pub place_param : Ir → FrameState → Option FrameState
unfolding write see
place_param ir s = do
  c ← s.curr
  p ← ir.rs
  let h1 = write s.heap c (record (s.heap c) { nr_arg = (s.heap c).nr_arg + 1 })
  guard (ltb (h1 p).index map_size)
  some (record s {
    heap = write h1 p (record (h1 p) { is_param = true; address = pos 0 -ℤ pos s.param_size });
    param_size = s.param_size + 4;
    exists = see (h1 p).index s.exists;
  })

unfoldable pub check_one : Ir → FrameState → Option FrameState
unfolding place_operand note_subroutine enter_func place_param
check_one ir s =
    if same_type ir.type IrType.func
    then enter_func ir s
    else if same_type ir.type IrType.param
    then place_param ir s
    else (do
      s1 ← place_operand ir.rd s
      s2 ← place_operand ir.rs s1
      s3 ← place_operand ir.rt s2
      note_subroutine ir s3)

-- The tail call `in_func_check(buf, index + 1, n)` is the recursion on the list.
unfoldable pub in_func_check : Buffer → FrameState → Option FrameState
unfolding check_one
in_func_check [] s = some s
in_func_check (ir ∷ buf) s = do s' ← check_one ir s; in_func_check buf s'
