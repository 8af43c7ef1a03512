-- ===== src/Preprocess.antt =====
-- ir.c: `preprocess_ir` and the tools that it uses. The buffer is a list whose length is
-- `nr_instr`; a loop over it is a recursion on the rounds left, with the index that C increments.
-- A null pointer that the code reads through, and a failed assertion, are `none`.
pub mod Invert
pub mod Correct
pub mod Compress
pub mod Count
pub mod Merge
pub mod Peephole
pub mod Inv
pub mod Drop
pub mod Replace
use naivecc.Base.{
  ℕ, zero, suc, ◌+◌, ◌-◌, Bool, true, false, ◌&&◌, not, Option, none, some, List, [], ◌∷◌, map,
  if◌then◌else◌, ◌>>=◌, ◌>>◌, guard, length, get_elem?, set, take, same_ptr,
}
use naivecc.Base.Int.{ℤ, pos, negsuc, ◌+ℤ◌, ◌-ℤ◌, beq_ℤ}
use naivecc.Operand.{Operand, OperandCell, Heap, write}
use naivecc.Ir.{Ir, Buffer, is_branch}
use naivecc.Ir.Kinds.{IrType, same_type}
use naivecc.Ir.Relop.{get_relop_anti}

-- The instructions and the operands that they point to.
pub record Code : Type 0 where
  pub buf : Buffer
  pub heap : Heap

-- `p->label_ref_cnt += k`
unfoldable pub add_ref : Heap → Operand → ℤ → Heap
unfolding write
add_ref h p k = write h p (record (h p) { label_ref_cnt = (h p).label_ref_cnt +ℤ k })

-- One field of an instruction under `replace_operand`.
unfoldable pub swap_ptr : Operand → Option Operand → Option Operand → Option Operand
swap_ptr newbie old p = if same_ptr p old then some newbie else p

unfoldable pub replace_in : Operand → Option Operand → Ir → Ir
unfolding swap_ptr
replace_in newbie old ir = if same_type ir.type IrType.nop then ir else record ir {
  rs = swap_ptr newbie old ir.rs;
  rt = swap_ptr newbie old ir.rt;
  rd = swap_ptr newbie old ir.rd;
}

unfoldable pub hit : Option Operand → Option Operand → ℕ
hit p old = if same_ptr p old then 1 else 0

unfoldable pub hits_in : Option Operand → Ir → ℕ
unfolding hit
hits_in old ir =
    if same_type ir.type IrType.nop then 0 else hit ir.rs old + hit ir.rt old + hit ir.rd old

-- `replace_operand` under the mode `REP_SRC | REP_DST | REP_BLK`, the only one in use: the number
-- of replacements, and the new buffer.
unfoldable pub replace_operand_global : Operand → Option Operand → Buffer → ℕ × Buffer
unfolding replace_in hits_in
replace_operand_global newbie old [] = (0, [])
replace_operand_global newbie old (ir ∷ buf) =
    let (n, rest) = replace_operand_global newbie old buf in
    (hits_in old ir + n, replace_in newbie old ir ∷ rest)

-- `deref_label`: the label instruction and the heap afterwards. The `free` of the operand leaves
-- its cell alone.
unfoldable pub deref_label : Ir → Heap → Option (Ir × Heap)
deref_label ir h = do
  guard (same_type ir.type IrType.label)
  p ← ir.rs
  let h' = add_ref h p (negsuc 0)
  some (
      if beq_ℤ (h' p).label_ref_cnt (pos 0)
      then (record ir { type = IrType.nop; rs = none }, h')
      else (ir, h'))

-- The loop that counts the references to each label.
unfoldable pub count_refs : Buffer → Heap → Option Heap
count_refs [] h = some h
count_refs (ir ∷ buf) h =
    if is_branch ir
    then (do p ← ir.rd; count_refs buf (add_ref h p (pos 1)))
    else if same_type ir.type IrType.jmp
    then (do p ← ir.rs; count_refs buf (add_ref h p (pos 1)))
    else count_refs buf h

-- The tests of the two patterns on three instructions in a row.
unfoldable pub is_skip_branch : Ir → Ir → Ir → Bool
is_skip_branch a b c =
    is_branch a
    && (same_type b.type IrType.jmp && (same_type c.type IrType.label && same_ptr a.rd c.rs))

unfoldable pub is_skip_jump : Ir → Ir → Bool
is_skip_jump a b =
    same_type a.type IrType.jmp && (same_type b.type IrType.label && same_ptr b.rs a.rs)

-- `IF c GOTO L0; GOTO L1; LABEL L0` becomes `IF !c GOTO L1; NOP; LABEL L0`.
unfoldable pub invert_branch : ℕ → Ir → Ir → Ir → Code → Option Code
unfolding deref_label
invert_branch i a b c s = do
  (c', h) ← deref_label c s.heap
  some (record {
    buf =
        set (set (set s.buf (i + 2) c') i (record a { type = get_relop_anti a.type; rd = b.rs }))
          (i + 1) (record b { type = IrType.nop });
    heap = h;
  })

-- `GOTO L; LABEL L` becomes `NOP; LABEL L`.
unfoldable pub drop_jump : ℕ → Ir → Ir → Code → Option Code
unfolding deref_label
drop_jump i a b s = do
  (b', h) ← deref_label b s.heap
  some (record { buf = set (set s.buf i (record a { type = IrType.nop })) (i + 1) b'; heap = h })

-- The body of the second loop at index `i`.
unfoldable pub peephole_at : ℕ → Code → Option Code
unfolding is_skip_branch is_skip_jump invert_branch drop_jump
peephole_at i s = do
  a ← get_elem? s.buf i
  b ← get_elem? s.buf (i + 1)
  c ← get_elem? s.buf (i + 2)
  if is_skip_branch a b c
      then invert_branch i a b c s
      else if is_skip_jump a b
      then drop_jump i a b s
      else some s

unfoldable pub peephole : ℕ → ℕ → Code → Option Code
unfolding peephole_at
peephole zero i s = some s
peephole (suc n) i s = peephole_at i s >>= peephole n (i + 1)

-- `LABEL a; LABEL b` in a row: every `b` becomes `a`, and the second label a NOP.
unfoldable pub merge_label : ℕ → ℕ → Code → Option Code
merge_label k i s = do
  pre ← get_elem? s.buf k
  a ← pre.rs
  ir ← get_elem? s.buf i
  b ← ir.rs
  let buf = (replace_operand_global a (some b) s.buf).1
  ir' ← get_elem? buf i
  some (record {
    buf = set buf i (record ir' { type = IrType.nop; rs = none });
    heap = add_ref s.heap a (s.heap b).label_ref_cnt;
  })

-- The body of the third loop at index `i`, with `preLabel` as the index of its instruction.
unfoldable pub merge_at : Option ℕ → ℕ → Code → Option (Option ℕ × Code)
merge_at pre i s = do
  ir ← get_elem? s.buf i
  if same_type ir.type IrType.label
      then elim pre [
        | none ↦ some (some i, s)
        | some k ↦ (do s' ← merge_label k i s; some (some k, s'))
      ]
      else some (none, s)

unfoldable pub merge_labels : ℕ → Option ℕ → ℕ → Code → Option Code
unfolding merge_at
merge_labels zero pre i s = some s
merge_labels (suc n) pre i s = do (pre', s') ← merge_at pre i s; merge_labels n pre' (i + 1) s'

-- The loop of `compress_ir` in place: the rounds left, `index` and `size`.
unfoldable pub compress_loop : ℕ → ℕ → ℕ → Buffer → ℕ × Buffer
compress_loop zero index size buf = (size, buf)
compress_loop (suc n) index size buf = elim (get_elem? buf index) [
  | none ↦ (size, buf)
  | some ir ↦
      if same_type ir.type IrType.nop
      then compress_loop n (index + 1) size buf
      else compress_loop n (index + 1) (size + 1) (set buf size ir)
]

unfoldable pub compress_ir : Buffer → ℕ × Buffer
unfolding compress_loop
compress_ir buf = compress_loop (length buf) 0 0 buf

-- `nr_instr` is the length of the buffer, so the new `nr_instr` cuts it.
unfoldable pub preprocess_ir : Code → Option Code
preprocess_ir s = do
  h ← count_refs s.buf s.heap
  s1 ← peephole (length s.buf - 2) 0 (record s { heap = h })
  s2 ← merge_labels (length s1.buf) none 0 s1
  let (n, buf) = compress_ir s2.buf
  some (record s2 { buf = take n buf })
