-- ===== src/BasicBlock.antt =====
-- basic-block.h and basic-block.c: basic blocks and the control-flow graph. A loop over the
-- instruction array is a recursion on the list, with the index that C counts.
pub mod Partition
use mathlib.Core.List.{reverse}
use naivecc.Base.{
  ℕ, zero, suc, ◌+◌, ◌-◌, Bool, true, false, ◌||◌, ◌&&◌, Option, none, some, List, [], ◌∷◌, ◌==◌,
  ltb, if◌then◌else◌, ◌>>=◌, length, get_elem?, take, drop,
}
use naivecc.Base.Int.{ℤ, pos, negsuc}
use naivecc.Operand.{Operand, Heap, FloatOps, cmp_operand}
use naivecc.Ir.{Ir, Buffer, is_branch, can_jump}
use naivecc.Ir.Kinds.{IrType, same_type}

-- `Block`; the union's `next` is the pair of the last two fields.
pub record Block : Type 0 where
  pub index : ℕ
  pub start : ℕ
  pub end : ℕ
  pub follow : ℤ
  pub branch : ℤ

-- `previous` is `instr[ir_idx - 1]`, which is read at a positive index only.
unfoldable pub is_leader : Option Ir → Ir → Bool
is_leader none ir = true
is_leader (some previous) ir =
    same_type ir.type IrType.label || same_type ir.type IrType.func || can_jump previous

-- `block[count - 1].end = i`, if there is a block.
unfoldable pub close : ℕ → List Block → List Block
close i [] = []
close i (b ∷ bs) = record b { end = i } ∷ bs

abbrev pub new_block : ℕ → ℕ → Block
new_block count i = record { index = count; start = i; end = 0; follow = pos 0; branch = pos 0 }

-- The loop of `block_partition`: the blocks so far, the last one first, and the instructions with
-- their `block`.
unfoldable pub partition_loop : Option Ir → ℕ → List Block → Buffer → List Block × Buffer
unfolding is_leader close
partition_loop previous i blocks [] = (blocks, [])
partition_loop previous i blocks (ir ∷ rest) =
    let now =
      if is_leader previous ir then new_block (length blocks) i ∷ close i blocks else blocks in
    let (all, marked) = partition_loop (some ir) (i + 1) now rest in
    (all, record ir { block = length now - 1 } ∷ marked)

-- With no instruction `block[-1]` would be written, which is `none`.
unfoldable pub block_partition : Buffer → Option (List Block × Buffer)
unfolding partition_loop close
block_partition [] = none
block_partition (ir ∷ rest) =
    let (blocks, marked) = partition_loop none 0 [] (ir ∷ rest) in
    some (reverse (close (length (ir ∷ rest)) blocks), marked)

module _ (f : FloatOps) (h : Heap) where
  -- The loop of `find_label`: the first index from `i` on that holds the label.
  unfoldable pub find_from : Operand → ℕ → Buffer → ℕ
  find_from label i [] = i
  find_from label i (ir ∷ rest) =
      let later = find_from label (i + 1) rest in
      if same_type ir.type IrType.label
      then elim ir.rs [ none ↦ later | some p ↦ if cmp_operand f h p label then i else later ]
      else later

  unfoldable pub find_label : Option Operand → Buffer → ℕ
  unfolding find_from
  find_label none buf = length buf
  find_label (some label) buf = find_from label 0 buf

  -- Whether `instr[start .. end)` has a return.
  unfoldable pub has_return : Buffer → Bool
  has_return [] = false
  has_return (ir ∷ rest) = same_type ir.type IrType.ret || has_return rest

  -- The label that the last instruction of a block may jump to.
  unfoldable pub jump_label : Ir → Option Operand
  jump_label ir =
      if is_branch ir then ir.rd else if same_type ir.type IrType.jmp then ir.rs else none

  unfoldable pub link_block : Buffer → ℕ → Block → Option Block
  unfolding find_label has_return jump_label
  link_block buf idx_blk blk =
      if has_return (take (blk.end - blk.start) (drop blk.start buf))
      then some (record blk { follow = negsuc 0; branch = negsuc 0 })
      else (do
        ir ← get_elem? buf (blk.end - 1)
        let idx_label = find_label (jump_label ir) buf
        elim (get_elem? buf idx_label) [
          | none ↦ some (record blk { follow = pos (idx_blk + 1); branch = pos (idx_blk + 1) })
          | some there ↦ some (record blk {
            follow = if same_type ir.type IrType.jmp then pos there.block else pos (idx_blk + 1);
            branch = pos there.block;
          })
        ])

  unfoldable pub construct_cfg : Buffer → ℕ → List Block → Option (List Block)
  unfolding link_block
  construct_cfg buf i [] = some []
  construct_cfg buf i (b ∷ bs) = do
    b' ← link_block buf i b
    bs' ← construct_cfg buf (i + 1) bs
    some (b' ∷ bs')
