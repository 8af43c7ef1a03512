-- ===== src/Liveness.antt =====
-- ir.c: `optimize_liveness` and `optimize_in_block`. A block is the list of its instructions; the
-- two loops run from its end, so each handles the rest first.
pub mod NextUse
use naivecc.Base.{
  ℕ, zero, suc, ◌+◌, ◌-◌, Bool, true, false, Option, none, some, List, [], ◌∷◌, ◌++◌, if◌then◌else◌,
  ◌||◌, ◌>>=◌, take, drop,
}
use naivecc.Base.Int.{ℤ, pos}
use naivecc.Operand.{Operand, OpeType, Heap, write, is_tmp, same_ope_type, max_line, no_use}
use naivecc.Ir.{Ir, Buffer, OptimizeInfo}
use naivecc.BasicBlock.{Block, block_partition}

-- The start of an operand: user variables live at the end of a block, and nothing is used yet.
unfoldable pub init_operand : Option Operand → Heap → Heap
unfolding write
init_operand none h = h
init_operand (some p) h = write h p (record (h p) {
  liveness = same_ope_type (h p).type OpeType.var || same_ope_type (h p).type OpeType.bool;
  next_use = pos max_line;
})

unfoldable pub init_loop : Buffer → Heap → Heap
unfolding init_operand
init_loop [] h = h
init_loop (ir ∷ rest) h =
    init_operand ir.rt (init_operand ir.rs (init_operand ir.rd (init_loop rest h)))

unfoldable pub info_of : Heap → Option Operand → Option OptimizeInfo → Option OptimizeInfo
info_of h none old = old
info_of h (some p) old = some (record { liveness = (h p).liveness; next_use = (h p).next_use })

unfoldable pub save_info : Heap → Ir → Ir
unfolding info_of
save_info h ir = record ir {
  rd_info = info_of h ir.rd ir.rd_info;
  rs_info = info_of h ir.rs ir.rs_info;
  rt_info = info_of h ir.rt ir.rt_info;
}

-- A temporary that is written or read.
unfoldable pub mark : Bool → ℤ → Option Operand → Heap → Heap
unfolding write is_tmp
mark live at_use none h = h
mark live at_use (some p) h =
    if is_tmp h (some p) then write h p (record (h p) { liveness = live; next_use = at_use }) else h

unfoldable pub live_loop : ℕ → Buffer → Heap → Buffer × Heap
unfolding save_info mark
live_loop i [] h = ([], h)
live_loop i (ir ∷ rest) h =
    let (rest', h') = live_loop (i + 1) rest h in
    (
      save_info h' ir ∷ rest',
      mark true (pos i) ir.rt (mark true (pos i) ir.rs (mark false no_use ir.rd h')),
    )

unfoldable pub optimize_liveness : ℕ → Buffer → Heap → Buffer × Heap
unfolding init_loop live_loop
optimize_liveness start block h = live_loop start block (init_loop block h)

-- The blocks in order; the buffer is cut at each `end`.
unfoldable pub optimize_blocks : List Block → Buffer → Heap → Buffer × Heap
unfolding optimize_liveness
optimize_blocks [] buf h = (buf, h)
optimize_blocks (b ∷ bs) buf h =
    let (now, h') = optimize_liveness b.start (take (b.end - b.start) buf) h in
    let (later, h'') = optimize_blocks bs (drop (b.end - b.start) buf) h' in (now ++ later, h'')

unfoldable pub optimize_in_block : Buffer → Heap → Option (List Block × Buffer × Heap)
unfolding optimize_blocks
optimize_in_block buf h = do
  (blocks, marked) ← block_partition buf
  let (buf', h') = optimize_blocks blocks marked h
  some (blocks, buf', h')
