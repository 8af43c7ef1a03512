-- ===== src/Tests/Passes.antt =====
-- The passes over the instruction buffer, applied to the small program.
use naivecc.Base.{ℕ, none, get_elem?, true, some, List, ◌∷◌, ◌≡◌, ◌↔◌, refl, length, take}
use naivecc.Base.Int.{pos}
use naivecc.Operand.{is_tmp}
use naivecc.Ir.{Ir, Buffer, blank_ir, is_branch}
use naivecc.Ir.Kinds.{IrType}
use naivecc.Ir.Anti.{Listed, is_branch-Listed}
use naivecc.Machine.{Outcome, Halts}
use naivecc.Preprocess.{preprocess_ir, compress_ir, count_refs}
use naivecc.Preprocess.Count.{Counts, count_refs-Counts}
use naivecc.Preprocess.Compress.Filter.{without_nops, compress_ir-eq}
use naivecc.Preprocess.Correct.{preprocess_ir-Halts, preprocess_ir-functions}
use naivecc.Preprocess.{Code}
use naivecc.BasicBlock.{Block, block_partition}
use naivecc.BasicBlock.Partition.{Tiles, block_partition-Tiles}
use naivecc.Liveness.{live_loop}
use naivecc.Liveness.NextUse.{first_use, live_loop-next_use}
use naivecc.Tests.Program.{
  sample, sample_buf, sample_machine, sample-counts, sample-first, sample-IsWellFormed,
}

preprocess_ir-Halts_example :
    (t : Code) × (preprocess_ir sample ≡ some t)
    × (without_nops t.buf ≡ t.buf)
    × ((st : ℕ → ℕ) (o : Outcome sample_machine)
        → Halts sample_machine sample.buf 0 st o ↔ Halts sample_machine t.buf 0 st o)
preprocess_ir-Halts_example =
    preprocess_ir-Halts sample_machine sample sample-IsWellFormed sample-counts sample-first

live_loop-next_use_example :
    (is_tmp (live_loop 0 sample_buf sample.heap).1 (some 6) ≡ true)
    × (((live_loop 0 sample_buf sample.heap).1 6).next_use ≡ first_use 6 0 sample_buf (pos 0))
unfolding is_tmp
live_loop-next_use_example = live_loop-next_use 6 0 sample_buf sample.heap refl

abbrev a_branch : Ir
a_branch = blank_ir IrType.blt (some 1) (some 2) (some 3)

block_partition-Tiles_example :
    (r : List Block × Buffer) × (block_partition (a_branch ∷ sample_buf) ≡ some r)
    × Tiles 0 (length (a_branch ∷ sample_buf)) r.0
block_partition-Tiles_example = block_partition-Tiles a_branch sample_buf

compress_ir-eq_example :
    take (compress_ir sample_buf).0 (compress_ir sample_buf).1 ≡ without_nops sample_buf
compress_ir-eq_example = compress_ir-eq sample_buf

is_branch-Listed_example : Listed IrType.blt
unfolding is_branch
is_branch-Listed_example = is_branch-Listed a_branch refl

count_refs-Counts_example :
    Counts sample_buf sample.heap (λ p. 0) (count_refs sample_buf sample.heap)
count_refs-Counts_example =
    count_refs-Counts sample_buf sample.heap (λ p. 0) sample-IsWellFormed.typed sample-counts

preprocess_ir-functions_example :
    (t : Code) × (preprocess_ir sample ≡ some t)
    × ((j : ℕ) × (get_elem? t.buf j ≡ some (blank_ir IrType.func (some 0) none none))
        × ((st : ℕ → ℕ) (o : Outcome sample_machine)
            → Halts sample_machine sample.buf 0 st o ↔ Halts sample_machine t.buf j st o))
preprocess_ir-functions_example =
    preprocess_ir-functions sample_machine sample sample-IsWellFormed sample-counts 0
      (blank_ir IrType.func (some 0) none none) refl refl
