-- ===== src/Asm/Emit.antt =====
-- ir.c: the last part of `print_instr`, which generates the assembly of each basic block, and the
-- passes before it. The text that is written around the instructions is left out.
use naivecc.Base.{
  ℕ, zero, suc, ◌-◌, false, Option, none, some, List, [], ◌∷◌, if◌then◌else◌, take, drop,
}
use naivecc.Base.Int.{pos}
use naivecc.Operand.{Operand, FloatOps, write}
use naivecc.Ir.{Ir, Buffer, OptimizeInfo, can_jump}
use naivecc.Ir.Kinds.{IrType, same_type}
use naivecc.Register.Code.{Asm, AsmState, M, ◌>>◌, pure, update}
use naivecc.Register.{push_all, clear_reg_state, nr_reg}
use naivecc.Asm.{gen_asm}
use naivecc.BasicBlock.{Block}
use naivecc.Liveness.{optimize_in_block}
use naivecc.Preprocess.{Code, preprocess_ir}
use naivecc.Frame.{in_func_check}

-- An operand takes over the information of an instruction; a field that was never written is zero.
unfoldable pub load_info : Option Operand → Option OptimizeInfo → AsmState → AsmState
unfolding write
load_info none info s = s
load_info (some p) none s = record s {
  heap = write s.heap p (record (s.heap p) { liveness = false; next_use = pos 0 });
}
load_info (some p) (some i) s = record s {
  heap = write s.heap p (record (s.heap p) { liveness = i.liveness; next_use = i.next_use });
}

module _ (f : FloatOps) where
  -- An instruction that is not the last of its block.
  unfoldable pub gen_inner : Buffer → Ir → M (Unit {0})
  unfolding load_info
  gen_inner before ir = do
    update (load_info ir.rd ir.rd_info)
    gen_asm f before ir
    update (load_info ir.rs ir.rs_info)
    update (load_info ir.rt ir.rt_info)

  unfoldable pub gen_last : Buffer → Ir → M (Unit {0})
  gen_last before ir =
      if can_jump ir
      then (do update push_all; gen_asm f before ir)
      else if same_type ir.type IrType.ret
      then gen_asm f before ir
      else (do gen_asm f before ir; update push_all)

  -- A block, and what stands before it with the nearest first.
  unfoldable pub gen_block : Buffer → Buffer → M (Unit {0})
  unfolding gen_inner gen_last
  gen_block before [] = update clear_reg_state
  gen_block before (ir ∷ []) = do gen_last before ir; update clear_reg_state
  gen_block before (ir ∷ next ∷ rest) = do
    gen_inner before ir
    gen_block (ir ∷ before) (next ∷ rest)

  back_onto : Buffer → Buffer → Buffer
  back_onto [] acc = acc
  back_onto (ir ∷ rest) acc = back_onto rest (ir ∷ acc)

  -- The blocks in order; the buffer is cut at each `end`.
  unfoldable pub gen_blocks : Buffer → List Block → Buffer → M (Unit {0})
  unfolding gen_block back_onto
  gen_blocks before [] buf = pure tt
  gen_blocks before (b ∷ bs) buf = do
    gen_block before (take (b.end - b.start) buf)
    gen_blocks (back_onto (take (b.end - b.start) buf) before) bs (drop (b.end - b.start) buf)

  empty_regs : {A : Type 0} → A → ℕ → List A
  empty_regs a zero = []
  empty_regs a (suc n) = a ∷ empty_regs a n

  -- `print_instr` from the instructions of the program and their operands.
  unfoldable pub print_instr : Code → Option (List Asm)
  unfolding gen_blocks empty_regs
  print_instr s = elim (preprocess_ir s) [
    | none ↦ none
    | some c ↦
        elim (in_func_check c.buf
          (record { heap = c.heap; exists = λ i. false; curr = none; param_size = 0 })) [
            | none ↦ none
            | some fs ↦ elim (optimize_in_block c.buf fs.heap) [
              | none ↦ none
              | some r ↦
                  elim (gen_blocks [] r.0 r.1 (record {
                    heap = r.2;
                    ope_in_reg = empty_regs none nr_reg;
                    behind = none;
                    dirty = empty_regs false nr_reg;
                    sp_offset = pos 0;
                    curr_func = none;
                    nr_arg = 0;
                    out = [];
                  })) [ none ↦ none | some e ↦ some e.1.out ]
            ]
          ]
  ]
