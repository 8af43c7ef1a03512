-- ===== src/Register.antt =====
-- register.h and register.c: which register holds which operand, and the loads and stores that
-- keep it so. The emitted assembly is a list of instructions, in order. `none` is undefined
-- behaviour: an index outside an array, an uninitialised register.
pub mod Code
pub mod Select
use naivecc.Base.{
  ℕ, zero, suc, ◌+◌, ◌-◌, Bool, true, false, ◌&&◌, ◌||◌, not, Option, none, some, List, [], ◌∷◌,
  ◌++◌, ◌==◌, if◌then◌else◌, get_elem?, set, same_ptr,
}
use naivecc.Base.Int.{ℤ, pos, negsuc, ◌-ℤ◌, ltb_ℤ, beq_ℤ}
use naivecc.Operand.{Operand, OpeType, OperandCell, Heap, FloatOps, cmp_operand, is_const, max_line}
use naivecc.Register.Code.{Asm, AsmState, M, ◌>>=◌, ◌>>◌, pure, undefined, emit, li, lw, sw, sp}

-- The groups of `enum reg` that the allocator uses, and the size of the register file.
abbrev pub t0 : ℕ
t0 = 8

abbrev pub t7 : ℕ
t7 = 15

abbrev pub s0 : ℕ
s0 = 16

abbrev pub s7 : ℕ
s7 = 23

abbrev pub nr_reg : ℕ
nr_reg = 32

-- The scan of `get_reg` over the registers from `i`: the first empty one, or the victim so far.
pub data Choice : Type 0 where
  empty : ℕ → Choice
  full : ℕ → Choice

unfoldable pub scan : Heap → List (Option Operand) → ℕ → ℕ → ℕ → ℤ → Choice
scan h regs zero i victim next_use = full victim
scan h regs (suc n) i victim next_use = elim (get_elem? regs i) [
  | none ↦ full victim
  | some r ↦ elim r [
    | none ↦ empty i
    | some ope ↦
        let better = ltb_ℤ next_use (h ope).next_use in
        scan h regs n (i + 1) (if better then i else victim)
          (if better then (h ope).next_use else next_use)
  ]
]

-- An operand that is read again or outlives the block.
unfoldable pub is_needed : OperandCell → Bool
is_needed o = not (beq_ℤ o.next_use (pos max_line)) || o.liveness

-- The state with one register rewritten.
abbrev pub put_reg : ℕ → Option Operand → AsmState → AsmState
put_reg i r s = record s { ope_in_reg = set s.ope_in_reg i r }

unfoldable pub evict : ℕ → M ℕ
unfolding is_needed
evict victim s = elim (get_elem? s.ope_in_reg victim) [
  | none ↦ none
  | some r ↦ elim r [
    | none ↦ none
    | some vic ↦
        let stored : AsmState =
          if is_needed (s.heap vic)
          then record s { out = s.out ++ sw victim (s.sp_offset -ℤ (s.heap vic).address) sp ∷ [] }
          else s in
        some (victim, put_reg victim none stored)
  ]
]

unfoldable pub get_reg : ℕ → ℕ → M ℕ
unfolding scan evict
get_reg start end s = elim (scan s.heap s.ope_in_reg (end + 1 - start) start max_line (negsuc 0)) [
  | empty i ↦ some (i, s)
  | full victim ↦ evict victim s
]

-- The loop runs to `i <= NR_REG`: its last round is on the word behind the array.
unfoldable pub clear_same : Operand → List (Option Operand) → List (Option Operand)
clear_same ope [] = []
clear_same ope (r ∷ regs) = (if same_ptr r (some ope) then none else r) ∷ clear_same ope regs

unfoldable pub remove_value : Operand → AsmState → AsmState
unfolding clear_same
remove_value ope s = record s {
  ope_in_reg = clear_same ope s.ope_in_reg;
  behind = if same_ptr s.behind (some ope) then none else s.behind;
}

-- The register group that a type of operand is given.
unfoldable pub reg_group : OpeType → Option (ℕ × ℕ)
reg_group OpeType.var = some (s0, s7)
reg_group OpeType.bool = some (s0, s7)
reg_group OpeType.temp = some (t0, t7)
reg_group OpeType.addr = some (t0, t7)
reg_group OpeType.integer = some (t0, t7)
reg_group _ = none

unfoldable pub allocate : Operand → M ℕ
unfolding remove_value reg_group get_reg
allocate ope s =
    let s1 = remove_value ope s in
    elim (reg_group (s.heap ope).type) [
      | none ↦ none
      | some g ↦ elim (get_reg g.0 g.1 s1) [
        | none ↦ none
        | some r ↦ some (r.0, put_reg r.0 (some ope) r.1)
      ]
    ]

unfoldable pub set_dirty : ℕ → AsmState → AsmState
set_dirty i s = record s { dirty = set s.dirty i true }

module _ (f : FloatOps) where
  unfoldable pub find_reg : Heap → Operand → ℕ → List (Option Operand) → Option ℕ
  find_reg h ope i [] = none
  find_reg h ope i (none ∷ regs) = find_reg h ope (i + 1) regs
  find_reg h ope i (some r ∷ regs) =
      let rest = find_reg h ope (i + 1) regs in if cmp_operand f h ope r then some i else rest

  unfoldable pub ensure : Operand → M ℕ
  unfolding find_reg allocate is_const
  ensure ope s = elim (find_reg s.heap ope 0 s.ope_in_reg) [
    | some i ↦ some (i, s)
    | none ↦ elim (allocate ope s) [
      | none ↦ none
      | some r ↦
          let o = s.heap ope in
          some (
            r.0,
            record (r.1) {
              out =
                  r.1.out
                  ++ (if is_const o
                      then li r.0 o.integer
                      else lw r.0 (r.1.sp_offset -ℤ o.address) sp)
                    ∷ [];
            },
          )
    ]
  ]

-- The stores of `push_all`, from register `i` on.
unfoldable pub pushes : Heap → ℤ → ℕ → List (Option Operand) → List Bool → List Asm
unfolding is_needed
pushes h off i [] d = []
pushes h off i (r ∷ regs) [] = []
pushes h off i (none ∷ regs) (b ∷ d) = pushes h off (i + 1) regs d
pushes h off i (some ope ∷ regs) (b ∷ d) =
    let rest = pushes h off (i + 1) regs d in
    if b && is_needed (h ope) then sw i (off -ℤ (h ope).address) sp ∷ rest else rest

unfoldable pub push_all : AsmState → AsmState
unfolding pushes
push_all s = record s { out = s.out ++ pushes s.heap s.sp_offset 0 s.ope_in_reg s.dirty }

unfoldable pub fill {ℓ} : {A : Type ℓ} → A → List A → List A
fill a [] = []
fill a (x ∷ xs) = a ∷ fill a xs

unfoldable pub clear_reg_state : AsmState → AsmState
unfolding fill
clear_reg_state s = record s { ope_in_reg = fill none s.ope_in_reg; dirty = fill false s.dirty }
