-- ===== src/BasicBlock/Partition.antt =====
-- `block_partition` of basic-block.c: how its blocks lie in the buffer.
use mathlib.Core.List.{reverse_aux}
use mathlib.Core.Path.{subst}
use naivecc.Base.{
  ℕ, ◌+◌, ◌<◌, Bool, true, false, Option, none, some, List, [], ◌∷◌, ◌≡◌, refl, arith, length, ◌≢◌,
  if◌then◌else◌,
}
use naivecc.Ir.{Ir, Buffer}
use naivecc.BasicBlock.{Block, is_leader, close, new_block, partition_loop, block_partition}

-- The blocks follow one another from `a` to `b`, and none is empty.
abbrev pub Tiles : ℕ → ℕ → List Block → Type 0
Tiles a b [] = a ≡ b
Tiles a b (x ∷ xs) = (x.start ≡ a) × (x.start < x.end) × Tiles x.end b xs

-- The same of a list whose last block comes first.
abbrev TilesBack : ℕ → List Block → Type 0
TilesBack b [] = b ≡ 0
TilesBack b (x ∷ xs) = (x.end ≡ b) × (x.start < x.end) × TilesBack x.start xs

-- All blocks but the open one are closed.
abbrev Open : ℕ → List Block → Type 0
Open i [] = i ≡ 0
Open i (x ∷ xs) = (x.start < i) × TilesBack x.start xs

close-TilesBack : (i : ℕ) (bs : List Block) → Open i bs → TilesBack i (close i bs)
unfolding close
close-TilesBack i [] h = h
close-TilesBack i (b ∷ bs) h = (refl, h.0, h.1)

TilesBack-reverse :
    (bs acc : List Block) (b e : ℕ)
    → TilesBack b bs
    → Tiles b e acc
    → Tiles 0 e (reverse_aux bs acc)
TilesBack-reverse [] acc b e h t = rw h at t
TilesBack-reverse (x ∷ bs) acc b e h t =
    TilesBack-reverse bs (x ∷ acc) x.start e h.2 (refl, h.1, rw (← h.0) at t)

Open-suc : (i : ℕ) (b : Block) (bs : List Block) → Open i (b ∷ bs) → Open (i + 1) (b ∷ bs)
Open-suc i b bs h = (omega (arith, h.0), h.1)

-- One instruction: a leader opens a block, and another stays in the last one.
now_blocks : Bool → ℕ → List Block → List Block
now_blocks leader i bs = if leader then new_block (length bs) i ∷ close i bs else bs

now_blocks-Open :
    (leader : Bool) (i : ℕ) (bs : List Block)
    → Open i bs
    → (bs ≡ [] → leader ≡ true)
    → Open (i + 1) (now_blocks leader i bs)
unfolding now_blocks
now_blocks-Open true i bs o q = (omega arith, close-TilesBack i bs o)
now_blocks-Open false i [] o q = cc (q refl)
now_blocks-Open false i (b ∷ bs) o q = Open-suc i b bs o

now_blocks-some :
    (leader : Bool) (i : ℕ) (bs : List Block)
    → (bs ≡ [] → leader ≡ true)
    → now_blocks leader i bs ≢ []
unfolding now_blocks
now_blocks-some true i bs q e = cc
now_blocks-some false i [] q e = cc (q refl)
now_blocks-some false i (b ∷ bs) q e = cc

-- The loop keeps the blocks in order; before the first instruction there is none.
partition_loop-Open :
    (previous : Option Ir) (i : ℕ) (bs : List Block) (buf : Buffer)
    → Open i bs
    → (bs ≡ [] → previous ≡ none)
    → Open (i + length buf) (partition_loop previous i bs buf).0
unfolding partition_loop now_blocks
partition_loop-Open previous i bs [] o q = subst (λ n. Open n bs) (omega arith) o
partition_loop-Open previous i bs (ir ∷ rest) o q =
    let leads : bs ≡ [] → is_leader previous ir ≡ true = λ e. rw (q e) refl in
    let rec =
      partition_loop-Open (some ir) (i + 1) (now_blocks (is_leader previous ir) i bs) rest
        (now_blocks-Open (is_leader previous ir) i bs o leads)
        (λ e. absurd (now_blocks-some (is_leader previous ir) i bs leads e)) in
    subst (λ n. Open n (partition_loop previous i bs (ir ∷ rest)).0) (omega arith) rec

-- The blocks that `block_partition` makes of a buffer with instructions follow one another from
-- index 0 to `nr_instr`, and each has at least one instruction.
pub block_partition-Tiles :
    (ir : Ir) (rest : Buffer)
    → (r : List Block × Buffer) × (block_partition (ir ∷ rest) ≡ some r)
      × Tiles 0 (length (ir ∷ rest)) r.0
unfolding block_partition
block_partition-Tiles ir rest =
    let o : Open (length (ir ∷ rest)) (partition_loop none 0 [] (ir ∷ rest)).0 =
      subst (λ n. Open n (partition_loop none 0 [] (ir ∷ rest)).0) (omega arith)
        (partition_loop-Open none 0 [] (ir ∷ rest) refl (λ e. refl)) in
    (
      (_, _),
      refl,
      TilesBack-reverse (close (length (ir ∷ rest)) (partition_loop none 0 [] (ir ∷ rest)).0) []
          (length (ir ∷ rest)) (length (ir ∷ rest))
          (close-TilesBack (length (ir ∷ rest)) (partition_loop none 0 [] (ir ∷ rest)).0 o) refl,
    )
