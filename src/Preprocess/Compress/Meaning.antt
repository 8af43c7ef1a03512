-- ===== src/Preprocess/Compress/Meaning.antt =====
-- A buffer without its NOPs means the same, each index moved back by the NOPs before it.
use naivecc.Base.{
  ℕ, zero, suc, ◌+◌, ◌≤◌, true, false, Option, none, some, [], ◌∷◌, ◌≡◌, refl, get_elem?, ap, ◌∙◌,
  ◌↔◌, ◌⊎◌, arith, length, sym, if◌then◌else◌, Bool-cases, inl, inr, Option-cases, get_elem?-lt,
}
use mathlib.Core.Path.{subst}
use native.Mathlib.Numerals.{add-one}
use naivecc.Operand.{Operand}
use naivecc.Ir.{Ir, Buffer}
use naivecc.Ir.Kinds.{IrType, eq_nop}
use naivecc.Preprocess.Compress.Filter.{is_nop, without_nops}
use naivecc.Machine.{
  holds, Machine, Kind, skip, jump, branch, return, act, kind, labels, Outcome, Next, more, halted,
  stuck, goto, exec, step, run, label_index, Halts,
}
use naivecc.Machine.Run.{Halts-step, Halts-halted}
use naivecc.Machine.Steps.{step-skip}

-- The number of instructions before an index that are no NOPs.
unfoldable pub rank : Buffer → ℕ → ℕ
rank [] j = 0
rank (ir ∷ buf) zero = 0
rank (ir ∷ buf) (suc j) = if is_nop ir then rank buf j else suc (rank buf j)

pub rank-zero : (buf : Buffer) → rank buf 0 ≡ 0
unfolding rank
rank-zero [] = refl
rank-zero (ir ∷ buf) = refl

rank-next :
    (buf : Buffer) (j : ℕ) (ir : Ir)
    → get_elem? buf j ≡ some ir
    → rank buf (j + 1) ≡ rank buf j + (if is_nop ir then 0 else 1)
unfolding rank
rank-next [] j ir e = cc
rank-next (y ∷ buf) zero ir e =
    let e' : y ≡ ir = ground arith in rw e' (ground (arith, rank-zero buf))
rank-next (y ∷ buf) (suc j) ir e = ground (arith, rank-next buf j ir e, add-one j)

pub get-rank :
    (buf : Buffer) (j : ℕ) (ir : Ir)
    → get_elem? buf j ≡ some ir
    → is_nop ir ≡ false
    → get_elem? (without_nops buf) (rank buf j) ≡ some ir
unfolding rank without_nops
get-rank [] j ir e h = cc
get-rank (y ∷ buf) zero ir e h = let e' : y ≡ ir = ground arith in rw (without_nops, e', h)
get-rank (y ∷ buf) (suc j) ir e h = elim (Bool-cases (is_nop y)) [
  | inl n ↦ rw (without_nops, rank, n) (get-rank buf j ir e h)
  | inr n ↦ rw (without_nops, rank, n) (get-rank buf j ir e h)
]

get-rank-none :
    (buf : Buffer) (j : ℕ)
    → get_elem? buf j ≡ none
    → get_elem? (without_nops buf) (rank buf j) ≡ none
unfolding rank without_nops
get-rank-none [] j e = refl
get-rank-none (y ∷ buf) zero e = cc
get-rank-none (y ∷ buf) (suc j) e = elim (Bool-cases (is_nop y)) [
  | inl n ↦ rw (without_nops, rank, n) (get-rank-none buf j e)
  | inr n ↦ rw (without_nops, rank, n) (get-rank-none buf j e)
]

index-rank :
    (p : Operand) (buf : Buffer)
    → label_index p (without_nops buf)
      ≡ elim (label_index p buf) [ none ↦ none | some j ↦ some (rank buf j) ]
unfolding rank without_nops label_index
index-rank p [] = refl
index-rank p (y ∷ buf) = elim (Bool-cases (is_nop y)) [
  | inl n ↦
      let e : y.type ≡ IrType.nop = eq_nop y.type n in
      rw (without_nops, n) (index-rank p buf ∙ ground (arith, e))
  | inr n ↦ elim (Bool-cases (labels p y)) [
    | inl h ↦ rw (without_nops, n) (rw (label_index, h))
    | inr h ↦ rw (without_nops, n) (rw (label_index, h, index-rank p buf) (ground arith))
  ]
]

module _ (m : Machine) (buf : Buffer) where
  -- Where control goes, in the shorter buffer.
  moved : Next m → Next m
  moved (more j s) = more (rank buf j) s
  moved (halted o) = halted o
  moved stuck = stuck

  goto-moved :
      (q : Option Operand) (s : m.State) → goto m (without_nops buf) q s ≡ moved (goto m buf q s)
  unfolding goto moved
  goto-moved none s = refl
  goto-moved (some p) s = rw (goto, index-rank p buf) (ground arith)

  exec-moved :
      (k : Kind) (ir : Ir) (pc : ℕ) (s : m.State)
      → kind ir.type ≡ k
      → get_elem? buf pc ≡ some ir
      → is_nop ir ≡ false
      → exec m (without_nops buf) ir (rank buf pc) s ≡ moved (exec m buf ir pc s)
  unfolding exec moved
  exec-moved skip ir pc s k e h =
      rw (exec, k) (ap (λ j. more j s) (ground (arith, rank-next buf pc ir e)))
  exec-moved jump ir pc s k e h = rw (exec, k) (goto-moved ir.rs s)
  exec-moved branch ir pc s k e h = elim (Bool-cases (holds m ir.type ir.rs ir.rt s)) [
    | inl t ↦ rw (exec, k, t) (goto-moved ir.rd s)
    | inr t ↦ rw (exec, k, t) (ap (λ j. more j s) (ground (arith, rank-next buf pc ir e)))
  ]
  exec-moved return ir pc s k e h = rw (exec, k)
  exec-moved act ir pc s k e h =
      rw (exec, k)
        (ap (λ j. more j (m.act ir.type ir.rd ir.rs ir.rt s))
          (ground (arith, rank-next buf pc ir e)))

  -- A step at anything but a NOP is a step of the shorter buffer.
  step-moved :
      (pc : ℕ) (s : m.State)
      → ((ir : Ir) → get_elem? buf pc ≡ some ir → is_nop ir ≡ false)
      → step m (without_nops buf) (rank buf pc) s ≡ moved (step m buf pc s)
  unfolding step moved
  step-moved pc s h = elim (Option-cases (get_elem? buf pc)) [
    | inl (ir, e) ↦
        rw (step, e, get-rank buf pc ir e (h ir e))
          (exec-moved (kind ir.type) ir pc s refl e (h ir e))
    | inr e ↦ rw (step, e, get-rank-none buf pc e)
  ]

  -- A NOP, or not.
  pub nop_or :
      (pc : ℕ)
      → ((ir : Ir) × (get_elem? buf pc ≡ some ir) × (is_nop ir ≡ true))
        ⊎ ((ir : Ir) → get_elem? buf pc ≡ some ir → is_nop ir ≡ false)
  nop_or pc = elim (Option-cases (get_elem? buf pc)) [
    | inl (ir, e) ↦ elim (Bool-cases (is_nop ir)) [
      | inl n ↦ inl (ir, e, n)
      | inr n ↦ inr (λ x e'.
          let same : some ir ≡ some x = sym e ∙ e' in let same' : ir ≡ x = cc in rw (← same') n)
    ]
    | inr e ↦ inr (λ x e'. let same : none ≡ some x = sym e ∙ e' in cc)
  ]

  nop-step :
      (pc : ℕ) (s : m.State) (ir : Ir)
      → get_elem? buf pc ≡ some ir
      → is_nop ir ≡ true
      → step m buf pc s ≡ more (pc + 1) s
  nop-step pc s ir e n = step-skip m buf pc s e (rw (eq_nop ir.type n) refl)

  -- The rest of a run after a step at anything but a NOP, in both directions.
  shorten-step :
      (n pc : ℕ) (s : m.State) (o : Outcome m) (t : Next m)
      → ((j : ℕ) (s' : m.State)
          → run m buf n j s' ≡ some o
          → Halts m (without_nops buf) (rank buf j) s' o)
      → step m buf pc s ≡ t
      → step m (without_nops buf) (rank buf pc) s ≡ moved t
      → run m buf (suc n) pc s ≡ some o
      → Halts m (without_nops buf) (rank buf pc) s o
  unfolding run moved
  shorten-step n pc s o (more j s') ih q st h =
      Halts-step m (without_nops buf) (rank buf pc) (rank buf j) s s' st
        (ih j s' (rw (run, q) at h))
  shorten-step n pc s o (halted o') ih q st h =
      let same : some o' ≡ some o = rw (run, q) at h in
      Halts-halted m (without_nops buf) (rank buf pc) s (cc)
  shorten-step n pc s o stuck ih q st h = cc (rw (run, q) at h)

  shorten :
      (n pc : ℕ) (s : m.State) (o : Outcome m)
      → run m buf n pc s ≡ some o
      → Halts m (without_nops buf) (rank buf pc) s o
  unfolding run
  shorten zero pc s o h = cc
  shorten (suc n) pc s o h = elim (nop_or pc) [
    | inl (ir, e, t) ↦
        subst (λ j. Halts m (without_nops buf) j s o) (ground (arith, rank-next buf pc ir e))
          (shorten n (pc + 1) s o (rw (run, nop-step pc s ir e t) at h))
    | inr f ↦
        shorten-step n pc s o (step m buf pc s) (λ j s' h'. shorten n j s' o h') refl
          (step-moved pc s f) h
  ]

  lengthen-step :
      (n pc : ℕ) (s : m.State) (o : Outcome m) (t : Next m)
      → ((j : ℕ) (s' : m.State)
          → run m (without_nops buf) n (rank buf j) s' ≡ some o
          → Halts m buf j s' o)
      → step m buf pc s ≡ t
      → step m (without_nops buf) (rank buf pc) s ≡ moved t
      → run m (without_nops buf) (suc n) (rank buf pc) s ≡ some o
      → Halts m buf pc s o
  unfolding run moved
  lengthen-step n pc s o (more j s') ih q st h =
      Halts-step m buf pc j s s' q (ih j s' (rw (run, st) at h))
  lengthen-step n pc s o (halted o') ih q st h =
      let same : some o' ≡ some o = rw (run, st) at h in Halts-halted m buf pc s (cc)
  lengthen-step n pc s o stuck ih q st h = cc (rw (run, st) at h)

  -- `d` bounds the NOPs ahead.
  lengthen :
      (n d pc : ℕ) (s : m.State) (o : Outcome m)
      → length buf ≤ pc + d
      → run m (without_nops buf) n (rank buf pc) s ≡ some o
      → Halts m buf pc s o
  unfolding run
  lengthen zero d pc s o b h = cc
  lengthen (suc n) zero pc s o b h = elim (nop_or pc) [
    | inl (ir, e, t) ↦ absurd (omega (arith, get_elem?-lt buf pc e))
    | inr f ↦
        lengthen-step n pc s o (step m buf pc s)
          (λ j s' h'. lengthen n (length buf) j s' o (omega arith) h') refl (step-moved pc s f) h
  ]
  lengthen (suc n) (suc d) pc s o b h = elim (nop_or pc) [
    | inl (ir, e, t) ↦ Halts-step m buf pc (pc + 1) s s (nop-step pc s ir e t) (
        lengthen (suc n) d (pc + 1) s o (omega arith) (
          subst (λ j. run m (without_nops buf) (suc n) j s ≡ some o)
            (ground (arith, rank-next buf pc ir e)) h))
    | inr f ↦
        lengthen-step n pc s o (step m buf pc s)
          (λ j s' h'. lengthen n (length buf) j s' o (omega arith) h') refl (step-moved pc s f) h
  ]

  -- Both buffers have the same outcomes.
  pub Halts-without_nops :
      (pc : ℕ) (s : m.State) (o : Outcome m)
      → Halts m buf pc s o ↔ Halts m (without_nops buf) (rank buf pc) s o
  Halts-without_nops pc s o =
      (λ (n, h). shorten n pc s o h, λ (n, h). lengthen n (length buf) pc s o (omega arith) h)
