-- ===== src/Tests/Program.antt =====
-- A small program with both patterns of `preprocess_ir`, and a machine that runs it.
use naivecc.Base.{
  ℕ, zero, suc, ◌+◌, Bool, true, false, ◌&&◌, not, Option, none, some, [], ◌∷◌, ◌==◌, ◌≡◌, refl, ap,
  ltb, if◌then◌else◌, get_elem?, beq_refl, same_ptr, eq_of_same_ptr, and_left, and_right,
}
use naivecc.Base.Int.{pos}
use naivecc.Operand.{Operand, OpeType, zeroed}
use naivecc.Ir.{Ir, Buffer, blank_ir}
use naivecc.Ir.Kinds.{IrType, same_type}
use naivecc.Machine.{Machine, labels}
use naivecc.Machine.Labels.{labels?, Unique}
use naivecc.Preprocess.{Code}
use naivecc.Preprocess.Inv.{Every, IsWellFormed, is_typed, types}

-- 0 is the function, 3 to 5 are labels, and the others are variables.
abbrev pub sample_type : Operand → OpeType
sample_type p =
    if p == 0
    then OpeType.func
    else if p == 6
    then OpeType.temp
    else if ltb 2 p && ltb p 6
    then OpeType.label
    else OpeType.var

abbrev pub sample_buf : Buffer
sample_buf =
    blank_ir IrType.func (some 0) none none
    ∷ blank_ir IrType.blt (some 1) (some 2) (some 3)
    ∷ blank_ir IrType.jmp (some 4) none none
    ∷ blank_ir IrType.label (some 3) none none
    ∷ blank_ir IrType.add (some 1) (some 2) (some 6)
    ∷ blank_ir IrType.assign (some 6) none (some 1)
    ∷ blank_ir IrType.label (some 4) none none
    ∷ blank_ir IrType.label (some 5) none none
    ∷ blank_ir IrType.ret (some 1) none none
    ∷ []

abbrev pub sample : Code
sample = record { buf = sample_buf; heap = λ p. zeroed (sample_type p) }

pub sample-counts : (p : Operand) → (sample.heap p).label_ref_cnt ≡ pos 0
sample-counts p = refl

all : (Ir → Bool) → Buffer → Bool
all f [] = true
all f (ir ∷ buf) = f ir && all f buf

all-Every : (f : Ir → Bool) (buf : Buffer) → all f buf ≡ true → Every (λ ir. f ir ≡ true) buf
unfolding all
all-Every f [] h j ir e = cc e
all-Every f (x ∷ buf) h zero ir e =
    let x' : x ≡ ir = cc e in rw (← x') (and_left (f x) (all f buf) h)
all-Every f (x ∷ buf) h (suc j) ir e = all-Every f buf (and_right (f x) (all f buf) h) j ir e

-- No label of the first instruction stands again.
abbrev not_again : Ir → Ir → Bool
not_again x ir =
    not (same_type x.type IrType.label && same_type ir.type IrType.label && same_ptr x.rs ir.rs)

distinct : Buffer → Bool
distinct [] = true
distinct (x ∷ buf) = all (not_again x) buf && distinct buf

clash : (p : Operand) (x ir : Ir) → labels p x ≡ true → labels p ir ≡ true → not_again x ir ≡ false
clash p x ir a b =
    let tx = and_left (same_type x.type IrType.label) (same_ptr x.rs (some p)) a in
    let ti = and_left (same_type ir.type IrType.label) (same_ptr ir.rs (some p)) b in
    let ex : x.rs ≡ some p =
      eq_of_same_ptr x.rs (some p) (and_right (same_type x.type IrType.label) _ a) in
    let ei : ir.rs ≡ some p =
      eq_of_same_ptr ir.rs (some p) (and_right (same_type ir.type IrType.label) _ b) in
    rw (tx, ti, ex, ei, beq_refl p) refl

no_clash :
    (p : Operand) (x : Ir) (buf : Buffer) (j : ℕ)
    → all (not_again x) buf ≡ true
    → labels p x ≡ true
    → labels? p (get_elem? buf j) ≡ true
    → ⊥
unfolding all
no_clash p x [] j h a b = cc b
no_clash p x (ir ∷ buf) zero h a b =
    cc (clash p x ir a b, and_left (not_again x ir) (all (not_again x) buf) h)
no_clash p x (ir ∷ buf) (suc j) h a b =
    no_clash p x buf j (and_right (not_again x ir) (all (not_again x) buf) h) a b

distinct-Unique : (buf : Buffer) → distinct buf ≡ true → Unique buf
unfolding distinct
distinct-Unique [] h p i j a b = cc a
distinct-Unique (x ∷ buf) h p zero zero a b = refl
distinct-Unique (x ∷ buf) h p zero (suc j) a b =
    absurd (no_clash p x buf j (and_left (all (not_again x) buf) (distinct buf) h) a b)
distinct-Unique (x ∷ buf) h p (suc i) zero a b =
    absurd (no_clash p x buf i (and_left (all (not_again x) buf) (distinct buf) h) b a)
distinct-Unique (x ∷ buf) h p (suc i) (suc j) a b =
    ap suc (distinct-Unique buf (and_right (all (not_again x) buf) (distinct buf) h) p i j a b)

pub sample-IsWellFormed : IsWellFormed sample
unfolding all distinct
sample-IsWellFormed = record {
  unique = distinct-Unique sample_buf refl;
  typed = all-Every (is_typed (types sample.heap)) sample_buf refl;
}

-- A machine on natural numbers.
abbrev value : (ℕ → ℕ) → Option Operand → ℕ
value s none = 0
value s (some p) = s p

abbrev put : Option Operand → ℕ → (ℕ → ℕ) → ℕ → ℕ
put none n s q = s q
put (some p) n s q = if p == q then n else s q

abbrev sample_act : IrType → Option Operand → Option Operand → Option Operand → (ℕ → ℕ) → ℕ → ℕ
sample_act IrType.assign rd rs rt s = put rd (value s rs) s
sample_act IrType.add rd rs rt s = put rd (value s rs + value s rt) s
sample_act _ rd rs rt s = s

abbrev pub sample_machine : Machine
sample_machine = record { State = ℕ → ℕ; act = sample_act; value = λ p s. pos (value s p) }

pub sample-first :
    (ir : Ir) → get_elem? sample_buf 0 ≡ some ir → same_type ir.type IrType.jmp ≡ false
sample-first ir e = let e' : blank_ir IrType.func (some 0) none none ≡ ir = cc e in rw (← e') refl
