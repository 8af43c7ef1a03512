-- ===== src/Preprocess/Inv.antt =====
-- The invariant of the instruction buffer under `preprocess_ir`.
use mathlib.Core.Path.{subst}
use naivecc.Base.{
  ℕ, zero, suc, ◌+◌, Bool, true, false, ◌&&◌, not, Option, none, some, [], ◌∷◌, ◌≡◌, get_elem?, set,
  ap, ◌==◌, arith, if◌then◌else◌, Bool-cases, inl, inr, same_ptr, get_elem?-set_self,
  get_elem?-set_ne, eq_of_beq,
}
use naivecc.Base.Int.{ℤ, pos}
use naivecc.Operand.{Operand, OpeType, Heap, same_ope_type, write}
use naivecc.Ir.{Ir, Buffer}
use naivecc.Ir.Kinds.{IrType, same_type}
use naivecc.Preprocess.{Code, add_ref}
use naivecc.Preprocess.Drop.{Unused}
use naivecc.Machine.{skip, jump, branch, return, act, kind, target, labels}
use naivecc.Machine.Labels.{labels?, Unique}

-- Every instruction of a buffer satisfies `P`.
abbrev pub Every : (Ir → Type 0) → Buffer → Type 0
Every P buf = (j : ℕ) (ir : Ir) → get_elem? buf j ≡ some ir → P ir

pub Every-set :
    {P : Ir → Type 0} (buf : Buffer) (i : ℕ) (x : Ir) → Every P buf → P x → Every P (set buf i x)
Every-set [] i x h p j ir e = cc
Every-set {P} (y ∷ buf) zero x h p zero ir e = subst P (ground arith) p
Every-set (y ∷ buf) zero x h p (suc j) ir e = h (suc j) ir e
Every-set (y ∷ buf) (suc i) x h p zero ir e = h zero ir e
Every-set (y ∷ buf) (suc i) x h p (suc j) ir e = Every-set buf i x (λ k. h (suc k)) p j ir e

-- An operand that is no label, and one that is.
abbrev pub is_data : (Operand → OpeType) → Option Operand → Bool
is_data ty none = true
is_data ty (some p) = not (same_ope_type (ty p) OpeType.label)

abbrev pub is_label : (Operand → OpeType) → Option Operand → Bool
is_label ty none = false
is_label ty (some p) = same_ope_type (ty p) OpeType.label

-- Jumps and labels name labels, and nothing else does.
abbrev pub is_typed : (Operand → OpeType) → Ir → Bool
is_typed ty ir = elim (kind ir.type) [
  | skip ↦ if same_type ir.type IrType.label then is_label ty ir.rs else true
  | jump ↦ is_label ty ir.rs
  | branch ↦ is_label ty ir.rd && (is_data ty ir.rs && is_data ty ir.rt)
  | return ↦ is_data ty ir.rs
  | act ↦ is_data ty ir.rd && (is_data ty ir.rs && is_data ty ir.rt)
]

-- How often a label is jumped to.
abbrev pub uses : Operand → Ir → ℕ
uses p ir = if same_ptr (target ir) (some p) then 1 else 0

pub uses-eq :
    (q : Operand) (ir : Ir) {t : Option Operand}
    → target ir ≡ t
    → uses q ir ≡ (if same_ptr t (some q) then 1 else 0)
uses-eq q ir e = ap (λ t. if same_ptr t (some q) then 1 else 0) e

unfoldable pub refs : Operand → Buffer → ℕ
refs p [] = 0
refs p (ir ∷ buf) = uses p ir + refs p buf

abbrev pub types : Heap → Operand → OpeType
types h p = (h p).type

pub record IsWellFormed (s : Code) : Type 0 where
  pub unique : Unique s.buf
  pub typed : Every (λ ir. is_typed (types s.heap) ir ≡ true) s.buf

abbrev pub Counted : Heap → Buffer → Type 0
Counted h buf = (p : Operand) → (h p).label_ref_cnt ≡ pos (refs p buf)

pub refs-set :
    (p : Operand) (buf : Buffer) (i : ℕ) (a x : Ir)
    → get_elem? buf i ≡ some a
    → refs p (set buf i x) + uses p a ≡ refs p buf + uses p x
unfolding refs
refs-set p [] i a x e = cc
refs-set p (y ∷ buf) zero a x e = let e' : y ≡ a = ground arith in rw e' (ground arith)
refs-set p (y ∷ buf) (suc i) a x e = omega (arith, refs-set p buf i a x e)

pub Unused-of_refs : (p : Operand) (buf : Buffer) → refs p buf ≡ 0 → Unused p buf
unfolding refs
Unused-of_refs p [] h j ir e t = cc
Unused-of_refs p (y ∷ buf) h zero ir e t =
    let e' : y ≡ ir = ground arith in ground (arith, (rw (e', t) at h))
Unused-of_refs p (y ∷ buf) h (suc j) ir e t = Unused-of_refs p buf (omega arith) j ir e t

pub labels?-set :
    (buf : Buffer) (i : ℕ) (a x : Ir)
    → get_elem? buf i ≡ some a
    → ((q : Operand) → labels q x ≡ true → labels q a ≡ true)
    → (q : Operand) (j : ℕ) → labels? q (get_elem? (set buf i x) j) ≡ true
    → labels? q (get_elem? buf j) ≡ true
labels?-set buf i a x e fewer q j h = elim (Bool-cases (i == j)) [
  | inl here ↦
      let k : i ≡ j = eq_of_beq i j here in
      subst (λ n. labels? q (get_elem? buf n) ≡ true) k
        (rw e (fewer q (rw (get_elem?-set_self buf i x e) at (rw (← k) at h))))
  | inr other ↦ rw (get_elem?-set_ne buf i j x other) at h
]

-- Replacing an instruction by one that is at most the same label keeps labels unique.
pub Unique-set :
    (buf : Buffer) (i : ℕ) (a x : Ir)
    → get_elem? buf i ≡ some a
    → ((q : Operand) → labels q x ≡ true → labels q a ≡ true)
    → Unique buf
    → Unique (set buf i x)
Unique-set buf i a x e fewer u q j k hj hk =
    u q j k (labels?-set buf i a x e fewer q j hj) (labels?-set buf i a x e fewer q k hk)

pub types-add_ref :
    (h : Heap) (p : Operand) (k : ℤ) (q : Operand) → types (add_ref h p k) q ≡ types h q
unfolding add_ref write
types-add_ref h p k q = ground arith
