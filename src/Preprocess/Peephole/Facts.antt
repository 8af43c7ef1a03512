-- ===== src/Preprocess/Peephole/Facts.antt =====
-- What a rewriting of the buffer keeps, and the label that `deref_label` leaves.
use mathlib.Core.Path.{fun_ext, subst}
use naivecc.Base.{
  ℕ, zero, suc, ◌+◌, true, false, [], ◌∷◌, some, ◌≡◌, refl, get_elem?, set, ap, ◌∙◌, ◌==◌, ◌≢◌, ◌↔◌,
  arith, length, sym, if◌then◌else◌, Bool-cases, inl, inr, get_elem?-set, get_elem?-set_ne,
  set-get_elem?, eq_of_beq, beq_refl, get_elem?-lt, length-set,
}
use naivecc.Base.Int.{ℤ, pos, negsuc, ◌+ℤ◌}
use naivecc.Operand.{Operand, OpeType, Heap, write}
use naivecc.Ir.{Ir, Buffer}
use naivecc.Ir.Kinds.{IrType, same_type}
use naivecc.Preprocess.{Code, add_ref, deref_label}
use naivecc.Preprocess.Inv.{
  Every, IsWellFormed, is_typed, types, Counted, refs, uses, Unused-of_refs, types-add_ref,
}
use naivecc.Preprocess.Drop.{unlabelled, Halts-LabelDropped}
use naivecc.Machine.{Machine, act, kind, target, labels, Outcome, Halts}

-- Where execution may begin: at any instruction but a jump.
abbrev pub Entry : Buffer → ℕ → Type 0
Entry buf pc = (ir : Ir) → get_elem? buf pc ≡ some ir → same_type ir.type IrType.jmp ≡ false

-- The data instructions of `xs`, among them the heads of functions, stand in `ys` where they stood.
abbrev pub Kept : Buffer → Buffer → Type 0
Kept xs ys =
    (pc : ℕ) (ir : Ir) → get_elem? xs pc ≡ some ir → kind ir.type ≡ act → get_elem? ys pc ≡ some ir

pub Kept-set :
    (xs ys : Buffer) (i : ℕ) (a x : Ir)
    → get_elem? ys i ≡ some a
    → kind a.type ≢ act
    → Kept xs ys
    → Kept xs (set ys i x)
Kept-set xs ys i a x e n k pc ir g h = elim (Bool-cases (i == pc)) [
  | inl here ↦
      let e' : get_elem? ys pc ≡ some a =
        subst (λ j. get_elem? ys j ≡ some a) (eq_of_beq i pc here) e in
      let same : some ir ≡ some a = sym (k pc ir g h) ∙ e' in
      let same' : ir ≡ a = cc in absurd (n (rw (← same') h))
  | inr other ↦ get_elem?-set_ne ys i pc x other ∙ k pc ir g h
]

pub label-not_act : (p : Operand) (c : Ir) → labels p c ≡ true → kind c.type ≢ act
label-not_act p c l h = ground arith

-- What a rewriting of the buffer in place keeps.
pub record Preserves (m : Machine) (s t : Code) : Type 0 where
  pub same_length : length s.buf ≡ length t.buf
  pub entry : (pc : ℕ) → Entry s.buf pc → Entry t.buf pc
  pub kept : Kept s.buf t.buf
  pub halts :
      (pc : ℕ) (st : m.State) (o : Outcome m)
      → Entry s.buf pc
      → Halts m s.buf pc st o ↔ Halts m t.buf pc st o

pub record IsReady (s : Code) : Type 0 where
  pub well_formed : IsWellFormed s
  pub counted : Counted s.heap s.buf

-- The label instruction that `deref_label` leaves, when `n` uses are left.
abbrev pub left_over : ℕ → Ir → Ir
left_over zero c = unlabelled c
left_over (suc n) c = c

pub count_down :
    (h : Heap) (p : Operand) (n : ℕ)
    → (h p).label_ref_cnt ≡ pos (suc n)
    → ((add_ref h p (negsuc 0)) p).label_ref_cnt ≡ pos n
unfolding add_ref write ◌+ℤ◌
count_down h p n e = ground arith

pub count_other :
    (h : Heap) (p q : Operand) (n : ℤ)
    → p ≢ q
    → ((add_ref h p n) q).label_ref_cnt ≡ (h q).label_ref_cnt
unfolding add_ref write
count_other h p q n e = ground arith

pub deref_label-eq :
    (c : Ir) (h : Heap) (p : Operand) (n : ℕ)
    → labels p c ≡ true
    → (h p).label_ref_cnt ≡ pos (suc n)
    → deref_label c h ≡ some (left_over n c, add_ref h p (negsuc 0))
unfolding deref_label
deref_label-eq c h p zero l e = ground (arith, count_down h p 0 e)
deref_label-eq c h p (suc n) l e = ground (arith, count_down h p (suc n) e)

-- What is left of a label may stand where the label stood.
pub left_over-labels :
    (n : ℕ) (c : Ir) (q : Operand) → labels q (left_over n c) ≡ true → labels q c ≡ true
left_over-labels zero c q h = ground arith
left_over-labels (suc n) c q h = h

pub left_over-typed :
    (ty : Operand → OpeType) (n : ℕ) (c : Ir)
    → is_typed ty c ≡ true
    → is_typed ty (left_over n c) ≡ true
left_over-typed ty zero c h = refl
left_over-typed ty (suc n) c h = h

pub uses-label : (c : Ir) (p q : Operand) → labels p c ≡ true → uses q c ≡ 0
uses-label c p q h = ground arith

pub left_over-uses :
    (n : ℕ) (c : Ir) (p q : Operand) → labels p c ≡ true → uses q (left_over n c) ≡ 0
left_over-uses zero c p q h = refl
left_over-uses (suc n) c p q h = ground arith

-- A rewriting that needs no more of the heap than one reference less to `p`.
pub typed-heap :
    (h : Heap) (p : Operand) (k : ℤ) (buf : Buffer)
    → Every (λ ir. is_typed (types h) ir ≡ true) buf
    → Every (λ ir. is_typed (types (add_ref h p k)) ir ≡ true) buf
typed-heap h p k buf t j ir e = rw (fun_ext (types-add_ref h p k)) (t j ir e)

pub refs_pos :
    (p : Operand) (buf : Buffer) (i : ℕ) (a : Ir)
    → get_elem? buf i ≡ some a
    → target a ≡ some p
    → (n : ℕ) × (refs p buf ≡ suc n)
unfolding refs
refs_pos p [] i a e t = cc
refs_pos p (y ∷ buf) zero a e t =
    (refs p buf, (let e' : y ≡ a = ground arith in rw (e', t) (ground (arith, beq_refl p))))
refs_pos p (y ∷ buf) (suc i) a e t =
    let (n, q) = refs_pos p buf i a e t in (uses p y + n, omega arith)

pub Entry-set :
    (buf : Buffer) (i : ℕ) (x : Ir) (pc : ℕ)
    → Entry buf pc
    → same_type x.type IrType.jmp ≡ false
    → Entry (set buf i x) pc
Entry-set [] i x pc g h ir e = cc
Entry-set (y ∷ buf) zero x zero g h ir e = let e' : x ≡ ir = ground arith in rw (← e') h
Entry-set (y ∷ buf) zero x (suc pc) g h ir e = g ir e
Entry-set (y ∷ buf) (suc i) x zero g h ir e = g ir e
Entry-set (y ∷ buf) (suc i) x (suc pc) g h ir e = Entry-set buf i x pc g h ir e

pub left_over-not_jump :
    (n : ℕ) (c : Ir) (p : Operand)
    → labels p c ≡ true
    → same_type (left_over n c).type IrType.jmp ≡ false
left_over-not_jump zero c p h = refl
left_over-not_jump (suc n) c p h = ground arith

-- One use of `p` less, in the buffer and in the heap.
pub Counted-less :
    (s : Code) (p : Operand) (n : ℕ)
    → IsReady s
    → refs p s.buf ≡ suc n
    → (buf : Buffer) → ((q : Operand) → refs q buf + (if p == q then 1 else 0) ≡ refs q s.buf)
    → Counted (add_ref s.heap p (negsuc 0)) buf
Counted-less s p n r count buf less q = elim (Bool-cases (p == q)) [
  | inl e ↦
      subst (λ k. (add_ref s.heap p (negsuc 0) k).label_ref_cnt ≡ pos (refs k buf))
        (eq_of_beq p q e)
        (count_down s.heap p n (r.counted p ∙ ap pos count)
          ∙ ap pos (ground (arith, less p, beq_refl p)))
  | inr e ↦
      count_other s.heap p q (negsuc 0) (ground arith)
      ∙ r.counted q
      ∙ ap pos (ground (arith, less q))
]

-- Taking back what is left of a label.
pub drop_label-Halts :
    (m : Machine) (buf : Buffer) (k : ℕ) (c : Ir) (p : Operand) (n : ℕ)
    → get_elem? buf k ≡ some c
    → labels p c ≡ true
    → refs p buf ≡ n
    → (pc : ℕ) (st : m.State) (o : Outcome m)
    → Halts m buf pc st o ↔ Halts m (set buf k (left_over n c)) pc st o
drop_label-Halts m buf k c p zero e l count pc st o =
    Halts-LabelDropped buf (set buf k (unlabelled c)) k c p
      (record {
        place = e;
        is_label = l;
        unused = Unused-of_refs p buf count;
        same_length = sym (length-set buf k (unlabelled c));
        rest = λ j. get_elem?-set buf k j (unlabelled c) (get_elem?-lt buf k e);
      })
      m pc st o
drop_label-Halts m buf k c p (suc n) e l count pc st o =
    rw (set-get_elem? buf k c e) (λ h. h, λ h. h)
