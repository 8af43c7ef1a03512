-- ===== src/Machine/Labels.antt =====
-- Where a label is found.
use naivecc.Base.{
  ℕ, zero, suc, Bool, true, false, Option, none, some, [], ◌∷◌, ◌≡◌, refl, ◌∙◌, get_elem?, ap,
  arith, length, Bool-cases, inl, inr, Option-cases,
}
use mathlib.Core.Path.{subst}
use naivecc.Operand.{Operand}
use naivecc.Ir.{Ir, Buffer}
use naivecc.Machine.{labels, label_index}

-- Whether the instruction at an index, if any, is the label `p`.
abbrev pub labels? : Operand → Option Ir → Bool
labels? p none = false
labels? p (some ir) = labels p ir

-- No two positions carry one label.
abbrev pub Unique : Buffer → Type 0
Unique buf =
    (p : Operand) (i j : ℕ)
    → labels? p (get_elem? buf i) ≡ true
    → labels? p (get_elem? buf j) ≡ true
    → i ≡ j

pub label_index_sound :
    (p : Operand) (buf : Buffer) {j : ℕ}
    → label_index p buf ≡ some j
    → labels? p (get_elem? buf j) ≡ true
unfolding label_index
label_index_sound p [] h = cc
label_index_sound p (ir ∷ buf) {j} h = elim (Bool-cases (labels p ir)) [
  | inl here ↦ subst (λ k. labels? p (get_elem? (ir ∷ buf) k) ≡ true) {x = 0} (ground arith) here
  | inr later ↦ elim (Option-cases (label_index p buf)) [
    | inl (i, e) ↦
        subst (λ k. labels? p (get_elem? (ir ∷ buf) k) ≡ true) {x = suc i} (ground arith)
          (label_index_sound p buf e)
    | inr e ↦ absurd (ground arith)
  ]
]

pub label_index_complete :
    (p : Operand) (buf : Buffer) (j : ℕ)
    → labels? p (get_elem? buf j) ≡ true
    → (i : ℕ) × (label_index p buf ≡ some i)
unfolding label_index
label_index_complete p [] j h = cc
label_index_complete p (ir ∷ buf) zero h = (0, ground arith)
label_index_complete p (ir ∷ buf) (suc j) h = elim (Bool-cases (labels p ir)) [
  | inl here ↦ (0, ground arith)
  | inr later ↦ let (i, e) = label_index_complete p buf j h in (suc i, ground arith)
]

-- A label that stands at one place only is found there.
pub label_index-eq :
    (p : Operand) (buf : Buffer) (j : ℕ)
    → Unique buf
    → labels? p (get_elem? buf j) ≡ true
    → label_index p buf ≡ some j
label_index-eq p buf j u h =
    let (i, e) = label_index_complete p buf j h in
    e ∙ ap some (u p i j (label_index_sound p buf e) h)

pub label_index-congr :
    (p : Operand) (xs ys : Buffer)
    → length xs ≡ length ys
    → ((j : ℕ) → labels? p (get_elem? xs j) ≡ labels? p (get_elem? ys j))
    → label_index p xs ≡ label_index p ys
unfolding label_index
label_index-congr p [] [] e h = refl
label_index-congr p [] (y ∷ ys) e h = absurd (omega arith)
label_index-congr p (x ∷ xs) [] e h = absurd (omega arith)
label_index-congr p (x ∷ xs) (y ∷ ys) e h =
    ground (arith, h 0, label_index-congr p xs ys (omega arith) (λ j. h (suc j)))
