-- ===== src/Liveness/NextUse.antt =====
-- What the backward scan computes for temporaries.
use naivecc.Base.{
  ℕ, ◌+◌, Bool, true, false, ◌||◌, Option, none, some, [], ◌∷◌, ◌≡◌, refl, ◌∙◌, ap, arith,
  if◌then◌else◌, same_ptr, eq_of_beq,
}
use naivecc.Base.Int.{ℤ, pos}
use naivecc.Operand.{Operand, Heap, write, is_tmp, no_use}
use naivecc.Ir.{Buffer}
use naivecc.Liveness.{mark, live_loop}

-- The reference: the index of the first instruction that reads `q`, unless one writes it before;
-- `last` where none does either.
unfoldable pub first_use : Operand → ℕ → Buffer → ℤ → ℤ
first_use q i [] last = last
first_use q i (ir ∷ rest) last =
    if same_ptr ir.rs (some q) || same_ptr ir.rt (some q)
    then pos i
    else if same_ptr ir.rd (some q)
    then no_use
    else first_use q (i + 1) rest last

mark-type :
    (live : Bool) (at_use : ℤ) (p : Option Operand) (h : Heap) (q : Operand)
    → ((mark live at_use p h) q).type ≡ (h q).type
unfolding mark write
mark-type live at_use none h q = refl
mark-type live at_use (some p) h q = ground arith

mark-next_use :
    (live : Bool) (at_use : ℤ) (p : Option Operand) (h : Heap) (q : Operand)
    → is_tmp h (some q) ≡ true
    → ((mark live at_use p h) q).next_use ≡ (if same_ptr p (some q) then at_use else (h q).next_use)
unfolding mark write is_tmp
mark-next_use live at_use none h q t = refl
mark-next_use live at_use (some p) h q t = ground (arith, eq_of_beq p q)

is_tmp-mark :
    (live : Bool) (at_use : ℤ) (p : Option Operand) (h : Heap) (q : Operand)
    → is_tmp h (some q) ≡ true
    → is_tmp (mark live at_use p h) (some q) ≡ true
unfolding is_tmp
is_tmp-mark live at_use p h q t = rw (is_tmp, mark-type live at_use p h q) t

choose : (a b : Bool) (x y : ℤ) → (if b then x else if a then x else y) ≡ (if a || b then x else y)
choose true true x y = refl
choose true false x y = refl
choose false true x y = refl
choose false false x y = refl

-- For a temporary `q`, the scan of a block leaves it a temporary, and leaves as its next use the index
-- of the first instruction that reads it, `no_use` if one writes it before, and what the heap
-- held if no instruction has it.
pub live_loop-next_use :
    (q : Operand) (i : ℕ) (buf : Buffer) (h : Heap)
    → is_tmp h (some q) ≡ true
    → (is_tmp (live_loop i buf h).1 (some q) ≡ true)
      × (((live_loop i buf h).1 q).next_use ≡ first_use q i buf (h q).next_use)
unfolding live_loop first_use
live_loop-next_use q i [] h t = (t, refl)
live_loop-next_use q i (ir ∷ rest) h t =
    let rec = live_loop-next_use q (i + 1) rest h t in
    let h0 = (live_loop (i + 1) rest h).1 in
    let h1 = mark false no_use ir.rd h0 in
    let h2 = mark true (pos i) ir.rs h1 in
    let t1 = is_tmp-mark false no_use ir.rd h0 q rec.0 in
    let t2 = is_tmp-mark true (pos i) ir.rs h1 q t1 in
    (
      is_tmp-mark true (pos i) ir.rt h2 q t2,
      mark-next_use true (pos i) ir.rt h2 q t2
          ∙ ap (λ u. if same_ptr ir.rt (some q) then pos i else u)
              (mark-next_use true (pos i) ir.rs h1 q t1
                ∙ ap (λ u. if same_ptr ir.rs (some q) then pos i else u)
                    (mark-next_use false no_use ir.rd h0 q rec.0
                      ∙ ap (λ u. if same_ptr ir.rd (some q) then no_use else u) rec.1))
          ∙ choose (same_ptr ir.rs (some q)) (same_ptr ir.rt (some q)) _ _,
    )
