-- ===== src/Translate/Safe/Pending.antt =====
-- Lists of labels that do not stand yet.
use naivecc.Base.{
  ◌<◌, ◌≤◌, false, List, [], ◌∷◌, ◌≡◌, refl, ◌∙◌, ◌==◌, arith, ◌⊎◌, inl, inr, Bool-cases, eq_of_beq,
}
use naivecc.Operand.{Operand}
use naivecc.Translate.{TransState}
use naivecc.Translate.Safe.{marks, NotIn, Pending, Takes, here, there, In, in_here, in_there}

pub Pending-kept :
    (s t : TransState) (L : List Operand)
    → s.store.next ≤ t.store.next
    → ((l : Operand) → l < s.store.next → marks l t.buf ≡ marks l s.buf)
    → Pending L s
    → Pending L t
Pending-kept s t [] le same p = tt
Pending-kept s t (l ∷ L) le same (lt, none_yet, out, rest) =
    (omega arith, same l lt ∙ none_yet, out, Pending-kept s t L le same rest)

-- A label that is not in the list may have been placed.
pub Pending-placed :
    (s t : TransState) (x : Operand) (L : List Operand)
    → s.store.next ≤ t.store.next
    → ((l : Operand) → (l == x) ≡ false → marks l t.buf ≡ marks l s.buf)
    → NotIn x L
    → Pending L s
    → Pending L t
Pending-placed s t x [] le same n p = tt
Pending-placed s t x (l ∷ L) le same (ne, n) (lt, none_yet, out, rest) =
    (omega arith, same l (ground arith) ∙ none_yet, out, Pending-placed s t x L le same n rest)

-- A new operand is in no list of pending labels.
pub NotIn-new : (s : TransState) (L : List Operand) → Pending L s → NotIn s.store.next L
NotIn-new s [] p = tt
NotIn-new s (l ∷ L) (lt, none_yet, out, rest) = (ground arith, NotIn-new s L rest)

pub NotIn-Takes :
    {l : Operand} {L L' : List Operand} (q : Operand)
    → Takes l L L'
    → NotIn q L
    → ((q == l) ≡ false) × NotIn q L'
NotIn-Takes q here n = n
NotIn-Takes q (there k) (ne, n) = let (a, r) = NotIn-Takes q k n in (a, (ne, r))

pub Pending-Takes :
    {l : Operand} {L L' : List Operand} (s : TransState)
    → Takes l L L'
    → Pending L s
    → (l < s.store.next) × (marks l s.buf ≡ 0) × NotIn l L' × Pending L' s
Pending-Takes s here p = p
Pending-Takes s (there k) (lt, none_yet, out, rest) =
    let (a, b, c, d) = Pending-Takes s k rest in
    let (ne, out') = NotIn-Takes _ k out in (a, b, (ground arith, c), (lt, none_yet, out', d))

pub In-or-NotIn : (p : Operand) (L : List Operand) → In p L ⊎ NotIn p L
In-or-NotIn p [] = inr tt
In-or-NotIn p (x ∷ L) = elim (Bool-cases (p == x)) [
  | inl c ↦ let same : p ≡ x = eq_of_beq p x c in inl (rw same in_here)
  | inr c ↦ elim (In-or-NotIn p L) [ inl i ↦ inl (in_there i) | inr n ↦ inr (c, n) ]
]

pub In-Takes :
    {l : Operand} {L L' : List Operand} (q : Operand) → Takes l L L' → In q L → (q ≡ l) ⊎ In q L'
In-Takes q here in_here = inl refl
In-Takes q here (in_there i) = inr i
In-Takes q (there k) in_here = inr in_here
In-Takes q (there k) (in_there i) = elim (In-Takes q k i) [
  | inl e ↦ inl e
  | inr j ↦ inr (in_there j)
]
