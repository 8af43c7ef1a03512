-- ===== src/Translate/Safe/Rules.antt =====
-- The rules of the judgement for results, branches and sequences, and for labels.
use naivecc.Base.{
  Bool-cases, inl, inr, ltb, ◌<◌, Bool, true, false, Option, none, some, List, [], ◌≡◌, refl, ◌∙◌,
  arith, if◌then◌else◌, length,
}
use naivecc.Operand.{Operand}
use naivecc.Translate.{TransState, M, ◌>>=◌, pure, undefined}
use naivecc.Translate.Safe.{Setting, Later, Has, Safe, Inv, Outcome, marks}
use naivecc.Translate.Safe.Pending.{Pending-kept, In-or-NotIn}

pub Later-refl : (s : TransState) → Later s s
Later-refl s = record {
  next_le = omega arith;
  length_le = omega arith;
  bounded = λ h. h;
  sticky = λ h. h;
  kept = λ p h. refl;
}

pub Later-trans : (s u t : TransState) → Later s u → Later u t → Later s t
Later-trans s u t a b = record {
  next_le = let x = a.next_le in let y = b.next_le in omega arith;
  length_le = let x = a.length_le in let y = b.length_le in omega arith;
  bounded = λ h. b.bounded (a.bounded h);
  sticky = λ h. b.sticky (a.sticky h);
  kept = λ p h. b.kept p (let x = a.next_le in omega arith) ∙ a.kept p h;
}

-- The two steps of a sequence.
pub record Steps {A B : Type 0} (m : M A) (f : A → M B) (s t : TransState) (b : B) : Type 0 where
  pub mid : TransState
  pub value : A
  pub first : m s ≡ some (value, mid)
  pub second : f value mid ≡ some (b, t)

pub bind-Steps :
    {A B : Type 0} (m : M A) (f : A → M B) (s t : TransState) (b : B)
    → (m >>= f) s ≡ some (b, t)
    → Steps m f s t b
unfolding ◌>>=◌
bind-Steps {A} {B} m f s t b h = by_result (m s) refl h
  where
    by_result :
        (r : Option (A × TransState))
        → m s ≡ r
        → (elim r [ none ↦ none | some r ↦ f r.0 r.1 ]) ≡ some (b, t)
        → Steps m f s t b
    by_result none e h = cc h
    by_result (some (a, u)) e h = record { mid = u; value = a; first = e; second = h }

below :
    {ty : Setting} (s : TransState)
    → Inv ty s
    → (p : Operand) → 0 < marks p s.buf
    → p < s.store.next
below s inv p h = elim (Bool-cases (ltb p s.store.next)) [
  | inl c ↦ ground arith
  | inr c ↦ let z = inv.fresh p (ground arith) in absurd (omega arith)
]

module _ {ty : Setting} where
  -- A label that stands is not lost.
  pub Outcome-stands :
      {A : Type 0} {L J : List Operand} {Q : A → Type 0} {s t : TransState} {a : A}
      → Inv ty s
      → Outcome ty L J Q s t a
      → (p : Operand) → 0 < marks p s.buf
      → 0 < marks p t.buf
  Outcome-stands {L} {s} inv o p h = elim (In-or-NotIn p L) [
    | inl i ↦ o.placed p i
    | inr n ↦ rw (o.marked p (below s inv p h) n) h
  ]

  pub Safe-pure :
      {A : Type 0} {H : Type 0} {b : Bool} {J : List Operand} {Q : A → Type 0} (a : A)
      → Has H (Q a)
      → Safe ty H b [] J (pure a) Q
  unfolding pure
  Safe-pure {Q} a q = record {
    later = λ s t x e. let same : s ≡ t = cc e in rw (← same) (Later-refl s);
    good = λ s t x e h agree inv p n.
        let same : s ≡ t = cc e in
        let same' : a ≡ x = cc e in
        record {
          inv = rw (← same) inv;
          marked = λ l k o. rw (← same) refl;
          placed = λ l i. elim i [ ];
          targets = λ l h. inl (rw same h);
          post = rw (← same') (q.get h);
        };
  }

  pub Safe-undefined :
      {A : Type 0} {H : Type 0} {b : Bool} {L J : List Operand} {Q : A → Type 0}
      → Safe ty H b L J undefined Q
  unfolding undefined
  Safe-undefined = record { later = λ s t x e. cc e; good = λ s t x e h agree inv p n. cc e }

  pub Safe-if :
      {A : Type 0} {H : Type 0} {b : Bool} {L J : List Operand} {Q : A → Type 0} (c : Bool)
      (m k : M A)
      → Safe ty H b L J m Q
      → Safe ty H b L J k Q
      → Safe ty H b L J (if c then m else k) Q
  Safe-if true m k x y = x
  Safe-if false m k x y = y

  -- A sequence; `c` tells whether the first command leaves an instruction in the buffer.
  sequence :
      {A B : Type 0} {H : Type 0} {b c : Bool} {L J : List Operand} {P : A → Type 0}
      {Q : B → Type 0} (m : M A) (f : A → M B)
      → ((s t : TransState) (a : A)
          → m s ≡ some (a, t)
          → (b ≡ true → 0 < length s.buf)
          → c ≡ true
          → 0 < length t.buf)
      → Safe ty H b [] J m P
      → ((a : A) → Safe ty (H × P a) c L J (f a) Q)
      → Safe ty H b L J (m >>= f) Q
  sequence m f filled x y = record {
    later = λ s t v e.
        let r = bind-Steps m f s t v e in
        Later-trans s r.mid t (x.later s r.mid r.value r.first)
          ((y r.value).later r.mid t v r.second);
    good = λ s t v e h agree inv p n.
        let r = bind-Steps m f s t v e in
        let l1 = x.later s r.mid r.value r.first in
        let l2 = (y r.value).later r.mid t v r.second in
        let o1 =
          x.good s r.mid r.value r.first h
            (λ q k. (rw⁻¹ (l2.kept q k) refl) ∙ agree q (let z = l2.next_le in omega arith)) inv tt
            n in
        let o2 =
          (y r.value).good r.mid t v r.second (h, o1.post) agree o1.inv
            (Pending-kept s r.mid _ l1.next_le (λ l k. o1.marked l k tt) p)
            (filled s r.mid r.value r.first n) in
        record {
          inv = o2.inv;
          marked =
              λ l k out. o2.marked l (let z = l1.next_le in omega arith) out ∙ o1.marked l k tt;
          placed = o2.placed;
          targets = λ q k. elim (o2.targets q k) [
            | inr z ↦ inr z
            | inl z ↦ elim (o1.targets q z) [
              | inl w ↦ inl w
              | inr w ↦ inr (elim w [ inl x ↦ inl (Outcome-stands o1.inv o2 q x) | inr j ↦ inr j ])
            ]
          ];
          post = o2.post;
        };
  }

  pub Safe-bind :
      {A B : Type 0} {H : Type 0} {b : Bool} {L J : List Operand} {P : A → Type 0} {Q : B → Type 0}
      (m : M A) (f : A → M B)
      → Safe ty H b [] J m P
      → ((a : A) → Safe ty (H × P a) b L J (f a) Q)
      → Safe ty H b L J (m >>= f) Q
  Safe-bind m f x y =
      sequence m f
        (λ s t a e n k. let z = (x.later s t a e).length_le in let w = n k in omega arith) x y

  pub Safe-bind_instr :
      {A B : Type 0} {H : Type 0} {b : Bool} {L J : List Operand} {P : A → Type 0} {Q : B → Type 0}
      (m : M A) (f : A → M B)
      → ((s t : TransState) (a : A) → m s ≡ some (a, t) → 0 < length t.buf)
      → Safe ty H b [] J m P
      → ((a : A) → Safe ty (H × P a) true L J (f a) Q)
      → Safe ty H b L J (m >>= f) Q
  Safe-bind_instr m f filled x y = sequence m f (λ s t a e n k. filled s t a e) x y
