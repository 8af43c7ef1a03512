-- ===== src/Translate/Safe/Visits.antt =====
-- What the visit of a node keeps, and the rules by which the visitors are shown to keep it.
use naivecc.Translate.Safe.Pending.{In-Takes}
use naivecc.Base.{Bool, false, Option, none, some, List, [], ◌≡◌, refl, inl, inr, ◌∷◌}
use mathlib.Core.Path.{subst}
use naivecc.Operand.{Operand}
use naivecc.Translate.{M, Attr, Visit}
use naivecc.Translate.Safe.Relabel.{Relabels}
use naivecc.Translate.Safe.{Setting, IsLab, IsDat, Has, Safe, In, here}

module _ (ty : Setting) where
  -- The operands that an expression leaves are no labels.
  abbrev pub AttrOk : Attr → Type 0
  AttrOk a = IsDat ty a.dst × IsDat ty a.base

  pub record VisitOk (v : Visit) : Type 0 where
    pub dispatch :
        (dst : Option Operand) → Safe ty (IsDat ty dst) false [] [] (v.dispatch dst) AttrOk
    pub relabel : (m : M Operand) → v.relabel ≡ some m → Relabels ty m
    pub cond :
        (label_true label_false : Operand)
        → Safe ty
            (IsLab ty label_true × IsLab ty label_false)
            false
            []
            (label_true ∷ label_false ∷ [])
            (v.cond label_true label_false)
            (λ _. Unit)

-- What is known after some commands: by the last of them, or by those before.
pub Has-last : {H X : Type 0} → Has (H × X) X
Has-last = record { get = λ h. h.1 }

pub Has-self : {X : Type 0} → Has X X
Has-self = record { get = λ h. h }

pub Has-rest : {H P X : Type 0} → Has H X → Has (H × P) X
Has-rest x = record { get = λ h. x.get h.0 }

pub Has-unit : {H : Type 0} → Has H Unit
Has-unit = record { get = λ h. tt }

pub Has-pair : {H X Y : Type 0} → Has H X → Has H Y → Has H (X × Y)
Has-pair x y = record { get = λ h. (x.get h, y.get h) }

module _ {ty : Setting} where
  pub Has-none : {H : Type 0} → Has H (IsDat ty none)
  Has-none = record { get = λ h. record { at = refl } }

  pub Has-dst : {H : Type 0} (a : Attr) → Has (H × AttrOk ty a) (IsDat ty a.dst)
  Has-dst a = record { get = λ h. h.1.0 }

  pub Has-base : {H : Type 0} (a : Attr) → Has (H × AttrOk ty a) (IsDat ty a.base)
  Has-base a = record { get = λ h. h.1.1 }

  pub Has-need :
      {H : Type 0} (o : Option Operand) (p : Operand)
      → Has H (IsDat ty o)
      → Has (H × (o ≡ some p)) (IsDat ty (some p))
  Has-need o p x = record { get = λ h. subst (IsDat ty) h.1 (x.get h.0) }

pub both-In :
    {l m : Operand} {J : List Operand}
    → In l J
    → In m J
    → (p : Operand) → In p (l ∷ m ∷ [])
    → In p J
both-In i j p k = elim (In-Takes p here k) [
  | inl same ↦ rw same i
  | inr k ↦ elim (In-Takes p here k) [ inl same ↦ rw same j | inr k ↦ elim k [ ] ]
]

module _ {ty : Setting} where
  pub weaken_in :
      {A : Type 0} {H K : Type 0} {b : Bool} {I J : List Operand} {Q : A → Type 0} {m : M A}
      → Safe ty K false [] I m Q
      → (H → K)
      → ((p : Operand) → In p I → In p J)
      → Safe ty H b [] J m Q
  weaken_in x k sub = record {
    later = x.later;
    good = λ s t a e h agree inv p n.
        let o = x.good s t a e (k h) agree inv tt (λ c. cc c) in
        record {
          inv = o.inv;
          marked = λ l lt out. o.marked l lt tt;
          placed = λ l i. elim i [ ];
          targets = λ q g. elim (o.targets q g) [
            | inl z ↦ inl z
            | inr z ↦ inr (elim z [ inl w ↦ inl w | inr j ↦ inr (sub q j) ])
          ];
          post = o.post;
        };
  }

  pub weaken :
      {A : Type 0} {H K : Type 0} {b : Bool} {J : List Operand} {Q : A → Type 0} {m : M A}
      → Safe ty K false [] [] m Q
      → (H → K)
      → Safe ty H b [] J m Q
  weaken x k = weaken_in x k (λ p i. elim i [ ])

  pub Safe-dispatch :
      {H : Type 0} {b : Bool} {J : List Operand} (v : Visit) (dst : Option Operand)
      → VisitOk ty v
      → Has H (IsDat ty dst)
      → Safe ty H b [] J (v.dispatch dst) (AttrOk ty)
  Safe-dispatch v dst ok d = weaken (ok.dispatch dst) d.get

  pub Safe-cond :
      {H : Type 0} {b : Bool} {J : List Operand} (v : Visit) (label_true label_false : Operand)
      → VisitOk ty v
      → Has H (IsLab ty label_true)
      → Has H (IsLab ty label_false)
      → In label_true J
      → In label_false J
      → Safe ty H b [] J (v.cond label_true label_false) (λ _. Unit)
  Safe-cond v label_true label_false ok t f i j =
      weaken_in (ok.cond label_true label_false) (λ h. (t.get h, f.get h)) (both-In i j)
