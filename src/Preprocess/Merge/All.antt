-- ===== src/Preprocess/Merge/All.antt =====
-- The whole of the third loop.
use naivecc.Base.{
  ℕ, zero, suc, ◌+◌, ◌<◌, ◌≤◌, true, false, Option, none, some, ◌≡◌, refl, get_elem?, ◌∙◌, ◌==◌,
  arith, length, sym, ap, eq_of_beq, Bool-cases, inl, inr, get_elem?-of-lt, Option-cases, beq_refl,
}
use mathlib.Core.Path.{subst}
use naivecc.Operand.{Operand, OpeType}
use naivecc.Ir.{Ir, Buffer}
use naivecc.Ir.Kinds.{IrType, same_type, eq_label}
use naivecc.Preprocess.{Code, replace_in, merge_label, merge_at, merge_labels}
use naivecc.Preprocess.Inv.{is_typed, is_label, IsWellFormed, types}
use naivecc.Preprocess.Peephole.Facts.{Entry, Kept, label-not_act, Preserves}
use naivecc.Preprocess.Peephole.{Preserves-refl, Preserves-trans}
use naivecc.Preprocess.Merge.Pair.{
  Merged, Halts-Merged, zs_between, not_b, labels-replace, type-replace_in,
}
use naivecc.Preprocess.Merge.Step.{replace_in-act}
use naivecc.Preprocess.Merge.Loop.{
  Behind, merged_code, merge_label-eq, merged-IsWellFormed, is_Merged,
}
use naivecc.Machine.{Machine, skip, kind, labels}

-- `preLabel` is NULL, or points to a label with nothing but labels and NOPs behind it.
abbrev pub Pre : Buffer → Option ℕ → ℕ → Type 0
Pre buf none i = Unit {0}
Pre buf (some k) i = (d : ℕ) × (p : Ir) × (a : Operand) × (k + d ≡ i) × Behind buf k d p a

module _ (m : Machine) (s : Code) (w : IsWellFormed s) (k d : ℕ) (p c : Ir) (a b : Operand)
    (h : Behind s.buf k d p a) (e : get_elem? s.buf (k + d) ≡ some c) (l : labels b c ≡ true) where
  result : Code
  result = merged_code m s w k d p c a b h e l

  the_pair : Merged (types s.heap) s.buf result.buf k d p c a b
  unfolding result merged_code
  the_pair = is_Merged m s w k d p c a b h e l

  result-eq : merge_label k (k + d) s ≡ some result
  unfolding result
  result-eq = merge_label-eq m s w k d p c a b h e l

  result-IsWellFormed : IsWellFormed result
  unfolding result
  result-IsWellFormed = merged-IsWellFormed m s w k d p c a b h e l

  zs-Entry : (pc : ℕ) → Entry s.buf pc → Entry result.buf pc
  zs-Entry pc g ir e' = elim (Bool-cases (k + d == pc)) [
    | inl here ↦ ground (arith, the_pair.rest pc, the_pair.merged_type)
    | inr n ↦ elim (Option-cases (get_elem? s.buf pc)) [
      | inl (x, ex) ↦
          let z : some (replace_in a (some b) x) ≡ some ir =
            sym (the_pair.rest pc ∙ rw (n, ex)) ∙ e' in
          let z' : replace_in a (some b) x ≡ ir = cc in
          rw (← z') (rw (type-replace_in a b x) (g x ex))
      | inr ex ↦ let z : none ≡ some ir = sym (the_pair.rest pc ∙ rw (n, ex)) ∙ e' in cc
    ]
  ]

  zs-Kept : Kept s.buf result.buf
  zs-Kept pc ir g k' = elim (Bool-cases (k + d == pc)) [
    | inl here ↦
        let g' : get_elem? s.buf (k + d) ≡ some ir = rw (eq_of_beq (k + d) pc here) g in
        let same : some c ≡ some ir = sym e ∙ g' in
        let same' : c ≡ ir = cc in absurd (label-not_act b c l (rw same' k'))
    | inr n ↦
        the_pair.rest pc
        ∙ rw (n, g)
            (ap some
              (replace_in-act (types s.heap) a b ir the_pair.label_type (w.typed pc ir g) k'))
  ]

  result-Preserves : Preserves m s result
  result-Preserves = record {
    same_length = the_pair.same_length;
    entry = zs-Entry;
    kept = zs-Kept;
    halts =
        λ pc st o g. Halts-Merged (types s.heap) s.buf result.buf k d p c a b the_pair m pc st o;
  }

  result-Behind : Behind result.buf k (suc d) (replace_in a (some b) p) a
  result-Behind = record {
    first = the_pair.rest k ∙ rw (still_there, h.first);
    first_label =
        labels-replace a b a p
          (not_b (types s.heap) s.buf result.buf k d p c a b the_pair k p still_there h.first)
        ∙ h.first_label;
    apart = omega arith;
    between = between;
  }
    where
      still_there : (k + d == k) ≡ false
      still_there = ground (arith, h.apart)

      between :
          (j : ℕ)
          → k ≤ j
          → j < k + suc d
          → (ir : Ir) × (get_elem? result.buf j ≡ some ir) × (kind ir.type ≡ skip)
      between j lo hi = elim (Bool-cases (k + d == j)) [
        | inl here ↦ (the_pair.merged, the_pair.rest j ∙ rw here, rw the_pair.merged_type refl)
        | inr n ↦
            zs_between (types s.heap) s.buf result.buf k d p c a b the_pair m j lo (ground arith)
      ]

-- A round or the rest of the loop, from `preLabel` and an index to the next.
pub record Merges (m : Machine) (s : Code) (res : Option Code) : Type 0 where
  pub code : Code
  pub succeeds : res ≡ some code
  pub well_formed : IsWellFormed code
  pub preserves : Preserves m s code

record Round (m : Machine) (s : Code) (i : ℕ) (res : Option (Option ℕ × Code)) : Type 0 where
  pre : Option ℕ
  code : Code
  succeeds : res ≡ some (pre, code)
  well_formed : IsWellFormed code
  preserves : Preserves m s code
  behind : Pre code.buf pre (i + 1)

label_name :
    (ty : Operand → OpeType) (q : Option Operand)
    → is_label ty q ≡ true
    → (b : Operand) × (q ≡ some b)
label_name ty none h = cc
label_name ty (some b) h = (b, refl)

named_label :
    (ty : Operand → OpeType) (c : Ir)
    → same_type c.type IrType.label ≡ true
    → is_typed ty c ≡ true
    → (b : Operand) × (labels b c ≡ true)
named_label ty c h t =
    let e : c.type ≡ IrType.label = eq_label c.type h in
    let (b, q) = label_name ty c.rs (ground arith) in (b, ground (arith, beq_refl b))

module _ (m : Machine) (s : Code) (w : IsWellFormed s) (i : ℕ) (c : Ir)
    (e : get_elem? s.buf i ≡ some c) where
  at_other :
      (pre : Option ℕ) → same_type c.type IrType.label ≡ false → Round m s i (merge_at pre i s)
  unfolding merge_at
  at_other pre f = record {
    pre = none;
    code = s;
    succeeds = rw (merge_at, e) (rw f refl);
    well_formed = w;
    preserves = Preserves-refl m s;
    behind = tt;
  }

  at_label :
      (pre : Option ℕ)
      → Pre s.buf pre i
      → same_type c.type IrType.label ≡ true
      → Round m s i (merge_at pre i s)
  unfolding merge_at
  at_label none h t = record {
    pre = some i;
    code = s;
    succeeds = rw (merge_at, e) (rw t refl);
    well_formed = w;
    preserves = Preserves-refl m s;
    behind = fresh (named_label (types s.heap) c t (w.typed i c e));
  }
    where
      fresh : (b : Operand) × (labels b c ≡ true) → Pre s.buf (some i) (i + 1)
      fresh (b, l) = (
        1,
        c,
        b,
        refl,
        record {
          first = e;
          first_label = l;
          apart = omega arith;
          between = λ j lo hi.
              let here : i ≡ j = omega arith in
              (c, subst (λ n. get_elem? s.buf n ≡ some c) here e, rw (eq_label c.type t) refl);
        },
      )
  at_label (some k) (d, p, a, q, h) t =
      let (b, l) = named_label (types s.heap) c t (w.typed i c e) in
      let e' : get_elem? s.buf (k + d) ≡ some c = rw q e in
      record {
        pre = some k;
        code = result m s w k d p c a b h e' l;
        succeeds =
            rw (merge_at, e)
              (rw
                (
                  t,
                  subst (λ n. merge_label k n s ≡ some (result m s w k d p c a b h e' l)) q
                      (result-eq m s w k d p c a b h e' l),
                )
                refl);
        well_formed = result-IsWellFormed m s w k d p c a b h e' l;
        preserves = result-Preserves m s w k d p c a b h e' l;
        behind = (
          suc d,
          replace_in a (some b) p,
          a,
          omega arith,
          result-Behind m s w k d p c a b h e' l,
        );
      }

  at_any : (pre : Option ℕ) → Pre s.buf pre i → Round m s i (merge_at pre i s)
  at_any pre h = elim (Bool-cases (same_type c.type IrType.label)) [
    | inl t ↦ at_label pre h t
    | inr f ↦ at_other pre f
  ]

-- The loop over the rounds left.
pub merge_labels-Merges :
    (m : Machine) (n i : ℕ) (pre : Option ℕ) (s : Code)
    → IsWellFormed s
    → n + i ≤ length s.buf
    → Pre s.buf pre i
    → Merges m s (merge_labels n pre i s)
unfolding merge_labels
merge_labels-Merges m zero i pre s w h behind = record {
  code = s;
  succeeds = refl;
  well_formed = w;
  preserves = Preserves-refl m s;
}
merge_labels-Merges m (suc n) i pre s w h behind =
    let (c, e) = get_elem?-of-lt s.buf i (omega arith) in
    let one = at_any m s w i c e pre behind in
    let rest =
      merge_labels-Merges m n (i + 1) one.pre one.code one.well_formed
        (omega (arith, one.preserves.same_length)) one.behind in
    record {
      code = rest.code;
      succeeds = rw (merge_labels, one.succeeds) rest.succeeds;
      well_formed = rest.well_formed;
      preserves = Preserves-trans m one.preserves rest.preserves;
    }
