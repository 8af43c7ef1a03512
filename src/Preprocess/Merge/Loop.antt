-- ===== src/Preprocess/Merge/Loop.antt =====
-- The merging of one label, and the loop.
use mathlib.Core.Path.{fun_ext}
use naivecc.Base.{
  ℕ, zero, suc, ◌+◌, ◌<◌, ◌≤◌, true, Option, none, some, [], ◌∷◌, ◌≡◌, refl, get_elem?, set, ap,
  ◌∙◌, arith, length, sym, Bool-cases, inl, inr, Option-cases, eq_of_same_ptr, get_elem?-lt,
  get_elem?-set, length-set,
}
use naivecc.Operand.{Operand, OpeType, same_ope_type}
use naivecc.Ir.{Ir, Buffer}
use naivecc.Ir.Kinds.{IrType, same_type}
use naivecc.Preprocess.{Code, replace_in, swap_ptr, replace_operand_global, add_ref, merge_label}
use naivecc.Preprocess.Drop.{unlabelled}
use naivecc.Preprocess.Inv.{
  Every, Every-set, is_typed, is_label, is_data, IsWellFormed, types, types-add_ref,
}
use naivecc.Preprocess.Merge.Pair.{Merged, replace_at, zs-labels}
use naivecc.Preprocess.Merge.Step.{swap_ptr-data, replaced as exchanged}
use naivecc.Machine.{Machine, Kind, skip, jump, branch, return, act, kind, labels}

label-swap_ptr :
    (ty : Operand → OpeType) (a b : Operand) (q : Option Operand)
    → same_ope_type (ty a) OpeType.label ≡ true
    → is_label ty q ≡ true
    → is_label ty (swap_ptr a (some b) q) ≡ true
unfolding swap_ptr
label-swap_ptr ty a b q la h = ground arith

data-swap_ptr :
    (ty : Operand → OpeType) (a b : Operand) (q : Option Operand)
    → same_ope_type (ty b) OpeType.label ≡ true
    → is_data ty q ≡ true
    → is_data ty (swap_ptr a (some b) q) ≡ true
data-swap_ptr ty a b q lb h = rw (swap_ptr-data ty a b q lb h) h

module _ (ty : Operand → OpeType) (a b : Operand) (la : same_ope_type (ty a) OpeType.label ≡ true)
    (lb : same_ope_type (ty b) OpeType.label ≡ true) where
  typed-exchanged :
      (ir : Ir) (k : Kind)
      → kind ir.type ≡ k
      → is_typed ty ir ≡ true
      → is_typed ty (exchanged a b ir) ≡ true
  typed-exchanged ir skip e t = ground (arith, label-swap_ptr ty a b ir.rs la)
  typed-exchanged ir jump e t = ground (arith, label-swap_ptr ty a b ir.rs la)
  typed-exchanged ir branch e t = ground (
    arith,
    label-swap_ptr ty a b ir.rd la,
    data-swap_ptr ty a b ir.rs lb,
    data-swap_ptr ty a b ir.rt lb,
  )
  typed-exchanged ir return e t = ground (arith, data-swap_ptr ty a b ir.rs lb)
  typed-exchanged ir act e t = ground (
    arith,
    data-swap_ptr ty a b ir.rs lb,
    data-swap_ptr ty a b ir.rt lb,
    data-swap_ptr ty a b ir.rd lb,
  )

  typed-replace_in :
      (ir : Ir) → is_typed ty ir ≡ true → is_typed ty (replace_in a (some b) ir) ≡ true
  unfolding replace_in
  typed-replace_in ir t = elim (Bool-cases (same_type ir.type IrType.nop)) [
    | inl e ↦ rw (replace_in, e) t
    | inr e ↦ rw (replace_in, e) (typed-exchanged ir (kind ir.type) refl t)
  ]

-- The buffer after `replace_operand_global`, by positions.
pub replaced : Operand → Operand → Buffer → Buffer
replaced a b buf = (replace_operand_global a (some b) buf).1

replaced-at :
    (a b : Operand) (buf : Buffer) (j : ℕ)
    → get_elem? (replaced a b buf) j ≡ replace_at a b (get_elem? buf j)
unfolding replaced replace_operand_global
replaced-at a b [] j = refl
replaced-at a b (ir ∷ buf) zero = refl
replaced-at a b (ir ∷ buf) (suc j) = replaced-at a b buf j

length-replaced : (a b : Operand) (buf : Buffer) → length (replaced a b buf) ≡ length buf
unfolding replaced replace_operand_global
length-replaced a b [] = refl
length-replaced a b (ir ∷ buf) = ap suc (length-replaced a b buf)

-- What the loop knows of `preLabel`.
pub record Behind (buf : Buffer) (k d : ℕ) (p : Ir) (a : Operand) : Type 0 where
  pub first : get_elem? buf k ≡ some p
  pub first_label : labels a p ≡ true
  pub apart : 0 < d
  pub between :
      (j : ℕ) → k ≤ j → j < k + d → (ir : Ir) × (get_elem? buf j ≡ some ir) × (kind ir.type ≡ skip)

module _ (m : Machine) (s : Code) (w : IsWellFormed s) (k d : ℕ) (p c : Ir) (a b : Operand)
    (h : Behind s.buf k d p a) (e : get_elem? s.buf (k + d) ≡ some c) (l : labels b c ≡ true) where
  pub new_label : Ir
  new_label = unlabelled (replace_in a (some b) c)

  pub after : Buffer
  after = set (replaced a b s.buf) (k + d) new_label

  found : get_elem? (replaced a b s.buf) (k + d) ≡ some (replace_in a (some b) c)
  found = replaced-at a b s.buf (k + d) ∙ rw e

  pub is_Merged : Merged (types s.heap) s.buf after k d p c a b
  unfolding after new_label
  is_Merged = record {
    first = h.first;
    first_label = h.first_label;
    second = e;
    second_label = l;
    apart = h.apart;
    between = h.between;
    unique = w.unique;
    typed = w.typed;
    label_type = ground (arith, w.typed (k + d) c e, l);
    same_length =
        sym (length-set (replaced a b s.buf) (k + d) new_label ∙ length-replaced a b s.buf);
    merged = new_label;
    merged_type = refl;
    rest = λ j.
        get_elem?-set (replaced a b s.buf) (k + d) j new_label
          (get_elem?-lt (replaced a b s.buf) (k + d) found)
        ∙ rw (replaced-at a b s.buf j);
  }

  unfoldable pub merged_code : Code
  merged_code = record { buf = after; heap = add_ref s.heap a (s.heap b).label_ref_cnt }

  merge_label-result :
      (t : Option Code)
      → some (record {
        buf = set (replaced a b s.buf) (k + d) (unlabelled (replace_in a (some b) c));
        heap = add_ref s.heap a (s.heap b).label_ref_cnt;
      })
        ≡ t
      → merge_label k (k + d) s ≡ t
  unfolding merge_label replaced
  merge_label-result t q =
      rw
        (
          merge_label,
          h.first,
          eq_of_same_ptr p.rs (some a) (ground (arith, h.first_label)),
          e,
          eq_of_same_ptr c.rs (some b) (ground (arith, l)),
        )
        (rw found q)

  pub merge_label-eq : merge_label k (k + d) s ≡ some merged_code
  unfolding merged_code after new_label
  merge_label-eq = merge_label-result (some merged_code) refl

  label_a : same_ope_type (types s.heap a) OpeType.label ≡ true
  label_a =
      let (ir, e', sk) = h.between k (omega arith) (omega (arith, h.apart)) in
      ground (arith, w.typed k p h.first, h.first_label)

  label_b : same_ope_type (types s.heap b) OpeType.label ≡ true
  label_b = ground (arith, w.typed (k + d) c e, l)

  replaced-typed : Every (λ ir. is_typed (types s.heap) ir ≡ true) (replaced a b s.buf)
  replaced-typed j ir e' = elim (Option-cases (get_elem? s.buf j)) [
    | inl (x, ex) ↦
        let same : some (replace_in a (some b) x) ≡ some ir =
          sym (replaced-at a b s.buf j ∙ rw ex) ∙ e' in
        let same' : replace_in a (some b) x ≡ ir = cc in
        rw (← same') (typed-replace_in (types s.heap) a b label_a label_b x (w.typed j x ex))
    | inr ex ↦
        let z : get_elem? (replaced a b s.buf) j ≡ none = replaced-at a b s.buf j ∙ rw ex in cc
  ]

  after-typed : Every (λ ir. is_typed (types s.heap) ir ≡ true) after
  unfolding after new_label
  after-typed = Every-set (replaced a b s.buf) (k + d) new_label replaced-typed refl

  pub merged-IsWellFormed : IsWellFormed merged_code
  unfolding merged_code
  merged-IsWellFormed = record {
    unique = λ q i j hi hj.
        w.unique q i j (zs-labels (types s.heap) s.buf after k d p c a b is_Merged q i hi)
          (zs-labels (types s.heap) s.buf after k d p c a b is_Merged q j hj);
    typed = λ j ir e'.
        rw (fun_ext (types-add_ref s.heap a (s.heap b).label_ref_cnt)) (after-typed j ir e');
  }
