-- ===== src/CmmType/Total.antt =====
-- `typecmp` ends, with an answer, on types without cycles whose cells are filled in.
use naivecc.Base.{
  ℕ, zero, suc, ◌≤◌, ◌<◌, ◌==◌, Bool, true, false, Option, none, some, ◌&&◌, ◌||◌, ◌≡◌, ◌∙◌, sym,
  refl, arith, Bool-cases, inl, inr, and_left, and_right,
}
use naivecc.Ir.Relop.{str_eq}
use naivecc.CmmType.{
  TypeClass, Types, same_class, walk, is_array, strip, compare_ret, compare_func, compare_fields,
  compare_class, compare_cells, typecmp,
}
use naivecc.CmmType.Fuel.{IsRanked, height, height-le, typecmp-fuel}

-- The classes that `typecmp` compares.
abbrev pub is_compared : TypeClass → Bool
is_compared TypeClass.func = true
is_compared TypeClass.array = true
is_compared TypeClass.struct = true
is_compared TypeClass.int = true
is_compared TypeClass.float = true
is_compared _ = false

-- NULL, or a cell that satisfies `P`.
abbrev pub Each : (ℕ → Bool) → Option ℕ → Type 0
Each P none = Unit
Each P (some p) = P p ≡ true

-- The cells of `is_type` are types, and those of `is_item` stand in lists of parameters or fields.
pub record IsFilled (h : Types) (is_type is_item : ℕ → Bool) : Type 0 where
  pub class : (p : ℕ) → is_type p ≡ true → is_compared (h p).class ≡ true
  pub element_type :
      (p : ℕ) → is_type p ≡ true → is_array h p ≡ true → (q : ℕ) × ((h p).base ≡ some q)
  pub ret :
      (p : ℕ) → is_type p ≡ true → (h p).class ≡ TypeClass.func → (q : ℕ) × ((h p).base ≡ some q)
  pub table : (p : ℕ) → is_type p ≡ true → (h p).class ≡ TypeClass.struct → (h p).field_table ≡ none
  pub base : (p : ℕ) → is_type p ≡ true → Each is_type (h p).base
  pub list : (p : ℕ) → is_type p ≡ true → Each is_item (h p).link
  pub item_base : (p : ℕ) → is_item p ≡ true → Each is_type (h p).base
  pub item_link : (p : ℕ) → is_item p ≡ true → Each is_item (h p).link

eq_of_same_class : (a b : TypeClass) → same_class a b ≡ true → a ≡ b
eq_of_same_class TypeClass.func TypeClass.func h = refl
eq_of_same_class TypeClass.array TypeClass.array h = refl
eq_of_same_class TypeClass.struct TypeClass.struct h = refl
eq_of_same_class TypeClass.int TypeClass.int h = refl
eq_of_same_class TypeClass.float TypeClass.float h = refl
eq_of_same_class TypeClass.field TypeClass.field h = refl
eq_of_same_class TypeClass.param TypeClass.param h = refl
eq_of_same_class TypeClass.meta TypeClass.meta h = refl
eq_of_same_class _ _ h = cc h

abbrev Decided : Option Bool → Type 0
Decided r = (b : Bool) × (r ≡ some b)

Each-at : (P : ℕ → Bool) (x : Option ℕ) (p : ℕ) → x ≡ some p → Each P x → P p ≡ true
Each-at P none p e h = cc e
Each-at P (some q) p e h = let same : q ≡ p = cc e in rw (← same) h

module _ (h : Types) (rank : ℕ → ℕ) (w : IsRanked h rank) (is_type is_item : ℕ → Bool)
    (sound : IsFilled h is_type is_item) (r : Option ℕ → Option ℕ → Option Bool) (k : ℕ)
    (total : (x y : Option ℕ)
      → height rank x ≤ k
      → Each is_type x
      → Each is_type y
      → Decided (r x y)) where
  base_height : (p : ℕ) → height rank (h p).base ≤ rank p
  base_height p = height-le rank (h p).base (rank p) (w.base_less p)

  link_height : (p : ℕ) → height rank (h p).link ≤ rank p
  link_height p = height-le rank (h p).link (rank p) (w.link_less p)

  walk-Decided :
      (n : ℕ) (x y : Option ℕ)
      → height rank x ≤ k
      → height rank x < n
      → Each is_item x
      → Each is_item y
      → Decided (walk h r n x y)
  unfolding walk
  walk-Decided zero x y a b c d = absurd (omega arith)
  walk-Decided (suc n) none none a b c d = (true, refl)
  walk-Decided (suc n) none (some q) a b c d = (false, refl)
  walk-Decided (suc n) (some p) none a b c d = (false, refl)
  walk-Decided (suc n) (some p) (some q) a b c d =
      let l = link_height p in
      let (same, e) =
        total (h p).base (h q).base (omega (arith, base_height p)) (sound.item_base p c)
          (sound.item_base q d) in
      let (rest, g) =
        walk-Decided n (h p).link (h q).link (omega arith) (omega arith) (sound.item_link p c)
          (sound.item_link q d) in
      elim (Bool-cases same) [ inl t ↦ (rest, rw (e, t) g) | inr f ↦ (false, rw (e, f) refl) ]

  -- One round of the loop over two arrays.
  strip_round :
      (n p q : ℕ)
      → is_type p ≡ true
      → is_type q ≡ true
      → (is_array h p && is_array h q) ≡ true
      → ((p' q' : ℕ)
          → rank p' < rank p
          → is_type p' ≡ true
          → is_type q' ≡ true
          → Decided (strip h r n p' q'))
      → Decided (strip h r (suc n) p q)
  unfolding strip
  strip_round n p q c d both next =
      let (p', e) = sound.element_type p c (and_left (is_array h p) (is_array h q) both) in
      let (q', g) = sound.element_type q d (and_right (is_array h p) (is_array h q) both) in
      let (b, z) =
        next p' q' (w.base_less p p' e) (Each-at is_type (h p).base p' e (sound.base p c))
          (Each-at is_type (h q).base q' g (sound.base q d)) in
      (b, rw (both, e, g) z)

  strip-Decided :
      (n p q : ℕ)
      → suc (rank p) ≤ k
      → rank p < n
      → is_type p ≡ true
      → is_type q ≡ true
      → Decided (strip h r n p q)
  unfolding strip
  strip-Decided zero p q a b c d = absurd (omega arith)
  strip-Decided (suc n) p q a b c d = elim (Bool-cases (is_array h p && is_array h q)) [
    | inl both ↦
        strip_round n p q c d both
          (λ p' q' l c' d'. strip-Decided n p' q' (omega arith) (omega arith) c' d')
    | inr differ ↦ elim (Bool-cases (is_array h p || is_array h q)) [
      | inl one ↦ (false, rw (differ, one) refl)
      | inr neither ↦ let (v, z) = total (some p) (some q) a c d in (v, rw (differ, neither) z)
    ]
  ]

  strip_top :
      (n p q : ℕ)
      → rank p ≤ k
      → rank p < n
      → is_type p ≡ true
      → is_type q ≡ true
      → is_array h p ≡ true
      → Decided (strip h r n p q)
  unfolding strip
  strip_top zero p q a b c d e = absurd (omega arith)
  strip_top (suc n) p q a b c d e = elim (Bool-cases (is_array h q)) [
    | inl other ↦
        strip_round n p q c d (rw (e, other) refl)
          (λ p' q' l c' d'. strip-Decided n p' q' (omega arith) (omega arith) c' d')
    | inr not_array ↦ (false, rw (e, not_array) refl)
  ]

  compare_ret-Decided :
      (p q : ℕ)
      → rank p ≤ k
      → is_type p ≡ true
      → is_type q ≡ true
      → (h p).class ≡ TypeClass.func
      → (h q).class ≡ TypeClass.func
      → Decided (compare_ret h r (h p).base (h q).base)
  unfolding compare_ret
  compare_ret-Decided p q a c d e g =
      let (p', x) = sound.ret p c e in
      let (q', y) = sound.ret q d g in
      let (b, z) =
        total (some p') (some q') (let l = w.base_less p p' x in omega arith)
          (Each-at is_type (h p).base p' x (sound.base p c))
          (Each-at is_type (h q).base q' y (sound.base q d)) in
      (b, rw (x, y) z)

  class-Decided :
      (c : TypeClass) (n p q : ℕ)
      → (h p).class ≡ c
      → (h q).class ≡ c
      → rank p ≤ k
      → rank p < n
      → is_type p ≡ true
      → is_type q ≡ true
      → Decided (compare_class h r c n p q)
  unfolding compare_class compare_func compare_fields
  class-Decided TypeClass.func n p q e g a b c d =
      let l = link_height p in
      let (same, z) =
        walk-Decided n (h p).link (h q).link (omega arith) (omega arith) (sound.list p c)
          (sound.list q d) in
      let (ret, y) = compare_ret-Decided p q a c d e g in
      elim (Bool-cases (str_eq (h p).name (h q).name)) [
        | inr f ↦ (false, rw f refl)
        | inl t ↦ elim (Bool-cases same) [
          | inl u ↦ (ret, rw (t, z, u) y)
          | inr v ↦ (false, rw (t, z, v) refl)
        ]
      ]
  class-Decided TypeClass.array n p q e g a b c d = strip_top n p q a b c d (rw e refl)
  class-Decided TypeClass.struct n p q e g a b c d =
      let l = link_height p in
      let (v, z) =
        walk-Decided n (h p).link (h q).link (omega arith) (omega arith) (sound.list p c)
          (sound.list q d) in
      (v, rw (sound.table p c e, sound.table q d g) z)
  class-Decided TypeClass.int n p q e g a b c d = (true, refl)
  class-Decided TypeClass.float n p q e g a b c d = (true, refl)
  class-Decided TypeClass.field n p q e g a b c d = cc (rw e at (sound.class p c))
  class-Decided TypeClass.param n p q e g a b c d = cc (rw e at (sound.class p c))
  class-Decided TypeClass.meta n p q e g a b c d = cc (rw e at (sound.class p c))

  cells-Decided :
      (n p q : ℕ)
      → rank p ≤ k
      → rank p < n
      → is_type p ≡ true
      → is_type q ≡ true
      → Decided (compare_cells h r n p q)
  unfolding compare_cells
  cells-Decided n p q a b c d = elim (Bool-cases (same_class (h p).class (h q).class)) [
    | inr f ↦ (false, rw f refl)
    | inl t ↦
        let (v, z) =
          class-Decided (h p).class n p q refl (sym (eq_of_same_class (h p).class (h q).class t)) a
            b c d in
        (v, rw t z)
  ]

typecmp-Decided :
    (h : Types) (rank : ℕ → ℕ) (is_type is_item : ℕ → Bool) (n : ℕ) (x y : Option ℕ)
    → IsRanked h rank
    → IsFilled h is_type is_item
    → height rank x < n
    → Each is_type x
    → Each is_type y
    → Decided (typecmp h n x y)
unfolding typecmp
typecmp-Decided h rank is_type is_item zero x y w sound a c d = absurd (omega arith)
typecmp-Decided h rank is_type is_item (suc n) none y w sound a c d = (true, refl)
typecmp-Decided h rank is_type is_item (suc n) (some p) none w sound a c d = (true, refl)
typecmp-Decided h rank is_type is_item (suc n) (some p) (some q) w sound a c d =
    let (v, z) =
      cells-Decided h rank w is_type is_item sound (typecmp h n) (rank p)
        (λ x y l c' d'. typecmp-Decided h rank is_type is_item n x y w sound (omega arith) c' d') n
        p q (omega arith) (omega arith) c d in
    elim (Bool-cases (p == q)) [ inl t ↦ (true, rw t refl) | inr f ↦ (v, rw f z) ]

-- On types without cycles that are ints, floats, arrays with an element type, functions with a result
-- type, and structs without a symbol table in place of their list of fields, `typecmp` ends: any two
-- amounts of fuel above the rank of the first argument give one answer, which is not the missing one.
pub typecmp-total :
    (h : Types) (rank : ℕ → ℕ) (is_type is_item : ℕ → Bool) (n m : ℕ) (x y : Option ℕ)
    → IsRanked h rank
    → IsFilled h is_type is_item
    → height rank x < n
    → height rank x < m
    → Each is_type x
    → Each is_type y
    → (b : Bool) × (typecmp h n x y ≡ some b) × (typecmp h m x y ≡ some b)
typecmp-total h rank is_type is_item n m x y w sound a b c d =
    let (v, z) = typecmp-Decided h rank is_type is_item n x y w sound a c d in
    (v, z, sym (typecmp-fuel h rank n m x y w a b) ∙ z)
