-- ===== src/CmmType/Symmetry.antt =====
-- `typecmp` does not depend on the order of its arguments.
use naivecc.Base.{
  ℕ, zero, suc, Bool, true, false, Option, none, some, List, [], ◌∷◌, ◌==◌, ◌&&◌, ◌||◌, ◌≡◌, refl,
  arith, ◌>>=◌, Bool-cases, inl, inr, eq_of_beq,
}
use naivecc.Ir.Relop.{str_eq}
use naivecc.CmmType.{
  TypeClass, class_code, same_class, Types, walk, is_array, strip, compare_ret, compare_func,
  compare_fields, compare_class, compare_cells, typecmp,
}

beq_comm : (a b : ℕ) → (a == b) ≡ (b == a)
beq_comm a b = ground arith

str_eq_comm : (a b : List ℕ) → str_eq a b ≡ str_eq b a
unfolding str_eq
str_eq_comm [] [] = refl
str_eq_comm [] (d ∷ b) = refl
str_eq_comm (c ∷ a) [] = refl
str_eq_comm (c ∷ a) (d ∷ b) = rw (beq_comm c d, str_eq_comm a b) refl

and_comm : (a b : Bool) → (a && b) ≡ (b && a)
and_comm true true = refl
and_comm true false = refl
and_comm false true = refl
and_comm false false = refl

or_comm : (a b : Bool) → (a || b) ≡ (b || a)
or_comm true true = refl
or_comm true false = refl
or_comm false true = refl
or_comm false false = refl

class_code_inj : (a b : TypeClass) → class_code a ≡ class_code b → a ≡ b
class_code_inj a b h = ground arith

module _ (h : Types) (rec : Option ℕ → Option ℕ → Option Bool)
    (rec_comm : (x y : Option ℕ) → rec x y ≡ rec y x) where
  walk_comm : (n : ℕ) (x y : Option ℕ) → walk h rec n x y ≡ walk h rec n y x
  unfolding walk
  walk_comm zero x y = refl
  walk_comm (suc n) none none = refl
  walk_comm (suc n) none (some q) = refl
  walk_comm (suc n) (some p) none = refl
  walk_comm (suc n) (some p) (some q) =
      rw (rec_comm (h p).base (h q).base, walk_comm n (h p).link (h q).link) refl

  both_bases :
      (a b : Option ℕ) (f g : ℕ → ℕ → Option Bool)
      → ((p q : ℕ) → f p q ≡ g q p)
      → (a >>= λ p. b >>= λ q. f p q) ≡ (b >>= λ q. a >>= λ p. g q p)
  both_bases none none f g e = refl
  both_bases none (some b) f g e = refl
  both_bases (some a) none f g e = refl
  both_bases (some a) (some b) f g e = e a b

  strip_comm : (n p q : ℕ) → strip h rec n p q ≡ strip h rec n q p
  unfolding strip
  strip_comm zero p q = refl
  strip_comm (suc n) p q =
      rw
        (
          and_comm (is_array h p) (is_array h q),
          or_comm (is_array h p) (is_array h q),
          rec_comm (some p) (some q),
          both_bases (h p).base (h q).base (strip h rec n) (strip h rec n) (strip_comm n),
        )
        refl

  ret_comm : (x y : Option ℕ) → compare_ret h rec x y ≡ compare_ret h rec y x
  unfolding compare_ret
  ret_comm none none = refl
  ret_comm none (some b) = refl
  ret_comm (some a) none = refl
  ret_comm (some a) (some b) = rec_comm (some a) (some b)

  func_comm : (n p q : ℕ) → compare_func h rec n p q ≡ compare_func h rec n q p
  unfolding compare_func
  func_comm n p q =
      rw
        (
          str_eq_comm (h p).name (h q).name,
          walk_comm n (h p).link (h q).link,
          ret_comm (h p).base (h q).base,
        )
        refl

  fields_comm :
      (n : ℕ) (t u x y : Option ℕ) → compare_fields h rec n t u x y ≡ compare_fields h rec n u t y x
  unfolding compare_fields
  fields_comm n none none x y = walk_comm n x y
  fields_comm n (some t) none x none = refl
  fields_comm n (some t) none x (some q) = refl
  fields_comm n none (some u) none y = refl
  fields_comm n none (some u) (some p) y = refl
  fields_comm n (some t) (some u) x y = refl

  class_comm :
      (c : TypeClass) (n p q : ℕ) → compare_class h rec c n p q ≡ compare_class h rec c n q p
  unfolding compare_class
  class_comm TypeClass.func n p q = func_comm n p q
  class_comm TypeClass.array n p q = strip_comm n p q
  class_comm TypeClass.struct n p q =
      fields_comm n (h p).field_table (h q).field_table (h p).link (h q).link
  class_comm TypeClass.int n p q = refl
  class_comm TypeClass.float n p q = refl
  class_comm TypeClass.field n p q = refl
  class_comm TypeClass.param n p q = refl
  class_comm TypeClass.meta n p q = refl

  cells_comm : (n p q : ℕ) → compare_cells h rec n p q ≡ compare_cells h rec n q p
  unfolding compare_cells
  cells_comm n p q = elim (Bool-cases (same_class (h p).class (h q).class)) [
    | inr c ↦ rw (c, beq_comm (class_code (h q).class) (class_code (h p).class), c) refl
    | inl c ↦
        let same : (h p).class ≡ (h q).class = class_code_inj _ _ (eq_of_beq _ _ c) in
        rw (c, beq_comm (class_code (h q).class) (class_code (h p).class), c)
          (rw same (class_comm (h q).class n p q))
  ]

-- `typecmp` gives, on every store of types and with every amount of fuel, the same answer when its
-- arguments change places.
pub typecmp_comm : (h : Types) (n : ℕ) (x y : Option ℕ) → typecmp h n x y ≡ typecmp h n y x
unfolding typecmp
typecmp_comm h zero x y = refl
typecmp_comm h (suc n) none none = refl
typecmp_comm h (suc n) none (some q) = refl
typecmp_comm h (suc n) (some p) none = refl
typecmp_comm h (suc n) (some p) (some q) =
    rw (beq_comm p q, cells_comm h (typecmp h n) (typecmp_comm h n) n p q) refl
