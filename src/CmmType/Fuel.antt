-- ===== src/CmmType/Fuel.antt =====
-- On types without cycles the result of `typecmp` does not depend on its fuel.
use naivecc.Base.{
  ℕ, zero, suc, ◌≤◌, ◌<◌, Bool, true, Option, none, some, ◌&&◌, ◌≡◌, refl, arith, ◌>>=◌, Bool-cases,
  Option-cases, inl, inr,
}
use naivecc.CmmType.{
  TypeClass, Types, walk, is_array, strip, compare_ret, compare_func, compare_fields, compare_class,
  compare_cells, typecmp,
}

-- `rank` falls along both pointers of every cell, so that no type contains itself.
pub record IsRanked (h : Types) (rank : ℕ → ℕ) : Type 0 where
  pub base_less : (p q : ℕ) → (h p).base ≡ some q → rank q < rank p
  pub link_less : (p q : ℕ) → (h p).link ≡ some q → rank q < rank p

abbrev pub height : (ℕ → ℕ) → Option ℕ → ℕ
height rank none = 0
height rank (some p) = suc (rank p)

pub height-le :
    (rank : ℕ → ℕ) (x : Option ℕ) (k : ℕ) → ((q : ℕ) → x ≡ some q → rank q < k) → height rank x ≤ k
height-le rank none k f = omega arith
height-le rank (some q) k f = omega (arith, f q refl)

module _ (h : Types) (rank : ℕ → ℕ) (w : IsRanked h rank)
    (r1 r2 : Option ℕ → Option ℕ → Option Bool) (k : ℕ)
    (agree : (x y : Option ℕ) → height rank x ≤ k → r1 x y ≡ r2 x y) where
  base_height : (p : ℕ) → height rank (h p).base ≤ rank p
  base_height p = height-le rank (h p).base (rank p) (w.base_less p)

  link_height : (p : ℕ) → height rank (h p).link ≤ rank p
  link_height p = height-le rank (h p).link (rank p) (w.link_less p)

  walk_same :
      (n m : ℕ) (x y : Option ℕ)
      → height rank x ≤ k
      → height rank x < n
      → height rank x < m
      → walk h r1 n x y ≡ walk h r2 m x y
  unfolding walk
  walk_same zero m x y a b c = absurd (omega arith)
  walk_same (suc n) zero x y a b c = absurd (omega arith)
  walk_same (suc n) (suc m) none none a b c = refl
  walk_same (suc n) (suc m) none (some q) a b c = refl
  walk_same (suc n) (suc m) (some p) none a b c = refl
  walk_same (suc n) (suc m) (some p) (some q) a b c =
      let l = link_height p in
      rw
        (
          agree (h p).base (h q).base (omega (arith, base_height p)),
          walk_same n m (h p).link (h q).link (omega arith) (omega arith) (omega arith),
        )
        refl

  bases_same :
      (n m p q : ℕ)
      → ((p' q' : ℕ) → (h p).base ≡ some p' → strip h r1 n p' q' ≡ strip h r2 m p' q')
      → ((h p).base >>= λ p'. (h q).base >>= λ q'. strip h r1 n p' q')
        ≡ ((h p).base >>= λ p'. (h q).base >>= λ q'. strip h r2 m p' q')
  bases_same n m p q same = elim (Option-cases (h p).base) [
    | inr e ↦ rw e refl
    | inl (p', e) ↦
        rw e
          (elim (Option-cases (h q).base) [ inr g ↦ rw g refl | inl (q', g) ↦ rw g (same p' q' e) ])
  ]

  strip_same :
      (n m p q : ℕ)
      → suc (rank p) ≤ k
      → rank p < n
      → rank p < m
      → strip h r1 n p q ≡ strip h r2 m p q
  unfolding strip
  strip_same zero m p q a b c = absurd (omega arith)
  strip_same (suc n) zero p q a b c = absurd (omega arith)
  strip_same (suc n) (suc m) p q a b c = elim (Bool-cases (is_array h p && is_array h q)) [
    | inr differ ↦ rw (differ, agree (some p) (some q) a) refl
    | inl both ↦ rw both (
        bases_same n m p q (λ p' q' e.
          let less = w.base_less p p' e in
          strip_same n m p' q' (omega arith) (omega arith) (omega arith)))
  ]

  strip_top :
      (n m p q : ℕ)
      → is_array h p ≡ true
      → rank p ≤ k
      → rank p < n
      → rank p < m
      → strip h r1 n p q ≡ strip h r2 m p q
  unfolding strip
  strip_top zero m p q d a b c = absurd (omega arith)
  strip_top (suc n) zero p q d a b c = absurd (omega arith)
  strip_top (suc n) (suc m) p q d a b c = elim (Bool-cases (is_array h q)) [
    | inr other ↦ rw (d, other) refl
    | inl both ↦
        rw (d, both)
          (bases_same n m p q (λ p' q' e.
            let less = w.base_less p p' e in
            strip_same n m p' q' (omega arith) (omega arith) (omega arith)))
  ]

  ret_same : (x y : Option ℕ) → height rank x ≤ k → compare_ret h r1 x y ≡ compare_ret h r2 x y
  unfolding compare_ret
  ret_same none y a = refl
  ret_same (some p) none a = refl
  ret_same (some p) (some q) a = agree (some p) (some q) a

  fields_same :
      (n m : ℕ) (t u x y : Option ℕ)
      → height rank x ≤ k
      → height rank x < n
      → height rank x < m
      → compare_fields h r1 n t u x y ≡ compare_fields h r2 m t u x y
  unfolding compare_fields
  fields_same n m none none x y a b c = walk_same n m x y a b c
  fields_same n m (some t) none x none a b c = refl
  fields_same n m (some t) none x (some q) a b c = refl
  fields_same n m none (some u) none y a b c = refl
  fields_same n m none (some u) (some p) y a b c = refl
  fields_same n m (some t) (some u) x y a b c = refl

  class_same :
      (c : TypeClass) (n m p q : ℕ)
      → (h p).class ≡ c
      → rank p ≤ k
      → rank p < n
      → rank p < m
      → compare_class h r1 c n p q ≡ compare_class h r2 c m p q
  unfolding compare_class compare_func
  class_same TypeClass.func n m p q e a b c =
      let l = link_height p in
      let r = base_height p in
      rw
        (
          walk_same n m (h p).link (h q).link (omega arith) (omega arith) (omega arith),
          ret_same (h p).base (h q).base (omega arith),
        )
        refl
  class_same TypeClass.array n m p q e a b c = strip_top n m p q (rw e refl) a b c
  class_same TypeClass.struct n m p q e a b c =
      let l = link_height p in
      fields_same n m (h p).field_table (h q).field_table (h p).link (h q).link (omega arith)
        (omega arith) (omega arith)
  class_same TypeClass.int n m p q e a b c = refl
  class_same TypeClass.float n m p q e a b c = refl
  class_same TypeClass.field n m p q e a b c = refl
  class_same TypeClass.param n m p q e a b c = refl
  class_same TypeClass.meta n m p q e a b c = refl

  cells_same :
      (n m p q : ℕ)
      → rank p ≤ k
      → rank p < n
      → rank p < m
      → compare_cells h r1 n p q ≡ compare_cells h r2 m p q
  unfolding compare_cells
  cells_same n m p q a b c = rw (class_same (h p).class n m p q refl a b c) refl

-- On types without cycles, every amount of fuel above the rank of the first argument gives
-- `typecmp` the same result.
pub typecmp-fuel :
    (h : Types) (rank : ℕ → ℕ) (n m : ℕ) (x y : Option ℕ)
    → IsRanked h rank
    → height rank x < n
    → height rank x < m
    → typecmp h n x y ≡ typecmp h m x y
unfolding typecmp
typecmp-fuel h rank zero m x y w a b = absurd (omega arith)
typecmp-fuel h rank (suc n) zero x y w a b = absurd (omega arith)
typecmp-fuel h rank (suc n) (suc m) none y w a b = refl
typecmp-fuel h rank (suc n) (suc m) (some p) none w a b = refl
typecmp-fuel h rank (suc n) (suc m) (some p) (some q) w a b =
    rw
      (cells_same h rank w (typecmp h n) (typecmp h m) (rank p)
        (λ x y l. typecmp-fuel h rank n m x y w (omega arith) (omega arith)) n m p q (omega arith)
        (omega arith) (omega arith))
      refl
