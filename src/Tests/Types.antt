-- ===== src/Tests/Types.antt =====
-- Two array types of the same shape at different addresses.
use naivecc.Base.{ℕ, Bool, true, refl, Option, ◌&&◌, none, some, [], ◌≡◌, arith, ltb, if◌then◌else◌}
use naivecc.CmmType.{TypeClass, Types, new_type, typecmp}
use naivecc.CmmType.Symmetry.{typecmp_comm}
use naivecc.CmmType.Fuel.{IsRanked}
use naivecc.CmmType.Total.{IsFilled, Each, typecmp-total}

abbrev sample_types : Types
unfolding new_type
sample_types p =
    if ltb 0 p && ltb p 3
    then new_type TypeClass.array [] (some 0) none
    else new_type TypeClass.int [] none none

rank : ℕ → ℕ
rank p = p

sample_types-IsRanked : IsRanked sample_types rank
unfolding sample_types new_type rank
sample_types-IsRanked = record {
  base_less = λ p q e. ground arith;
  link_less = λ p q e. ground arith;
}

typecmp_comm_example :
    typecmp sample_types 4 (some 1) (some 2) ≡ typecmp sample_types 4 (some 2) (some 1)
typecmp_comm_example = typecmp_comm sample_types 4 (some 1) (some 2)

every : (x : Option ℕ) → Each (λ p. true) x
every none = tt
every (some p) = refl

sample_types-IsFilled : IsFilled sample_types (λ p. true) (λ p. true)
unfolding sample_types new_type
sample_types-IsFilled = record {
  class = λ p t. ground arith;
  element_type = λ p t a. (0, ground arith);
  ret = λ p t a. absurd (ground arith);
  table = λ p t a. ground arith;
  base = λ p t. every (sample_types p).base;
  list = λ p t. every (sample_types p).link;
  item_base = λ p t. every (sample_types p).base;
  item_link = λ p t. every (sample_types p).link;
}

typecmp-total_example :
    (b : Bool) × (typecmp sample_types 3 (some 1) (some 2) ≡ some b)
    × (typecmp sample_types 9 (some 1) (some 2) ≡ some b)
unfolding rank
typecmp-total_example =
    typecmp-total sample_types rank (λ p. true) (λ p. true) 3 9 (some 1) (some 2)
      sample_types-IsRanked sample_types-IsFilled (omega arith) (omega arith) refl refl
