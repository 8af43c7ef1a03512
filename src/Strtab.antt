-- ===== src/Strtab.antt =====
-- cmm-strtab.h and cmm-strtab.c: the table that keeps one copy of each string. A copy is known by
-- its index in the table, which stands for its address.
pub mod Intern
use naivecc.Base.{
  ℕ, zero, suc, ◌+◌, ◌*◌, ◌/◌, Bool, true, false, Option, none, some, List, [], ◌∷◌, ◌++◌,
  if◌then◌else◌, ◌>>=◌, ◌>>◌, guard, length, ltb, leb,
}
use naivecc.Ir.Relop.{str_eq}

abbrev pub default_size : ℕ
default_size = 64

-- `strtab_size` is the length of the list.
pub record Strtab : Type 0 where
  pub strtab : List (List ℕ)
  pub strtab_capacity : ℕ

unfoldable pub init_strtab : Strtab
init_strtab = record { strtab = []; strtab_capacity = default_size }

-- The search for a duplicate from index `i` on.
unfoldable pub find_str : List ℕ → ℕ → List (List ℕ) → Option ℕ
find_str str i [] = none
find_str str i (s ∷ rest) =
    let later = find_str str (i + 1) rest in if str_eq s str then some i else later

unfoldable pub extend : Strtab → Strtab
extend t =
    if leb t.strtab_capacity (length t.strtab)
    then record t { strtab_capacity = t.strtab_capacity + t.strtab_capacity / 2 }
    else t

-- A write past the capacity is `none`.
unfoldable pub register_str : List ℕ → Strtab → Option (ℕ × Strtab)
unfolding find_str extend
register_str str t = elim (find_str str 0 t.strtab) [
  | some i ↦ some (i, t)
  | none ↦ (do
    guard (ltb (length t.strtab) (extend t).strtab_capacity)
    some (length t.strtab, record (extend t) { strtab = t.strtab ++ str ∷ [] }))
]
