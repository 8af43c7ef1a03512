-- ===== src/Strtab/Intern.antt =====
-- The string table of cmm-strtab.c gives equal strings one address.
use mathlib.Core.Path.{subst}
use naivecc.Base.{
  ℕ, suc, ◌+◌, ◌-◌, ◌≤◌, true, Option, none, some, List, [], ◌∷◌, ◌++◌, ◌≡◌, refl, ap, ◌∙◌, arith,
  length, ltb, get_elem?, Bool-cases, Option-cases, inl, inr, length-append,
}
use naivecc.Ir.Relop.{str_eq}
use naivecc.Strtab.{Strtab, init_strtab, find_str, extend, register_str}
use naivecc.Symtab.Lookup.{eq_of_str_eq, str_eq_refl}

-- What holds of the table once it is initialised.
pub record IsValid (t : Strtab) : Type 0 where
  pub in_capacity : length t.strtab ≤ t.strtab_capacity
  pub room : 2 ≤ t.strtab_capacity

pub init_strtab-IsValid : IsValid init_strtab
unfolding init_strtab
init_strtab-IsValid = record { in_capacity = omega arith; room = omega arith }

find_str-some :
    (s : List ℕ) (i : ℕ) (tab : List (List ℕ)) {k : ℕ}
    → find_str s i tab ≡ some k
    → (i ≤ k) × (get_elem? tab (k - i) ≡ some s)
unfolding find_str
find_str-some s i [] e = cc
find_str-some s i (x ∷ tab) {k} e = elim (Bool-cases (str_eq x s)) [
  | inl c ↦
      let here : i ≡ k = ground (arith, (rw c at e)) in
      let zero_off : k - i ≡ 0 = omega arith in
      (omega arith, rw (zero_off, eq_of_str_eq x s c) refl)
  | inr c ↦
      let rec = find_str-some s (i + 1) tab (rw c at e) in
      let off : k - i ≡ suc (k - (i + 1)) = omega (arith, rec.0) in
      (omega (arith, rec.0), rw off rec.1)
]

find_str-append :
    (s : List ℕ) (i : ℕ) (tab : List (List ℕ))
    → find_str s i tab ≡ none
    → find_str s i (tab ++ s ∷ []) ≡ some (i + length tab)
unfolding find_str
find_str-append s i [] e = rw (str_eq_refl s) (ap some (omega arith))
find_str-append s i (x ∷ tab) e = elim (Bool-cases (str_eq x s)) [
  | inl c ↦ absurd (cc (rw c at e))
  | inr c ↦ rw c (find_str-append s (i + 1) tab (rw c at e) ∙ ap some (omega arith))
]

-- What registering `str` leaves: a valid table with a string at the address, in which every
-- string that was there has kept its address, and in which registering `str` again finds the
-- same one and changes nothing.
pub record Registered (str : List ℕ) (t : Strtab) (res : Option (ℕ × Strtab)) : Type 0 where
  pub addr : ℕ
  pub after : Strtab
  pub succeeds : res ≡ some (addr, after)
  pub valid : IsValid after
  pub stored : get_elem? after.strtab addr ≡ some str
  pub added : List (List ℕ)
  pub kept : after.strtab ≡ t.strtab ++ added
  pub again : register_str str after ≡ some (addr, after)

append_nil : (tab : List (List ℕ)) → tab ≡ tab ++ []
append_nil [] = refl
append_nil (x ∷ tab) = ap (λ t. x ∷ t) (append_nil tab)

get_elem?-last :
    (tab : List (List ℕ)) (s : List ℕ) → get_elem? (tab ++ s ∷ []) (length tab) ≡ some s
get_elem?-last [] s = refl
get_elem?-last (x ∷ tab) s = get_elem?-last tab s

extend-capacity : (t : Strtab) → IsValid t → length t.strtab + 1 ≤ (extend t).strtab_capacity
unfolding extend
extend-capacity t v = let a = v.in_capacity in let b = v.room in ground arith

extend-room : (t : Strtab) → IsValid t → 2 ≤ (extend t).strtab_capacity
unfolding extend
extend-room t v = let b = v.room in ground arith

ltb_of_lt : (a b : ℕ) → a + 1 ≤ b → ltb a b ≡ true
ltb_of_lt a b h = ground arith

-- On a valid table `register_str` succeeds: the table stays valid, the strings in it keep their
-- addresses, the one returned holds the string, and a second call returns it and changes nothing.
pub register_str-Registered :
    (str : List ℕ) (t : Strtab) → IsValid t → Registered str t (register_str str t)
unfolding register_str
register_str-Registered str t v = elim (Option-cases (find_str str 0 t.strtab)) [
  | inl (k, e) ↦ record {
    addr = k;
    after = t;
    succeeds = rw (register_str, e) refl;
    valid = v;
    stored =
        subst (λ n. get_elem? t.strtab n ≡ some str) (omega arith)
          (find_str-some str 0 t.strtab e).1;
    added = [];
    kept = append_nil t.strtab;
    again = rw (register_str, e) refl;
  }
  | inr e ↦
      let fits = extend-capacity t v in
      let again = find_str-append str 0 t.strtab e ∙ ap some (omega arith) in
      record {
        addr = length t.strtab;
        after = record (extend t) { strtab = t.strtab ++ str ∷ [] };
        succeeds = rw (register_str, e) (rw (ltb_of_lt _ _ fits) refl);
        valid = record {
          in_capacity = omega (arith, length-append t.strtab (str ∷ []));
          room = extend-room t v;
        };
        stored = get_elem?-last t.strtab str;
        added = str ∷ [];
        kept = refl;
        again = rw (register_str, again) refl;
      }
]
