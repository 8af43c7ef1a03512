-- ===== src/Register/Select.antt =====
-- What `allocate` of register.c leaves in the registers.
use naivecc.Base.{
  ℕ, zero, suc, ◌+◌, ◌-◌, Option, none, some, List, [], ◌∷◌, ◌≡◌, ◌≢◌, refl, arith, ap, ◌==◌, inl,
  inr, if◌then◌else◌, get_elem?, set, same_ptr, Option-cases, Bool-cases, get_elem?-set_self,
  get_elem?-set_ne, beq_refl, eq_of_beq, ◌↔◌, ◌++◌,
}
use naivecc.Base.Int.{ℤ, negsuc, ◌-ℤ◌}
use naivecc.Operand.{Operand, Heap, max_line}
use naivecc.Register.Code.{AsmState, sw, sp}
use naivecc.Register.{
  Choice, empty, full, scan, evict, get_reg, clear_same, remove_value, reg_group, allocate, put_reg,
  is_needed,
}

-- No register holds `ope`.
abbrev Absent : Operand → List (Option Operand) → Type 0
Absent ope regs = (j : ℕ) → get_elem? regs j ≢ some (some ope)

cleared :
    (ope : Operand) (r : Option Operand) → (if same_ptr r (some ope) then none else r) ≢ some ope
cleared ope none e = cc e
cleared ope (some p) e = elim (Bool-cases (p == ope)) [
  | inl c ↦ cc (rw c at e)
  | inr c ↦ cc (c, (rw c at e), beq_refl ope)
]

of_some : {A : Type 0} {x y : A} → some x ≡ some y → x ≡ y
of_some e = cc e

clear_same-Absent :
    (ope : Operand) (regs : List (Option Operand)) → Absent ope (clear_same ope regs)
unfolding clear_same
clear_same-Absent ope [] j e = cc e
clear_same-Absent ope (r ∷ regs) zero e = cleared ope r (of_some e)
clear_same-Absent ope (r ∷ regs) (suc j) e = clear_same-Absent ope regs j e

scan-empty :
    (h : Heap) (regs : List (Option Operand)) (n i v : ℕ) (u : ℤ) (k : ℕ)
    → scan h regs n i v u ≡ empty k
    → get_elem? regs k ≡ some none
unfolding scan
scan-empty h regs zero i v u k e = cc e
scan-empty h regs (suc n) i v u k e = elim (Option-cases (get_elem? regs i)) [
  | inr c ↦ absurd (cc (rw (scan, c) at e))
  | inl (none, c) ↦ let here : i ≡ k = cc (rw (scan, c) at e) in rw (← here) c
  | inl (some ope, c) ↦ scan-empty h regs n (i + 1) _ _ k (rw (scan, c) at e)
]

Absent-set :
    (ope : Operand) (regs : List (Option Operand)) (k : ℕ)
    → Absent ope regs
    → Absent ope (set regs k none)
Absent-set ope [] k a j e = cc e
Absent-set ope (r ∷ regs) zero a zero e = cc e
Absent-set ope (r ∷ regs) zero a (suc j) e = a (suc j) e
Absent-set ope (r ∷ regs) (suc k) a zero e = a zero e
Absent-set ope (r ∷ regs) (suc k) a (suc j) e = Absent-set ope regs k (λ n. a (suc n)) j e

-- The register that was found exists, and nothing has come into a register.
Found : Operand → AsmState → ℕ → AsmState → Type 0
Found ope s i t =
    (Absent ope s.ope_in_reg → Absent ope t.ope_in_reg)
    × (x : Option Operand) × (get_elem? t.ope_in_reg i ≡ some x)

stored : AsmState → ℕ → Operand → AsmState
stored s v vic =
    if is_needed (s.heap vic)
    then record s { out = s.out ++ sw v (s.sp_offset -ℤ (s.heap vic).address) sp ∷ [] }
    else s

stored-regs : (s : AsmState) (v : ℕ) (vic : Operand) → (stored s v vic).ope_in_reg ≡ s.ope_in_reg
unfolding stored
stored-regs s v vic = ground arith

evict-Found :
    (ope : Operand) (v : ℕ) (s : AsmState) (i : ℕ) (t : AsmState)
    → evict v s ≡ some (i, t)
    → Found ope s i t
unfolding evict Found stored
evict-Found ope v s i t e = elim (Option-cases (get_elem? s.ope_in_reg v)) [
  | inr c ↦ absurd (cc (rw (evict, c) at e))
  | inl (none, c) ↦ absurd (cc (rw (evict, c) at e))
  | inl (some vic, c) ↦
      let both : (v, put_reg v none (stored s v vic)) ≡ (i, t) = of_some (rw (evict, c) at e) in
      let here : v ≡ i = ap (λ r. r.0) both in
      let regs : set s.ope_in_reg v none ≡ t.ope_in_reg =
        rw (← stored-regs s v vic) (ap (λ r. r.1.ope_in_reg) both) in
      rw (← regs, ← here)
        (λ a. Absent-set ope s.ope_in_reg v a, none, get_elem?-set_self s.ope_in_reg v none c)
]

after_choice : Choice → AsmState → Option (ℕ × AsmState)
after_choice c s = elim c [ empty k ↦ some (k, s) | full v ↦ evict v s ]

choice-Found :
    (ope : Operand) (s : AsmState) (i : ℕ) (t : AsmState) (c : Choice)
    → ((k : ℕ) → c ≡ empty k → get_elem? s.ope_in_reg k ≡ some none)
    → after_choice c s ≡ some (i, t)
    → Found ope s i t
unfolding Found after_choice
choice-Found ope s i t (full v) there e = evict-Found ope v s i t e
choice-Found ope s i t (empty k) there e =
    let both : (k, s) ≡ (i, t) = of_some e in
    let here : k ≡ i = ap (λ r. r.0) both in
    let same : s ≡ t = ap (λ r. r.1) both in rw (← same, ← here) (λ a. a, none, there k refl)

get_reg-Found :
    (ope : Operand) (a b : ℕ) (s : AsmState) (i : ℕ) (t : AsmState)
    → get_reg a b s ≡ some (i, t)
    → Found ope s i t
unfolding get_reg Found after_choice
get_reg-Found ope a b s i t e =
    choice-Found ope s i t (scan s.heap s.ope_in_reg (b + 1 - a) a max_line (negsuc 0))
      (scan-empty s.heap s.ope_in_reg (b + 1 - a) a max_line (negsuc 0)) e

removed : (ope : Operand) (s : AsmState) → Absent ope (remove_value ope s).ope_in_reg
unfolding remove_value
removed ope s = clear_same-Absent ope s.ope_in_reg

only_there :
    (ope : Operand) (s : AsmState) (k : ℕ) (u : AsmState)
    → Found ope s k u
    → Absent ope s.ope_in_reg
    → (j : ℕ) → (get_elem? (set u.ope_in_reg k (some ope)) j ≡ some (some ope)) ↔ (j ≡ k)
unfolding Found
only_there ope s k u found a j =
    let (kept, x, slot) = found in
    (
      λ e. elim (Bool-cases (k == j)) [
        | inl c ↦ omega (arith, eq_of_beq k j c)
        | inr c ↦ absurd (kept a j (rw (get_elem?-set_ne u.ope_in_reg k j (some ope) c) at e))
      ],
      λ e. rw e (get_elem?-set_self u.ope_in_reg k (some ope) slot),
    )

-- When `allocate` returns register `i`, a register holds the operand if and only if it is `i`.
pub allocate_unique :
    (ope : Operand) (s t : AsmState) (i : ℕ)
    → allocate ope s ≡ some (i, t)
    → (j : ℕ) → (get_elem? t.ope_in_reg j ≡ some (some ope)) ↔ (j ≡ i)
unfolding allocate
allocate_unique ope s t i e j = elim (Option-cases (reg_group (s.heap ope).type)) [
  | inr c ↦ absurd (cc (rw (allocate, c) at e))
  | inl (g, c) ↦ elim (Option-cases (get_reg g.0 g.1 (remove_value ope s))) [
    | inr d ↦ absurd (cc (rw (allocate, c, d) at e))
    | inl ((k, u), d) ↦
        let both : (k, put_reg k (some ope) u) ≡ (i, t) = of_some (rw (allocate, c, d) at e) in
        let here : k ≡ i = ap (λ r. r.0) both in
        let regs : set u.ope_in_reg k (some ope) ≡ t.ope_in_reg = ap (λ r. r.1.ope_in_reg) both in
        rw (← regs, ← here)
          (only_there ope (remove_value ope s) k u
            (get_reg-Found ope g.0 g.1 (remove_value ope s) k u d) (removed ope s) j)
  ]
]
