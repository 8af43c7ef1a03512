-- ===== src/Translate/Balance.antt =====
-- What translation leaves of the scopes: every visitor pops what it has pushed.
pub mod Defs
pub mod Exps
pub mod Visitors
pub mod Whole
use naivecc.Base.{
  ℕ, Bool, true, false, Option, none, some, List, [], ◌∷◌, ◌≡◌, refl, ◌∙◌, ap, if◌then◌else◌,
  Option-cases, Bool-cases, inl, inr, same_ptr, beq_refl, get_elem?,
}
use naivecc.Base.Int.{ℤ}
use naivecc.Operand.{Operand, OpeType}
use naivecc.Ir.Kinds.{IrType}
use naivecc.Symtab.{Symbol, Scopes, query, query_without_fallback, push_symtab, pop_symtab}
use naivecc.Translate.{
  TransState, M, ◌>>=◌, pure, undefined, need, operand, cell, set_integer, set_real, set_name,
  set_size, set_base_type, instr, replace, find_symbol, find_field, address_at, set_address,
  enter_scope, leave_scope, trans_default, Visit,
}
use naivecc.Translate.Safe.Rules.{bind-Steps}
use naivecc.Translate.Safe.Commands.{operand-Fresh}
use naivecc.Translate.Safe.Instr.{instr-Appended}

abbrev pub stack : TransState → List ℕ
stack s = s.scopes.scopes

-- A command that leaves the stack of scopes as it was.
pub record Balanced {A : Type 0} (m : M A) : Type 0 where
  pub at : (s t : TransState) (a : A) → m s ≡ some (a, t) → stack t ≡ stack s

-- A command that pops the scope `p` and no other.
pub record Pops {A : Type 0} (p : ℕ) (m : M A) : Type 0 where
  pub at :
      (s t : TransState) (a : A) (rest : List ℕ)
      → m s ≡ some (a, t)
      → stack s ≡ p ∷ rest
      → stack t ≡ rest

pub Balanced-pure : {A : Type 0} (a : A) → Balanced (pure a)
unfolding pure
Balanced-pure a = record { at = λ s t x e. cc e }

pub Balanced-undefined : {A : Type 0} → Balanced (undefined {A = A})
unfolding undefined
Balanced-undefined = record { at = λ s t x e. cc e }

pub Balanced-if :
    {A : Type 0} (c : Bool) (m k : M A) → Balanced m → Balanced k → Balanced (if c then m else k)
Balanced-if true m k x y = x
Balanced-if false m k x y = y

pub Balanced-bind :
    {A B : Type 0} (m : M A) (f : A → M B)
    → Balanced m
    → ((a : A) → Balanced (f a))
    → Balanced (m >>= f)
Balanced-bind m f x y = record {
  at = λ s t b e.
      let r = bind-Steps m f s t b e in
      (y r.value).at r.mid t b r.second ∙ x.at s r.mid r.value r.first;
}

pub Pops-bind :
    {A B : Type 0} {p : ℕ} (m : M A) (f : A → M B)
    → Balanced m
    → ((a : A) → Pops p (f a))
    → Pops p (m >>= f)
Pops-bind m f x y = record {
  at = λ s t b rest e top.
      let r = bind-Steps m f s t b e in
      (y r.value).at r.mid t b rest r.second (x.at s r.mid r.value r.first ∙ top);
}

pub Pops-leave_scope : (p : ℕ) → Pops p (leave_scope p)
unfolding leave_scope pop_symtab
Pops-leave_scope p = record {
  at = λ s t a rest e top.
      let e1 = rw (top, leave_scope, pop_symtab) at e in let e2 = rw (beq_refl p) at e1 in cc e2;
}

pub Balanced-enter_scope :
    {B : Type 0} (p : ℕ) (f : Unit {0} → M B)
    → ((a : Unit {0}) → Pops p (f a))
    → Balanced (enter_scope p >>= f)
unfolding enter_scope push_symtab
Balanced-enter_scope p f y = record {
  at = λ s t b e.
      let r = bind-Steps (enter_scope p) f s t b e in
      (y r.value).at r.mid t b (stack s) r.second (cc r.first);
}

pub Balanced-operand : (k : OpeType) → Balanced (operand k)
Balanced-operand k = record {
  at = λ s t p e. ap (λ (x : Scopes). x.scopes) (operand-Fresh k s t p e).tables;
}

pub Balanced-instr : (k : IrType) (rs rt rd : Option Operand) → Balanced (instr k rs rt rd)
Balanced-instr k rs rt rd = record {
  at = λ s t a e. ap (λ (x : Scopes). x.scopes) (instr-Appended k rs rt rd s t a e).scopes;
}

pub Balanced-need : {A : Type 0} (o : Option A) → Balanced (need o)
unfolding need
Balanced-need none = record { at = λ s t a e. cc e }
Balanced-need (some x) = record { at = λ s t a e. cc e }

pub Balanced-cell : (p : Operand) → Balanced (cell p)
unfolding cell
Balanced-cell p = record { at = λ s t a e. cc e }

pub Balanced-set_integer : (p : Operand) (n : ℤ) → Balanced (set_integer p n)
unfolding set_integer
Balanced-set_integer p n = record { at = λ s t a e. cc e }

pub Balanced-set_real : (p n : ℕ) → Balanced (set_real p n)
unfolding set_real
Balanced-set_real p n = record { at = λ s t a e. cc e }

pub Balanced-set_name : (p : Operand) (n : List ℕ) → Balanced (set_name p n)
unfolding set_name
Balanced-set_name p n = record { at = λ s t a e. cc e }

pub Balanced-set_size : (p n : ℕ) → Balanced (set_size p n)
unfolding set_size
Balanced-set_size p n = record { at = λ s t a e. cc e }

pub Balanced-set_base_type : (p : Operand) (n : Option ℕ) → Balanced (set_base_type p n)
unfolding set_base_type
Balanced-set_base_type p n = record { at = λ s t a e. cc e }

pub Balanced-replace : (p q : Operand) → Balanced (replace p q)
unfolding replace
Balanced-replace p q = record { at = λ s t a e. cc e }

pub Balanced-trans_default : Balanced trans_default
unfolding trans_default
Balanced-trans_default = record { at = λ s t a e. cc e }

pub Balanced-find_symbol : (name : List ℕ) → Balanced (find_symbol name)
unfolding find_symbol
Balanced-find_symbol name = record {
  at = λ s t a e. elim (Option-cases (query name s.scopes)) [
    | inr g ↦ cc (rw (g, find_symbol) at e)
    | inl (r, g) ↦ cc (rw (g, find_symbol) at e)
  ];
}

pub Balanced-find_field : (name : List ℕ) (p : ℕ) → Balanced (find_field name p)
unfolding find_field
Balanced-find_field name p = record {
  at = λ s t a e. elim (Option-cases (get_elem? s.scopes.tables p)) [
    | inr g ↦ cc (rw (g, find_field) at e)
    | inl (table, g) ↦
        let e1 = rw (g, find_field) at e in
        elim (Option-cases (query_without_fallback name table)) [
          | inr q ↦ cc (rw q at e1)
          | inl (r, q) ↦ cc (rw q at e1)
        ]
  ];
}

pub Balanced-set_address : (name : List ℕ) (p : Operand) → Balanced (set_address name p)
unfolding set_address
Balanced-set_address name p = record {
  at = λ s t a e. elim (Option-cases (address_at name p s.scopes.tables s.scopes.scopes)) [
    | inr g ↦ cc (rw (g, set_address) at e)
    | inl (r, g) ↦ cc (rw (g, set_address) at e)
  ];
}

-- The visits of a node.
pub record VisitBalanced (v : Visit) : Type 0 where
  pub dispatch : (dst : Option Operand) → Balanced (v.dispatch dst)
  pub relabel : (m : M Operand) → v.relabel ≡ some m → Balanced m
  pub cond : (label_true label_false : Operand) → Balanced (v.cond label_true label_false)

pub Balanced-dispatch :
    (v : Visit) (dst : Option Operand) → VisitBalanced v → Balanced (v.dispatch dst)
Balanced-dispatch v dst x = x.dispatch dst

pub Balanced-cond : (v : Visit) (t f : Operand) → VisitBalanced v → Balanced (v.cond t f)
Balanced-cond v t f x = x.cond t f

pub Balanced-option :
    {A X : Type 0} (o : Option X) (m : M A) (k : X → M A)
    → Balanced m
    → ((x : X) → Balanced (k x))
    → Balanced (elim o [ none ↦ m | some x ↦ k x ])
Balanced-option none m k x y = x
Balanced-option (some a) m k x y = y a

pub ruleset balanced_rules = (
  Balanced-pure, Balanced-undefined, Balanced-if, Balanced-bind, Balanced-operand, Balanced-instr,
  Balanced-need, Balanced-cell, Balanced-set_integer, Balanced-set_real, Balanced-set_name,
  Balanced-set_size, Balanced-set_base_type, Balanced-replace, Balanced-trans_default,
  Balanced-find_symbol, Balanced-find_field, Balanced-set_address, Balanced-dispatch, Balanced-cond,
)
