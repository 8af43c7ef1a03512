-- ===== src/Translate/Refuse.antt =====
-- `trans_default`: constructs that have no visitor, such as global variables.
use naivecc.Base.{
  Bool, true, false, Option, none, some, List, ◌≡◌, refl, ◌⊎◌, Option-cases, inl, inr,
}
use naivecc.Operand.{Operand, OpeType, FloatOps}
use naivecc.CmmType.{Types}
use naivecc.Syntax.{Tag, Info, Tree, nil, node}
use naivecc.Translate.{
  TransState, ◌>>=◌, pure, trans_default, dispatch_all, dispatch_first, Attr, Visit,
}
use naivecc.Translate.Def.{translate_ast}
use naivecc.Translate.Exp.{leave}
use naivecc.Translate.Program.{
  without_attr, is_logic, visitor_at, dispatcher, visit, visits, translate_tree, translate,
}
use naivecc.Translate.Safe.Rules.{bind-Steps}
use naivecc.Translate.Keeps.Stmt.{Safe-dispatch_all}
use naivecc.Translate.Keeps.Whole.{VisitOk-visits}

-- The productions that `trans_visitors` has no entry for.
abbrev pub has_no_visitor : Tag → Bool
has_no_visitor Tag.unsimplified = true
has_no_visitor Tag.extdef_is_spec_extdec = true
has_no_visitor Tag.extdec_is_vardec = true
has_no_visitor Tag.spec_is_type = true
has_no_visitor Tag.spec_is_struct = true
has_no_visitor Tag.struct_is_id_def = true
has_no_visitor Tag.struct_is_def = true
has_no_visitor Tag.struct_is_id = true
has_no_visitor Tag.vardec_is_id = true
has_no_visitor Tag.vardec_is_vardec_size = true
has_no_visitor Tag.var_is_spec_vardec = true
has_no_visitor _ = false

-- A node of production `k` is the first node of a list of siblings or a later one.
pub data Among (k : Tag) : Tree → Type 0 where
  first : {info : Info} {child sibling : Tree} → info.tag ≡ k → Among k (node info child sibling)
  later : {info : Info} {child sibling : Tree} → Among k sibling → Among k (node info child sibling)

module _ (f : FloatOps) (ts : Types) where
  visitor_at-default :
      (k : Tag) (info : Info) (kids : List Visit)
      → has_no_visitor k ≡ true
      → (visitor_at f ts k info kids ≡ without_attr trans_default) × (is_logic k ≡ false)
  unfolding visitor_at is_logic
  visitor_at-default Tag.unsimplified info kids h = (refl, refl)
  visitor_at-default Tag.extdef_is_spec_extdec info kids h = (refl, refl)
  visitor_at-default Tag.extdec_is_vardec info kids h = (refl, refl)
  visitor_at-default Tag.spec_is_type info kids h = (refl, refl)
  visitor_at-default Tag.spec_is_struct info kids h = (refl, refl)
  visitor_at-default Tag.struct_is_id_def info kids h = (refl, refl)
  visitor_at-default Tag.struct_is_def info kids h = (refl, refl)
  visitor_at-default Tag.struct_is_id info kids h = (refl, refl)
  visitor_at-default Tag.vardec_is_id info kids h = (refl, refl)
  visitor_at-default Tag.vardec_is_vardec_size info kids h = (refl, refl)
  visitor_at-default Tag.var_is_spec_vardec info kids h = (refl, refl)
  visitor_at-default _ info kids h = cc h

  default-unsupport :
      (dst : Option Operand) (s t : TransState) (a : Attr)
      → without_attr trans_default dst s ≡ some (a, t)
      → t.unsupport ≡ true
  unfolding without_attr trans_default ◌>>=◌ pure
  default-unsupport dst s t a e =
      let state : record s { unsupport = true } ≡ t = cc e in rw (← state) refl

  dispatch-unsupport :
      (info : Info) (kids : List Visit) (dst : Option Operand) (s t : TransState) (a : Attr)
      → has_no_visitor info.tag ≡ true
      → dispatcher f ts info kids dst s ≡ some (a, t)
      → t.unsupport ≡ true
  unfolding dispatcher
  dispatch-unsupport info kids dst s t a h e =
      let (plain, no_logic) = visitor_at-default info.tag info kids h in
      default-unsupport dst s t a (rw (no_logic, plain) at e)

  rest-sticky :
      (sibling : Tree) (s t : TransState)
      → dispatch_all (visits f ts sibling) s ≡ some (tt, t)
      → s.unsupport ≡ true
      → t.unsupport ≡ true
  rest-sticky sibling s t e h =
      ((Safe-dispatch_all (visits f ts sibling) {H = Unit} (
            VisitOk-visits (record { type_of = λ _. OpeType.var; IsOnce = ⊥ }) f ts sibling
              (λ c. absurd c))).later
          s t tt e).sticky
        h

  all-unsupport :
      (k : Tag) (list : Tree) (s t : TransState)
      → Among k list
      → has_no_visitor k ≡ true
      → dispatch_all (visits f ts list) s ≡ some (tt, t)
      → t.unsupport ≡ true
  unfolding visits visit dispatch_all
  all-unsupport k nil s t l h e = elim l [ ]
  all-unsupport k (node info child sibling) s t (first same) h e =
      let r =
        bind-Steps (dispatcher f ts info (visits f ts child) none)
          (λ _. dispatch_all (visits f ts sibling)) s t tt e in
      rest-sticky sibling r.mid t r.second
        (dispatch-unsupport info (visits f ts child) none s r.mid r.value (rw same h) r.first)
  all-unsupport k (node info child sibling) s t (later l) h e =
      let r =
        bind-Steps (dispatcher f ts info (visits f ts child) none)
          (λ _. dispatch_all (visits f ts sibling)) s t tt e in
      all-unsupport k sibling r.mid t l h r.second

  root-all :
      (info : Info) (kids : List Visit) (s t : TransState) (a : Attr)
      → info.tag ≡ Tag.prog_is_extdef
      → dispatcher f ts info kids none s ≡ some (a, t)
      → dispatch_all kids s ≡ some (tt, t)
  unfolding dispatcher visitor_at is_logic without_attr translate_ast pure
  root-all info kids s t a same e =
      let r = bind-Steps (dispatch_all kids) (λ _. leave none) s t a (rw same at e) in
      let state : r.mid ≡ t = cc r.second in rw (← state) r.first

  tree-unsupport :
      (k : Tag) (info : Info) (list : Tree) (s t : TransState)
      → info.tag ≡ Tag.prog_is_extdef
      → Among k list
      → has_no_visitor k ≡ true
      → translate_tree f ts (node info list nil) s ≡ some (tt, t)
      → t.unsupport ≡ true
  unfolding translate_tree dispatch_first visits visit pure
  tree-unsupport k info list s t root l h e =
      let r = bind-Steps (dispatcher f ts info (visits f ts list) none) (λ _. pure tt) s t tt e in
      let state : r.mid ≡ t = cc r.second in
      rw (← state) (
        all-unsupport k list s r.mid l h
          (root-all info (visits f ts list) s r.mid r.value root r.first))

  -- A program that has, among its outermost definitions, one of a production without a visitor, such
  -- as a declaration of global variables, is never given assembly: whatever the other definitions
  -- and the state before are, `translate` writes its message, unless it runs into undefined behaviour.
  pub translate-refuses :
      (k : Tag) (info : Info) (list : Tree) (s : TransState)
      → info.tag ≡ Tag.prog_is_extdef
      → Among k list
      → has_no_visitor k ≡ true
      → (translate f ts (node info list nil) s ≡ none)
        ⊎ (translate f ts (node info list nil) s ≡ some none)
  unfolding translate
  translate-refuses k info list s root l h =
      elim (Option-cases (translate_tree f ts (node info list nil) s)) [
        | inr e ↦ inl (rw (e, translate) refl)
        | inl ((u, t), e) ↦
            inr (rw (e, translate) (rw (tree-unsupport k info list s t root l h e) refl))
      ]
