-- ===== src/Translate/Loops.antt =====
-- Trees in which the body of no FOR is a logic expression. The grammar of syntax.y makes no other:
-- the body is a Stmt, and an expression as a statement is below a `STMT_is_EXP`.
use naivecc.Base.{
  Bool, true, false, ◌&&◌, ◌||◌, not, none, List, ◌∷◌, ◌≡◌, refl, and_left, and_right, arith,
}
use naivecc.Operand.{FloatOps}
use naivecc.CmmType.{Types}
use naivecc.Syntax.{Tag, Info, Tree, nil, node, same_tag}
use naivecc.Translate.{Visit}
use naivecc.Translate.Program.{is_logic, visit, visits}

-- Whether the fourth node of a list of siblings, if any, is no logic expression.
pub plain_fourth : Tree → Bool
plain_fourth (node a ac (node b bc (node c cc' (node d dc rest)))) = not (is_logic d.tag)
plain_fourth _ = true

unfoldable pub plain_loops : Tree → Bool
plain_loops nil = true
plain_loops (node info child sibling) =
    (not (same_tag info.tag Tag.stmt_is_for) || plain_fourth child)
    && (plain_loops child && plain_loops sibling)

-- The visit of the body of a FOR leaves its `label_true` alone.
abbrev pub PlainBody : List Visit → Type 0
PlainBody (a ∷ b ∷ c ∷ d ∷ rest) = d.relabel ≡ none
PlainBody _ = Unit

module _ (f : FloatOps) (types : Types) where
  relabel-visit :
      (info : Info) (kids : List Visit)
      → is_logic info.tag ≡ false
      → (visit f types info kids).relabel ≡ none
  unfolding visit
  relabel-visit info kids h = rw h refl

  PlainBody-visits : (t : Tree) → plain_fourth t ≡ true → PlainBody (visits f types t)
  unfolding plain_fourth visits
  PlainBody-visits (node a ac (node b bc (node c cc' (node d dc rest)))) h =
      relabel-visit d (visits f types dc) (ground arith)
  PlainBody-visits (node a ac (node b bc (node c cc' nil))) h = tt
  PlainBody-visits (node a ac (node b bc nil)) h = tt
  PlainBody-visits (node a ac nil) h = tt
  PlainBody-visits nil h = tt

  pub PlainBody-for :
      (info : Info) (child sibling : Tree)
      → plain_loops (node info child sibling) ≡ true
      → same_tag info.tag Tag.stmt_is_for ≡ true
      → PlainBody (visits f types child)
  unfolding plain_loops
  PlainBody-for info child sibling h t =
      let z = and_left _ (plain_loops child && plain_loops sibling) h in
      PlainBody-visits child (rw t at z)

pub plain_loops-child :
    (info : Info) (child sibling : Tree)
    → plain_loops (node info child sibling) ≡ true
    → plain_loops child ≡ true
unfolding plain_loops
plain_loops-child info child sibling h =
    and_left (plain_loops child) (plain_loops sibling)
      (and_right (not (same_tag info.tag Tag.stmt_is_for) || plain_fourth child) _ h)

pub plain_loops-sibling :
    (info : Info) (child sibling : Tree)
    → plain_loops (node info child sibling) ≡ true
    → plain_loops sibling ≡ true
unfolding plain_loops
plain_loops-sibling info child sibling h =
    and_right (plain_loops child) (plain_loops sibling)
      (and_right (not (same_tag info.tag Tag.stmt_is_for) || plain_fourth child) _ h)
