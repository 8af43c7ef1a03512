-- ===== src/Syntax/Shape.antt =====
-- The children of a tree that `create_tree` makes.
use naivecc.Base.{ℕ, ◌≢◌, some, List, [], ◌∷◌, ◌++◌, ◌≡◌, refl, ap, ◌∙◌, take, beq_of_ne}
use naivecc.Syntax.{Tag, Info, Tree, nil, node, append, chain, create_tree, body_size, zero_info}

-- The nodes of a chain of siblings.
unfoldable pub siblings : Tree → List (Info × Tree)
siblings nil = []
siblings (node i child sibling) = (i, child) ∷ siblings sibling

siblings-append : (s t : Tree) → siblings (append s t) ≡ siblings s ++ siblings t
unfolding siblings append
siblings-append nil t = refl
siblings-append (node i child sibling) t = ap (λ r. (i, child) ∷ r) (siblings-append sibling t)

unfoldable pub all_siblings : List Tree → List (Info × Tree)
all_siblings [] = []
all_siblings (t ∷ ts) = siblings t ++ all_siblings ts

siblings-chain : (ts : List Tree) → siblings (chain ts) ≡ all_siblings ts
unfolding chain all_siblings siblings
siblings-chain [] = refl
siblings-chain (t ∷ ts) =
    siblings-append t (chain ts) ∙ ap (λ r. siblings t ++ r) (siblings-chain ts)

-- For a production with a body, `create_tree` makes one node with the tag and the line, whose
-- children are those of the arguments, in order; NULL arguments leave no gap.
pub create_tree-children :
    (tag : Tag) (lineno n : ℕ) (args : List Tree)
    → body_size tag ≡ some n
    → n ≢ 0
    → (child : Tree) × (create_tree tag lineno args ≡ some (node (zero_info tag lineno) child nil))
      × (siblings child ≡ all_siblings (take n args))
unfolding create_tree
create_tree-children tag lineno n args e pos =
    (chain (take n args), rw e (rw (beq_of_ne n 0 pos) refl), siblings-chain (take n args))
