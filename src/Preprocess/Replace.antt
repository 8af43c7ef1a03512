-- ===== src/Preprocess/Replace.antt =====
-- What `replace_operand_global` does to the uses of every operand.
use naivecc.Base.{ℕ, ◌+◌, Option, some, List, [], ◌∷◌, ◌≡◌, ◌≢◌, same_ptr, if◌then◌else◌}
use naivecc.Operand.{Operand}
use naivecc.Ir.{Ir, Buffer}
use naivecc.Ir.Kinds.{IrType, same_type}
use naivecc.Preprocess.{swap_ptr}

-- The reference: how often an operand stands in the fields of the instructions that are no NOPs.
unfoldable pub occurs : Operand → List (Option Operand) → ℕ
occurs p [] = 0
occurs p (x ∷ fields) = (if same_ptr x (some p) then 1 else 0) + occurs p fields

abbrev fields : Ir → List (Option Operand)
fields ir = if same_type ir.type IrType.nop then [] else ir.rs ∷ ir.rt ∷ ir.rd ∷ []

unfoldable pub occurrences : Operand → Buffer → ℕ
occurrences p [] = 0
occurrences p (ir ∷ buf) = occurs p (fields ir) + occurrences p buf

module _ (newbie old p : Operand) (d : newbie ≢ old) (dp : p ≢ old) (dn : p ≢ newbie) where
  swap : Option Operand → Option Operand
  swap x = swap_ptr newbie (some old) x

  record Moved (x y : List (Option Operand)) : Type 0 where
    gone : occurs old y ≡ 0
    moved : occurs newbie y ≡ occurs newbie x + occurs old x
    others : occurs p y ≡ occurs p x
