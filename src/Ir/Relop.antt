-- ===== src/Ir/Relop.antt =====
-- The dictionary of comparison operators, `relop_dict`.
use naivecc.Base.{
  ℕ, Bool, true, false, Option, none, some, List, [], ◌∷◌, if◌then◌else◌, ◌==◌, ◌&&◌,
}
use naivecc.Ir.Kinds.{IrType, same_type}

-- `strcmp(a, b) == 0`
unfoldable pub str_eq : List ℕ → List ℕ → Bool
str_eq [] [] = true
str_eq (a ∷ s) (b ∷ t) = (a == b) && str_eq s t
str_eq _ _ = false

pub record RelopEntry : Type 0 where
  pub relop : IrType
  pub str : List ℕ
  pub anti : IrType

abbrev pub relop_dict : List RelopEntry
relop_dict =
    record { relop = IrType.beq; str = b'=' ∷ b'=' ∷ []; anti = IrType.bne }
    ∷ record { relop = IrType.blt; str = b'<' ∷ []; anti = IrType.bge }
    ∷ record { relop = IrType.ble; str = b'<' ∷ b'=' ∷ []; anti = IrType.bgt }
    ∷ record { relop = IrType.bgt; str = b'>' ∷ []; anti = IrType.ble }
    ∷ record { relop = IrType.bge; str = b'>' ∷ b'=' ∷ []; anti = IrType.blt }
    ∷ record { relop = IrType.bne; str = b'!' ∷ b'=' ∷ []; anti = IrType.beq }
    ∷ []

symbol_in : List RelopEntry → IrType → Option (List ℕ)
symbol_in [] t = none
symbol_in (e ∷ es) t = if same_type e.relop t then some e.str else symbol_in es t

unfoldable pub get_relop_symbol : IrType → Option (List ℕ)
unfolding symbol_in
get_relop_symbol t = symbol_in relop_dict t

anti_in : List RelopEntry → IrType → IrType
anti_in [] t = IrType.nop
anti_in (e ∷ es) t = if same_type e.relop t then e.anti else anti_in es t

unfoldable pub get_relop_anti : IrType → IrType
unfolding anti_in
get_relop_anti t = anti_in relop_dict t

relop_in : List RelopEntry → List ℕ → IrType
relop_in [] s = IrType.nop
relop_in (e ∷ es) s = if str_eq e.str s then e.relop else relop_in es s

unfoldable pub get_relop : List ℕ → IrType
unfolding relop_in str_eq
get_relop s = relop_in relop_dict s
