-- ===== src/Ir/Anti.antt =====
-- The dictionary of comparisons of ir.c, read in its three directions.
use naivecc.Base.{ℕ, Bool, true, false, not, some, List, [], ◌∷◌, ◌≡◌, refl, leb, ◌&&◌, arith}
use naivecc.Base.Int.{ℤ, beq_ℤ, ltb_ℤ, leb_ℤ}
use naivecc.Ir.{Ir, is_branch}
use naivecc.Ir.Kinds.{IrType, ir_code}
use naivecc.Ir.Relop.{get_relop_symbol, get_relop_anti, get_relop}

-- Whether two integers compare as a branch asks: the meaning of `beq`, `blt` and the others.
unfoldable pub decides : IrType → ℤ → ℤ → Bool
decides IrType.beq a b = beq_ℤ a b
decides IrType.bne a b = not (beq_ℤ a b)
decides IrType.blt a b = ltb_ℤ a b
decides IrType.bge a b = leb_ℤ b a
decides IrType.bgt a b = ltb_ℤ b a
decides IrType.ble a b = leb_ℤ a b
decides _ a b = false

not-not : (b : Bool) → b ≡ not (not b)
not-not true = refl
not-not false = refl

leb_ℤ-ltb_ℤ : (a b : ℤ) → leb_ℤ b a ≡ not (ltb_ℤ a b)
leb_ℤ-ltb_ℤ a b = ground arith

ltb_ℤ-leb_ℤ : (a b : ℤ) → ltb_ℤ b a ≡ not (leb_ℤ a b)
ltb_ℤ-leb_ℤ a b = ground arith

-- What the dictionary says of a comparison.
pub record Listed (t : IrType) : Type 0 where
  pub symbol : List ℕ
  pub has_symbol : get_relop_symbol t ≡ some symbol
  pub parses : get_relop symbol ≡ t
  pub twice : get_relop_anti (get_relop_anti t) ≡ t
  pub opposite : (a b : ℤ) → decides (get_relop_anti t) a b ≡ not (decides t a b)

Listed-of :
    (t : IrType)
    → (leb (ir_code IrType.beq) (ir_code t) && leb (ir_code t) (ir_code IrType.bne)) ≡ true
    → Listed t
unfolding get_relop_symbol get_relop_anti get_relop decides
Listed-of IrType.beq h = record {
  symbol = b'=' ∷ b'=' ∷ [];
  has_symbol = refl;
  parses = refl;
  twice = refl;
  opposite = λ a b. refl;
}
Listed-of IrType.blt h = record {
  symbol = b'<' ∷ [];
  has_symbol = refl;
  parses = refl;
  twice = refl;
  opposite = λ a b. leb_ℤ-ltb_ℤ a b;
}
Listed-of IrType.ble h = record {
  symbol = b'<' ∷ b'=' ∷ [];
  has_symbol = refl;
  parses = refl;
  twice = refl;
  opposite = λ a b. ltb_ℤ-leb_ℤ a b;
}
Listed-of IrType.bgt h = record {
  symbol = b'>' ∷ [];
  has_symbol = refl;
  parses = refl;
  twice = refl;
  opposite = λ a b. leb_ℤ-ltb_ℤ b a;
}
Listed-of IrType.bge h = record {
  symbol = b'>' ∷ b'=' ∷ [];
  has_symbol = refl;
  parses = refl;
  twice = refl;
  opposite = λ a b. ltb_ℤ-leb_ℤ b a;
}
Listed-of IrType.bne h = record {
  symbol = b'!' ∷ b'=' ∷ [];
  has_symbol = refl;
  parses = refl;
  twice = refl;
  opposite = λ a b. not-not (beq_ℤ a b);
}
Listed-of IrType.nop h = cc
Listed-of IrType.label h = cc
Listed-of IrType.func h = cc
Listed-of IrType.assign h = cc
Listed-of IrType.add h = cc
Listed-of IrType.sub h = cc
Listed-of IrType.mul h = cc
Listed-of IrType.div h = cc
Listed-of IrType.addr h = cc
Listed-of IrType.deref_r h = cc
Listed-of IrType.deref_l h = cc
Listed-of IrType.jmp h = cc
Listed-of IrType.ret h = cc
Listed-of IrType.dec h = cc
Listed-of IrType.arg h = cc
Listed-of IrType.call h = cc
Listed-of IrType.param h = cc
Listed-of IrType.read h = cc
Listed-of IrType.write h = cc

-- Every branch instruction has a symbol that `get_relop` reads back as its type. Its entry `anti` is
-- the negation: on any two integers it is taken if and only if the branch is not; and the `anti` of
-- that is the branch.
pub is_branch-Listed : (ir : Ir) → is_branch ir ≡ true → Listed ir.type
unfolding is_branch
is_branch-Listed ir h = Listed-of ir.type h
