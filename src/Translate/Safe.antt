-- ===== src/Translate/Safe.antt =====
-- What translation keeps, as a judgement on its commands with one rule for each way to build one.
-- The type of an operand may change while it is made, but never between a label and another operand.
pub mod Marks
pub mod Pending
pub mod Rules
pub mod Commands
pub mod Instr
pub mod Quiet
pub mod Fields
pub mod Labels
pub mod Relabel
pub mod Symbols
pub mod Visits
pub mod Sequence
pub mod Emit
use naivecc.Base.{
  ℕ, ◌+◌, ◌<◌, ◌≤◌, Bool, true, false, Option, none, some, List, [], ◌∷◌, ◌≡◌, ◌≢◌, ◌==◌,
  if◌then◌else◌, get_elem?, length, ◌⊎◌,
}
use naivecc.Base.Int.{pos}
use naivecc.Operand.{Operand, OpeType, Heap, max_line, same_ope_type}
use naivecc.Ir.{Ir, Buffer}
use naivecc.Ir.Kinds.{IrType, same_type}
use naivecc.Symtab.{Symbol, Table}
use naivecc.Machine.{labels}
use naivecc.Preprocess.Inv.{Every, is_typed, is_data, refs}
use naivecc.Translate.{TransState, M}

abbrev pub All : {A : Type 0} → (A → Type 0) → List A → Type 0
All P [] = Unit
All P (x ∷ xs) = P x × All P xs

-- How often the label `l` stands in a buffer.
unfoldable pub marks : Operand → Buffer → ℕ
marks l [] = 0
marks l (ir ∷ buf) = (if labels l ir then 1 else 0) + marks l buf

abbrev pub is_label_type : Heap → Operand → Bool
is_label_type h p = same_ope_type (h p).type OpeType.label

-- What every command does to the store and the buffer.
pub record Later (s t : TransState) : Type 0 where
  pub next_le : s.store.next ≤ t.store.next
  pub length_le : length s.buf ≤ length t.buf
  pub bounded : length s.buf ≤ max_line → length t.buf ≤ max_line
  pub sticky : s.unsupport ≡ true → t.unsupport ≡ true
  pub kept :
      (p : Operand) → p < s.store.next → is_label_type t.store.heap p ≡ is_label_type s.store.heap p

abbrev pub NotIn : Operand → List Operand → Type 0
NotIn l [] = Unit
NotIn l (a ∷ L) = ((l == a) ≡ false) × NotIn l L

-- Labels that are made and do not stand yet.
abbrev pub Pending : List Operand → TransState → Type 0
Pending [] s = Unit
Pending (l ∷ L) s = (l < s.store.next) × (marks l s.buf ≡ 0) × NotIn l L × Pending L s

-- Taking the label `l` out of a list.
pub data Takes : Operand → List Operand → List Operand → Type 0 where
  here : {l : Operand} {L : List Operand} → Takes l (l ∷ L) L
  there : {l x : Operand} {L L' : List Operand} → Takes l L L' → Takes l (x ∷ L) (x ∷ L')

-- A label in a list.
pub data In : Operand → List Operand → Type 0 where
  in_here : {l : Operand} {L : List Operand} → In l (l ∷ L)
  in_there : {l x : Operand} {L : List Operand} → In l L → In l (x ∷ L)

-- What follows from `H`.
pub record Has (H X : Type 0) : Type 0 where
  pub get : H → X

-- What the judgement is about: the type of every operand when translation ends, and the condition
-- under which no label stands twice.
pub record Setting : Type 1 where
  pub type_of : Operand → OpeType
  pub IsOnce : Type 0

module _ (ty : Setting) where
  pub record IsLab (p : Operand) : Type 0 where
    pub at : same_ope_type (ty.type_of p) OpeType.label ≡ true

  pub record IsDat (p : Option Operand) : Type 0 where
    pub at : is_data ty.type_of p ≡ true

  abbrev pub Agree : TransState → Type 0
  Agree t =
      (p : Operand)
      → p < t.store.next
      → is_label_type t.store.heap p ≡ same_ope_type (ty.type_of p) OpeType.label

  -- The address of every symbol is no label.
  abbrev pub SymbolsOk : List Table → Type 0
  SymbolsOk tables = All (All (All (λ (x : Symbol). IsDat x.address))) tables

  -- The invariant of translation: jumps name labels, each label stands at most once under the
  -- condition of the setting, a new operand
  -- is none that stands as a label, and the code does not begin with a jump.
  pub record Inv (s : TransState) : Type 0 where
    pub typed : Every (λ ir. is_typed ty.type_of ir ≡ true) s.buf
    pub once : ty.IsOnce → (l : Operand) → marks l s.buf ≤ 1
    pub fresh : (l : Operand) → s.store.next ≤ l → marks l s.buf ≡ 0
    pub counts : (p : Operand) → (s.store.heap p).label_ref_cnt ≡ pos 0
    pub symbols : SymbolsOk s.scopes.tables
    pub first : (ir : Ir) → get_elem? s.buf 0 ≡ some ir → same_type ir.type IrType.jmp ≡ false

  -- The outcome of a command that places the labels of `L`, and whose jumps go to labels that stand
  -- or to those of `J`.
  pub record Outcome {A : Type 0} (L J : List Operand) (Q : A → Type 0) (s t : TransState) (a : A)
      : Type 0 where
    pub inv : Inv t
    pub marked : (l : Operand) → l < s.store.next → NotIn l L → marks l t.buf ≡ marks l s.buf
    pub placed : (l : Operand) → In l L → 0 < marks l t.buf
    pub targets :
        (p : Operand) → 0 < refs p t.buf → (0 < refs p s.buf) ⊎ ((0 < marks p t.buf) ⊎ In p J)
    pub post : Q a

  -- Under `H`, and with instructions in the buffer if `b`, the command `m` keeps the invariant and
  -- places the labels of `L` and no other that is there before; it jumps to labels that stand or are
  -- in `J`, and its result satisfies `Q`.
  pub record Safe {A : Type 0} (H : Type 0) (b : Bool) (L J : List Operand) (m : M A)
      (Q : A → Type 0) : Type 0 where
    pub later : (s t : TransState) (a : A) → m s ≡ some (a, t) → Later s t
    pub good :
        (s t : TransState) (a : A)
        → m s ≡ some (a, t)
        → H
        → Agree t
        → Inv s
        → Pending L s
        → (b ≡ true → 0 < length s.buf)
        → Outcome L J Q s t a
