-- ===== src/Translate/Safe/Instr.antt =====
-- What `new_instr` keeps.
use naivecc.Base.{
  ℕ, ◌+◌, ◌<◌, Bool, true, false, ◌&&◌, ◌||◌, Option, none, some, List, [], ◌∷◌, ◌++◌, ◌≡◌, refl,
  arith, length, get_elem?, length-append, Bool-cases, inl, inr, ltb, leb, guard, >>=-eq-some, ◌⊎◌,
  zero, suc, ◌==◌, eq_of_beq,
}
use naivecc.Operand.{Operand, max_line}
use naivecc.Ir.{Ir, Buffer, new_instr, blank_ir}
use naivecc.Ir.Kinds.{IrType, ir_code, same_type}
use naivecc.Ir.Relop.{get_relop}
use naivecc.Machine.{act, kind, labels, target}
use naivecc.Preprocess.Inv.{is_typed, uses, refs, uses-eq}
use naivecc.Translate.{TransState, instr}
use naivecc.Translate.Safe.{Setting, marks, Later, IsLab, IsDat, Inv, In}
use naivecc.Translate.Safe.Marks.{marks-append, Every-append}

pub record Appended (ir : Ir) (s t : TransState) : Type 0 where
  pub store : t.store ≡ s.store
  pub scopes : t.scopes ≡ s.scopes
  pub buf : t.buf ≡ s.buf ++ ir ∷ []
  pub room : length s.buf < max_line
  pub unsupport : t.unsupport ≡ s.unsupport

guard-ltb : (n : ℕ) {u : Unit {0}} → guard (ltb n max_line) ≡ some u → n < max_line
guard-ltb n h = ground arith

new_instr-some :
    (buf : Buffer) (k : IrType) (rs rt rd : Option Operand) (r : ℕ × Buffer)
    → new_instr buf k rs rt rd ≡ some r
    → (r.1 ≡ buf ++ blank_ir k rs rt rd ∷ []) × (length buf < max_line)
unfolding new_instr
new_instr-some buf k rs rt rd r h =
    let (u, g, e) =
      >>=-eq-some (guard (ltb (length buf) max_line))
        (λ _. some (length buf, buf ++ blank_ir k rs rt rd ∷ [])) h in
    (cc e, guard-ltb (length buf) g)

pub instr-Appended :
    (k : IrType) (rs rt rd : Option Operand) (s t : TransState) (a : Unit {0})
    → instr k rs rt rd s ≡ some (a, t)
    → Appended (blank_ir k rs rt rd) s t
unfolding instr
instr-Appended k rs rt rd s t a e = by_result (new_instr s.buf k rs rt rd) refl e
  where
    by_result :
        (o : Option (ℕ × Buffer))
        → new_instr s.buf k rs rt rd ≡ o
        → ◌≡◌ {A = Option (Unit {0} × TransState)}
            (elim o [ none ↦ none | some r ↦ some (tt, record s { buf = r.1 }) ])
            (some (a, t))
        → Appended (blank_ir k rs rt rd) s t
    by_result none o e = cc e
    by_result (some r) o e =
        let (b, room) = new_instr-some s.buf k rs rt rd r o in
        let same : record s { buf = r.1 } ≡ t = cc e in
        record {
          store = rw (← same) refl;
          scopes = rw (← same) refl;
          buf = rw (← same) b;
          room = room;
          unsupport = rw (← same) refl;
        }

refs-append :
    (p : Operand) (buf : Buffer) (ir : Ir) → refs p (buf ++ ir ∷ []) ≡ refs p buf + uses p ir
unfolding refs
refs-append p [] ir = omega arith
refs-append p (x ∷ buf) ir = omega (arith, refs-append p buf ir)

positive_part : (a b : ℕ) → 0 < a + b → (0 < a) ⊎ (0 < b)
positive_part zero b h = inr (omega arith)
positive_part (suc a) b h = inl (omega arith)

-- A target after a new instruction is one before, or its own.
pub target-Appended :
    {ir : Ir} {s t : TransState} (p : Operand)
    → Appended ir s t
    → 0 < refs p t.buf
    → (0 < refs p s.buf) ⊎ (0 < uses p ir)
target-Appended {ir} {s} p a h =
    positive_part (refs p s.buf) (uses p ir)
      (let h' = rw a.buf at h in let e = refs-append p s.buf ir in omega arith)

pub no_target :
    (p : Operand) (ir : Ir) {J : List Operand} → target ir ≡ none → 0 < uses p ir → In p J
no_target p ir e h = let z = uses-eq p ir e in absurd (omega arith)

pub one_target :
    (p l : Operand) (ir : Ir) {J : List Operand}
    → target ir ≡ some l
    → In l J
    → 0 < uses p ir
    → In p J
one_target p l ir e i h = elim (Bool-cases (l == p)) [
  | inl c ↦ let same : l ≡ p = eq_of_beq l p c in rw (← same) i
  | inr c ↦ let z = uses-eq p ir e in absurd (omega (arith, (rw c at z)))
]

abbrev pub is_test : IrType → Bool
is_test k =
    same_type k IrType.nop
    || leb (ir_code IrType.beq) (ir_code k) && leb (ir_code k) (ir_code IrType.bne)

pub test_target :
    (p : Operand) (k : IrType) (rs rt : Option Operand) (l : Operand) {J : List Operand}
    → is_test k ≡ true
    → In l J
    → 0 < uses p (blank_ir k rs rt (some l))
    → In p J
test_target p IrType.nop rs rt l e i = no_target p (blank_ir IrType.nop rs rt (some l)) refl
test_target p IrType.beq rs rt l e i = one_target p l (blank_ir IrType.beq rs rt (some l)) refl i
test_target p IrType.blt rs rt l e i = one_target p l (blank_ir IrType.blt rs rt (some l)) refl i
test_target p IrType.ble rs rt l e i = one_target p l (blank_ir IrType.ble rs rt (some l)) refl i
test_target p IrType.bgt rs rt l e i = one_target p l (blank_ir IrType.bgt rs rt (some l)) refl i
test_target p IrType.bge rs rt l e i = one_target p l (blank_ir IrType.bge rs rt (some l)) refl i
test_target p IrType.bne rs rt l e i = one_target p l (blank_ir IrType.bne rs rt (some l)) refl i
test_target p _ rs rt l e i = cc e

length_snoc : (buf : Buffer) (ir : Ir) → length (buf ++ ir ∷ []) ≡ length buf + 1
length_snoc buf ir = length-append buf (ir ∷ [])

pub Later-Appended : {ir : Ir} {s t : TransState} → Appended ir s t → Later s t
Later-Appended {ir} {s} a = record {
  next_le = rw a.store (omega arith);
  length_le = rw (a.buf, length_snoc s.buf ir) (omega arith);
  bounded = λ h. rw (a.buf, length_snoc s.buf ir) (let z = a.room in omega arith);
  sticky = λ h. rw a.unsupport h;
  kept = λ p h. rw a.store refl;
}

pub instr-filled :
    (k : IrType) (rs rt rd : Option Operand) (s t : TransState) (a : Unit {0})
    → instr k rs rt rd s ≡ some (a, t)
    → 0 < length t.buf
instr-filled k rs rt rd s t x e =
    let a = instr-Appended k rs rt rd s t x e in
    rw (a.buf, length_snoc s.buf (blank_ir k rs rt rd)) (omega arith)

first-append :
    (buf : Buffer) (new : Ir)
    → ((ir : Ir) → get_elem? buf 0 ≡ some ir → same_type ir.type IrType.jmp ≡ false)
    → (length buf ≡ 0 → same_type new.type IrType.jmp ≡ false)
    → (ir : Ir) → get_elem? (buf ++ new ∷ []) 0 ≡ some ir
    → same_type ir.type IrType.jmp ≡ false
first-append [] new h n ir e = let same : new ≡ ir = cc e in rw (← same) (n refl)
first-append (x ∷ buf) new h n ir e = h ir e

pub act-plain :
    (k : IrType)
    → kind k ≡ act
    → (same_type k IrType.label ≡ false) × (same_type k IrType.jmp ≡ false)
act-plain k h = (ground arith, ground arith)

pub test-plain :
    (k : IrType)
    → is_test k ≡ true
    → (same_type k IrType.label ≡ false) × (same_type k IrType.jmp ≡ false)
test-plain k h = (ground arith, ground arith)

pub get_relop-is_test : (op : List ℕ) → is_test (get_relop op) ≡ true
unfolding get_relop
get_relop-is_test op = ground arith

pub test-typed :
    (ty : Setting) (k : IrType) (rs rt : Option Operand) (l : Operand)
    → is_test k ≡ true
    → IsDat ty rs
    → IsDat ty rt
    → IsLab ty l
    → is_typed ty.type_of (blank_ir k rs rt (some l)) ≡ true
test-typed ty IrType.nop rs rt l e a b c = refl
test-typed ty IrType.beq rs rt l e a b c = rw (a.at, b.at, c.at) refl
test-typed ty IrType.blt rs rt l e a b c = rw (a.at, b.at, c.at) refl
test-typed ty IrType.ble rs rt l e a b c = rw (a.at, b.at, c.at) refl
test-typed ty IrType.bgt rs rt l e a b c = rw (a.at, b.at, c.at) refl
test-typed ty IrType.bge rs rt l e a b c = rw (a.at, b.at, c.at) refl
test-typed ty IrType.bne rs rt l e a b c = rw (a.at, b.at, c.at) refl
test-typed ty _ rs rt l e a b c = cc e

module _ {ty : Setting} where
  -- The invariant after a new instruction, which may be a label that does not stand yet.
  pub Inv-Appended :
      {ir : Ir} {s t : TransState}
      → Appended ir s t
      → is_typed ty.type_of ir ≡ true
      → (same_type ir.type IrType.jmp ≡ true → 0 < length s.buf)
      → ((l : Operand) → labels l ir ≡ true → (ty.IsOnce → marks l s.buf ≡ 0) × (l < s.store.next))
      → Inv ty s
      → Inv ty t
  Inv-Appended {ir} {s} {t} a typed first new i = record {
    typed = rw a.buf (Every-append s.buf ir i.typed typed);
    once = λ o l.
        rw (a.buf, marks-append l s.buf ir)
          (elim (Bool-cases (labels l ir)) [
            | inl c ↦ rw (c, (new l c).0 o) (omega arith)
            | inr c ↦ rw c (let z = i.once o l in omega arith)
          ]);
    fresh = λ l le.
        rw (a.buf, marks-append l s.buf ir)
          (let le' = rw a.store at le in
            elim (Bool-cases (labels l ir)) [
              | inl c ↦ let z = (new l c).1 in absurd (omega arith)
              | inr c ↦ rw c (let z = i.fresh l le' in omega arith)
            ]);
    counts = rw a.store i.counts;
    symbols = rw a.scopes i.symbols;
    first = rw a.buf (
        first-append s.buf ir i.first (λ z. elim (Bool-cases (same_type ir.type IrType.jmp)) [
          | inl c ↦ let w = first c in absurd (omega arith)
          | inr c ↦ c
        ]));
  }
