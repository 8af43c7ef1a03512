-- ===== src/Translate/Safe/Marks.antt =====
-- The labels that stand in a buffer, under the changes that translation makes.
use naivecc.Base.{
  ℕ, zero, suc, ◌+◌, ◌<◌, ◌≤◌, Bool, true, false, ◌&&◌, Option, some, [], ◌∷◌, ◌++◌, ◌≡◌, refl, ap,
  arith, if◌then◌else◌, get_elem?, length, same_ptr, eq_of_same_ptr, Bool-cases, inl, inr, and_left,
  and_right, none,
}
use naivecc.Operand.{Operand, OpeType}
use naivecc.Ir.{Ir, Buffer}
use naivecc.Ir.Kinds.{IrType, same_type, eq_label}
use naivecc.Machine.{Kind, skip, jump, branch, return, act, kind, labels, target}
use naivecc.Machine.Labels.{labels?, Unique}
use naivecc.Preprocess.{swap_ptr, replace_in, replace_operand_global}
use naivecc.Preprocess.Inv.{Every, is_typed, is_data, is_label, refs}
use naivecc.Translate.Safe.{marks}

pub marks-append :
    (l : Operand) (buf : Buffer) (ir : Ir)
    → marks l (buf ++ ir ∷ []) ≡ marks l buf + (if labels l ir then 1 else 0)
unfolding marks
marks-append l [] ir = omega arith
marks-append l (x ∷ buf) ir = omega (arith, marks-append l buf ir)

marks-pos :
    (l : Operand) (buf : Buffer) (i : ℕ) → labels? l (get_elem? buf i) ≡ true → 0 < marks l buf
unfolding marks
marks-pos l [] i h = cc h
marks-pos l (x ∷ buf) zero h = rw h (omega arith)
marks-pos l (x ∷ buf) (suc i) h = omega (arith, marks-pos l buf i h)

once-at :
    (l : Operand) (buf : Buffer) (i j : ℕ)
    → marks l buf ≤ 1
    → labels? l (get_elem? buf i) ≡ true
    → labels? l (get_elem? buf j) ≡ true
    → i ≡ j
unfolding marks
once-at l [] i j m h k = cc h
once-at l (x ∷ buf) zero zero m h k = refl
once-at l (x ∷ buf) zero (suc j) m h k =
    let p = marks-pos l buf j k in absurd (omega (arith, (rw h at m)))
once-at l (x ∷ buf) (suc i) zero m h k =
    let p = marks-pos l buf i h in absurd (omega (arith, (rw k at m)))
once-at l (x ∷ buf) (suc i) (suc j) m h k = ap suc (once-at l buf i j (omega arith) h k)

-- A label that stands at most once stands at one index.
pub Unique-once : (buf : Buffer) → ((l : Operand) → marks l buf ≤ 1) → Unique buf
Unique-once buf once p i j h k = once-at p buf i j (once p) h k

pub Every-append :
    {P : Ir → Type 0} (buf : Buffer) (ir : Ir) → Every P buf → P ir → Every P (buf ++ ir ∷ [])
Every-append {P} [] ir e p zero x g = let same : ir ≡ x = cc g in rw (← same) p
Every-append [] ir e p (suc j) x g = cc g
Every-append (y ∷ buf) ir e p zero x g = e zero x g
Every-append (y ∷ buf) ir e p (suc j) x g = Every-append buf ir (λ k. e (suc k)) p j x g

both :
    (ty : Operand → OpeType) (p : Operand)
    → is_label ty (some p) ≡ true
    → is_data ty (some p) ≡ true
    → ⊥
both ty p h k = cc (rw h at k)

module _ (ty : Operand → OpeType) (newbie old : Operand) (dn : is_data ty (some newbie) ≡ true)
    (do' : is_data ty (some old) ≡ true) where
  swap_data :
      (p : Option Operand) → is_data ty p ≡ true → is_data ty (swap_ptr newbie (some old) p) ≡ true
  unfolding swap_ptr
  swap_data p h = elim (Bool-cases (same_ptr p (some old))) [ inl c ↦ rw c dn | inr c ↦ rw c h ]

  swap_label : (p : Option Operand) → is_label ty p ≡ true → swap_ptr newbie (some old) p ≡ p
  unfolding swap_ptr
  swap_label p h = elim (Bool-cases (same_ptr p (some old))) [
    | inl c ↦
        let e : p ≡ some old = eq_of_same_ptr p (some old) c in absurd (both ty old (rw e at h) do')
    | inr c ↦ rw c refl
  ]

  swap_typed :
      (k : Kind) (lab : Bool) (rs rt rd : Option Operand)
      → (elim k [
        | skip ↦ if lab then is_label ty rs else true
        | jump ↦ is_label ty rs
        | branch ↦ is_label ty rd && (is_data ty rs && is_data ty rt)
        | return ↦ is_data ty rs
        | act ↦ is_data ty rd && (is_data ty rs && is_data ty rt)
      ])
        ≡ true
      → (elim k [
        | skip ↦ if lab then is_label ty (swap_ptr newbie (some old) rs) else true
        | jump ↦ is_label ty (swap_ptr newbie (some old) rs)
        | branch ↦
            is_label ty (swap_ptr newbie (some old) rd)
            && (is_data ty (swap_ptr newbie (some old) rs)
                && is_data ty (swap_ptr newbie (some old) rt))
        | return ↦ is_data ty (swap_ptr newbie (some old) rs)
        | act ↦
            is_data ty (swap_ptr newbie (some old) rd)
            && (is_data ty (swap_ptr newbie (some old) rs)
                && is_data ty (swap_ptr newbie (some old) rt))
      ])
        ≡ true
  swap_typed skip true rs rt rd h = rw (swap_label rs h) h
  swap_typed skip false rs rt rd h = refl
  swap_typed jump lab rs rt rd h = rw (swap_label rs h) h
  swap_typed return lab rs rt rd h = swap_data rs h
  swap_typed act lab rs rt rd h =
      let d = and_left (is_data ty rd) _ h in
      let r = and_right (is_data ty rd) _ h in
      rw
        (
          swap_data rd d,
          swap_data rs (and_left (is_data ty rs) _ r),
          swap_data rt (and_right (is_data ty rs) _ r),
        )
        refl
  swap_typed branch lab rs rt rd h =
      let d = and_left (is_label ty rd) _ h in
      let r = and_right (is_label ty rd) _ h in
      rw
        (
          swap_label rd d,
          d,
          swap_data rs (and_left (is_data ty rs) _ r),
          swap_data rt (and_right (is_data ty rs) _ r),
        )
        refl

  typed-replace_in :
      (ir : Ir) → is_typed ty ir ≡ true → is_typed ty (replace_in newbie (some old) ir) ≡ true
  unfolding replace_in
  typed-replace_in ir h = elim (Bool-cases (same_type ir.type IrType.nop)) [
    | inl c ↦ rw c h
    | inr c ↦ rw c (swap_typed (kind ir.type) (same_type ir.type IrType.label) ir.rs ir.rt ir.rd h)
  ]

  labels-replace_in :
      (l : Operand) (ir : Ir)
      → is_typed ty ir ≡ true
      → labels l (replace_in newbie (some old) ir) ≡ labels l ir
  unfolding replace_in
  labels-replace_in l ir h = elim (Bool-cases (same_type ir.type IrType.nop)) [
    | inl c ↦ rw c refl
    | inr c ↦ rw c (elim (Bool-cases (same_type ir.type IrType.label)) [
      | inr d ↦ rw d refl
      | inl d ↦
          let e : ir.type ≡ IrType.label = eq_label ir.type d in
          rw (swap_label ir.rs (rw e at h)) refl
    ])
  ]

  target-replace_in :
      (ir : Ir) → is_typed ty ir ≡ true → target (replace_in newbie (some old) ir) ≡ target ir
  unfolding replace_in
  target-replace_in ir h = elim (Bool-cases (same_type ir.type IrType.nop)) [
    | inl c ↦ rw c refl
    | inr c ↦ rw c (by_kind (kind ir.type) h)
  ]
    where
      by_kind :
          (k : Kind)
          → (elim k [
            | skip ↦ if same_type ir.type IrType.label then is_label ty ir.rs else true
            | jump ↦ is_label ty ir.rs
            | branch ↦ is_label ty ir.rd && (is_data ty ir.rs && is_data ty ir.rt)
            | return ↦ is_data ty ir.rs
            | act ↦ is_data ty ir.rd && (is_data ty ir.rs && is_data ty ir.rt)
          ])
            ≡ true
          → ◌≡◌ {A = Option Operand}
              (elim k [
                | jump ↦ swap_ptr newbie (some old) ir.rs
                | branch ↦ swap_ptr newbie (some old) ir.rd
                | _ ↦ none
              ])
              (elim k [ jump ↦ ir.rs | branch ↦ ir.rd | _ ↦ none ])
      by_kind jump h = swap_label ir.rs h
      by_kind branch h = swap_label ir.rd (and_left (is_label ty ir.rd) _ h)
      by_kind skip h = refl
      by_kind return h = refl
      by_kind act h = refl

  pub refs-replace :
      (p : Operand) (buf : Buffer)
      → Every (λ ir. is_typed ty ir ≡ true) buf
      → refs p (replace_operand_global newbie (some old) buf).1 ≡ refs p buf
  unfolding refs replace_operand_global
  refs-replace p [] e = refl
  refs-replace p (ir ∷ buf) e =
      rw
        (
          ap {B = ℕ} (λ t. if same_ptr t (some p) then 1 else 0)
              (target-replace_in ir (e 0 ir refl)),
          refs-replace p buf (λ k. e (suc k)),
        )
        refl

  pub marks-replace :
      (l : Operand) (buf : Buffer)
      → Every (λ ir. is_typed ty ir ≡ true) buf
      → marks l (replace_operand_global newbie (some old) buf).1 ≡ marks l buf
  unfolding marks replace_operand_global
  marks-replace l [] e = refl
  marks-replace l (ir ∷ buf) e =
      rw (labels-replace_in l ir (e 0 ir refl), marks-replace l buf (λ k. e (suc k))) refl

  pub Every-replace :
      (buf : Buffer)
      → Every (λ ir. is_typed ty ir ≡ true) buf
      → Every (λ ir. is_typed ty ir ≡ true) (replace_operand_global newbie (some old) buf).1
  unfolding replace_operand_global
  Every-replace [] e j ir g = cc g
  Every-replace (x ∷ buf) e zero ir g =
      let same : replace_in newbie (some old) x ≡ ir = cc g in
      rw (← same) (typed-replace_in x (e 0 x refl))
  Every-replace (x ∷ buf) e (suc j) ir g = Every-replace buf (λ k. e (suc k)) j ir g

pub length-replace :
    (newbie : Operand) (old : Option Operand) (buf : Buffer)
    → length (replace_operand_global newbie old buf).1 ≡ length buf
unfolding replace_operand_global
length-replace newbie old [] = refl
length-replace newbie old (ir ∷ buf) = ap suc (length-replace newbie old buf)

-- The type of the first instruction is kept.
pub first-replace :
    (newbie : Operand) (old : Option Operand) (buf : Buffer)
    → ((ir : Ir) → get_elem? buf 0 ≡ some ir → same_type ir.type IrType.jmp ≡ false)
    → (ir : Ir) → get_elem? (replace_operand_global newbie old buf).1 0 ≡ some ir
    → same_type ir.type IrType.jmp ≡ false
unfolding replace_operand_global replace_in
first-replace newbie old [] h ir g = cc g
first-replace newbie old (x ∷ buf) h ir g =
    let same : replace_in newbie old x ≡ ir = cc g in
    rw (← same) (elim (Bool-cases (same_type x.type IrType.nop)) [
      | inl c ↦ rw c (h x refl)
      | inr c ↦ rw c (h x refl)
    ])
