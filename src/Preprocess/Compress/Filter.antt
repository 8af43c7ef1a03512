-- ===== src/Preprocess/Compress/Filter.antt =====
-- `compress_ir`, in place, is the filter that drops the NOPs, and keeps the meaning.
use naivecc.Base.{
  ℕ, zero, suc, ◌+◌, ◌<◌, ◌≤◌, Bool, true, false, some, [], ◌∷◌, ◌++◌, ◌≡◌, refl, get_elem?, set,
  take, drop, ap, ◌∙◌, arith, length, sym, if◌then◌else◌, Bool-cases, inl, inr, Option-cases,
  length-set, get_elem?-of-lt,
}
use mathlib.Core.List.{append-nil, append_assoc}
use native.Mathlib.Numerals.{add-one}
use naivecc.Ir.{Ir, Buffer}
use naivecc.Ir.Kinds.{IrType, same_type}
use naivecc.Preprocess.{compress_loop, compress_ir}

abbrev pub is_nop : Ir → Bool
is_nop ir = same_type ir.type IrType.nop

-- The reference definition.
unfoldable pub without_nops : Buffer → Buffer
without_nops [] = []
without_nops (ir ∷ buf) = if is_nop ir then without_nops buf else ir ∷ without_nops buf

take-set :
    (buf : Buffer) (size : ℕ) (x : Ir)
    → size < length buf
    → take (suc size) (set buf size x) ≡ take size buf ++ x ∷ []
take-set [] size x h = absurd (omega arith)
take-set (y ∷ buf) zero x h = refl
take-set (y ∷ buf) (suc size) x h = ap (λ t. y ∷ t) (take-set buf size x (omega arith))

drop-set :
    (buf : Buffer) (size index : ℕ) (x : Ir)
    → size < index
    → drop index (set buf size x) ≡ drop index buf
drop-set [] size index x h = refl
drop-set (y ∷ buf) size zero x h = absurd (omega arith)
drop-set (y ∷ buf) zero (suc index) x h = refl
drop-set (y ∷ buf) (suc size) (suc index) x h = drop-set buf size index x (omega arith)

drop-at :
    (buf : Buffer) (index : ℕ) (ir : Ir)
    → get_elem? buf index ≡ some ir
    → drop index buf ≡ ir ∷ drop (suc index) buf
drop-at [] index ir h = cc
drop-at (y ∷ buf) zero ir h = ap (λ t. t ∷ buf) (ground arith)
drop-at (y ∷ buf) (suc index) ir h = drop-at buf index ir h

drop-all : (buf : Buffer) (index : ℕ) → length buf ≤ index → drop index buf ≡ []
drop-all [] zero h = refl
drop-all [] (suc index) h = refl
drop-all (y ∷ buf) zero h = absurd (omega arith)
drop-all (y ∷ buf) (suc index) h = drop-all buf index (omega arith)

without-skip :
    (buf : Buffer) (index : ℕ) (ir : Ir)
    → get_elem? buf index ≡ some ir
    → is_nop ir ≡ true
    → without_nops (drop index buf) ≡ without_nops (drop (index + 1) buf)
unfolding without_nops
without-skip buf index ir g h = rw (add-one, drop-at buf index ir g) (rw (without_nops, h))

without-keep :
    (buf : Buffer) (index : ℕ) (ir : Ir)
    → get_elem? buf index ≡ some ir
    → is_nop ir ≡ false
    → without_nops (drop index buf) ≡ ir ∷ without_nops (drop (index + 1) buf)
unfolding without_nops
without-keep buf index ir g h = rw (add-one, drop-at buf index ir g) (rw (without_nops, h))

-- The loop keeps what it has written, and appends the rest without its NOPs.
compress_loop-eq :
    (n index size : ℕ) (buf : Buffer)
    → n + index ≡ length buf
    → size ≤ index
    → take (compress_loop n index size buf).0 (compress_loop n index size buf).1
      ≡ take size buf ++ without_nops (drop index buf)
unfolding compress_loop without_nops
compress_loop-eq zero index size buf e l =
    rw (drop-all buf index (omega arith)) (sym (append-nil (take size buf)))
compress_loop-eq (suc n) index size buf e l = elim (Option-cases (get_elem? buf index)) [
  | inl (ir, g) ↦ elim (Bool-cases (is_nop ir)) [
    | inl h ↦
        rw (compress_loop, g, h)
          (compress_loop-eq n (index + 1) size buf (omega arith) (omega arith)
            ∙ ap (λ t. take size buf ++ t) (sym (without-skip buf index ir g h)))
    | inr h ↦
        rw (compress_loop, g, h)
          (compress_loop-eq n (index + 1) (size + 1) (set buf size ir)
              (omega (arith, length-set buf size ir)) (omega arith)
            ∙ kept ir g h)
  ]
  | inr g ↦ absurd (ground (arith, get_elem?-of-lt buf index (omega arith)))
]
  where
    kept :
        (ir : Ir)
        → get_elem? buf index ≡ some ir
        → is_nop ir ≡ false
        → take (size + 1) (set buf size ir) ++ without_nops (drop (index + 1) (set buf size ir))
          ≡ take size buf ++ without_nops (drop index buf)
    kept ir g h =
        rw
          (
            add-one,
            take-set buf size ir (omega arith),
            drop-set buf size (index + 1) ir (omega arith),
            append_assoc,
          )
          (ap (λ t. take size buf ++ t) (sym (without-keep buf index ir g h)))

-- The first `size` instructions that `compress_ir` leaves are those of the buffer that are no NOPs, in
-- their order.
pub compress_ir-eq :
    (buf : Buffer) → take (compress_ir buf).0 (compress_ir buf).1 ≡ without_nops buf
unfolding compress_ir
compress_ir-eq buf = compress_loop-eq (length buf) 0 0 buf (omega arith) (omega arith)
