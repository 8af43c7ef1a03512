-- ===== src/Machine/Run.antt =====
-- Simulations between buffers.
use naivecc.Base.{ℕ, zero, suc, ◌+◌, true, some, ◌≡◌, refl, get_elem?, ◌∙◌, sym}
use naivecc.Ir.{Buffer}
use naivecc.Operand.{Operand}
use naivecc.Machine.Labels.{labels?}
use naivecc.Machine.Cases.{Goes, on, to, halts, blocked, step-Goes}
use naivecc.Machine.{Machine, Next, more, halted, stuck, Outcome, step, run, Halts}

-- Some label stands at the index.
abbrev pub Labelled : Buffer → ℕ → Type 0
Labelled buf j = (p : Operand) × (labels? p (get_elem? buf j) ≡ true)

module _ (m : Machine) where
  -- One more step in front of a halting run.
  pub Halts-step :
      (buf : Buffer) (pc pc' : ℕ) (s s' : m.State) {o : Outcome m}
      → step m buf pc s ≡ more pc' s'
      → Halts m buf pc' s' o
      → Halts m buf pc s o
  unfolding run
  Halts-step buf pc pc' s s' e (n, h) = (suc n, rw (run, e) h)

  pub Halts-halted :
      (buf : Buffer) (pc : ℕ) (s : m.State) {o : Outcome m}
      → step m buf pc s ≡ halted o
      → Halts m buf pc s o
  unfolding run
  Halts-halted buf pc s e = (1, rw (run, e))

  Halts-stops :
      (xs ys : Buffer) (pc : ℕ) (s : m.State) (n : ℕ) {o' o : Outcome m}
      → step m xs pc s ≡ halted o'
      → step m ys pc s ≡ halted o'
      → run m xs (suc n) pc s ≡ some o
      → Halts m ys pc s o
  unfolding run
  Halts-stops xs ys pc s n {o' = o'} {o = o} e e' h =
      let same : some o' ≡ some o = rw (run, e) at h in Halts-halted ys pc s (cc)

  -- What `xs` does from `pc`, up to a point where `ys` has caught up: every outcome that `ys`
  -- reaches from there it reaches from `pc` too.
  pub data Match (Good : ℕ → Type 0) (xs ys : Buffer) (pc : ℕ) (s : m.State) : Type 0 where
    stops :
        {o : Outcome m}
        → step m xs pc s ≡ halted o
        → step m ys pc s ≡ halted o
        → Match Good xs ys pc s
    blocks : step m xs pc s ≡ stuck → Match Good xs ys pc s
    one :
        (pc1 : ℕ) (s1 : m.State)
        → step m xs pc s ≡ more pc1 s1
        → Good pc1
        → ((o : Outcome m) → Halts m ys pc1 s1 o → Halts m ys pc s o)
        → Match Good xs ys pc s
    two :
        (pc1 : ℕ) (s1 : m.State) (pc2 : ℕ) (s2 : m.State)
        → step m xs pc s ≡ more pc1 s1
        → step m xs pc1 s1 ≡ more pc2 s2
        → Good pc2
        → ((o : Outcome m) → Halts m ys pc2 s2 o → Halts m ys pc s o)
        → Match Good xs ys pc s
    blocks_next :
        (pc1 : ℕ) (s1 : m.State)
        → step m xs pc s ≡ more pc1 s1
        → step m xs pc1 s1 ≡ stuck
        → Match Good xs ys pc s

  module _ (Good : ℕ → Type 0) (xs ys : Buffer)
      (matches : (pc : ℕ) (s : m.State) → Good pc → Match Good xs ys pc s) where
    pub simulate :
        (n pc : ℕ) (s : m.State) {o : Outcome m}
        → Good pc
        → run m xs n pc s ≡ some o
        → Halts m ys pc s o
    unfolding run
    simulate zero pc s g h = cc
    simulate (suc zero) pc s {o} g h = elim (matches pc s g) [
      | stops e e' ↦ Halts-stops xs ys pc s 0 e e' h
      | blocks e ↦ cc (rw (run, e) at h)
      | one pc1 s1 e g1 back ↦ cc (rw (run, e) at h)
      | two pc1 s1 pc2 s2 e e' g2 back ↦ cc (rw (run, e) at h)
      | blocks_next pc1 s1 e e' ↦ cc (rw (run, e) at h)
    ]
    simulate (suc (suc n)) pc s {o} g h = elim (matches pc s g) [
      | stops e e' ↦ Halts-stops xs ys pc s (suc n) e e' h
      | blocks e ↦ cc (rw (run, e) at h)
      | one pc1 s1 e g1 back ↦ back o (simulate (suc n) pc1 s1 g1 (rw (run, e) at h))
      | two pc1 s1 pc2 s2 e e' g2 back ↦
          back o (simulate n pc2 s2 g2 (rw (run, e') at (rw (run, e) at h)))
      | blocks_next pc1 s1 e e' ↦ cc (rw (run, e') at (rw (run, e) at h))
    ]

  -- Where both buffers make one step, and it leads to a good index, they match.
  pub Match-same :
      (Good : ℕ → Type 0) (xs ys : Buffer) (pc : ℕ) (s : m.State)
      → step m xs pc s ≡ step m ys pc s
      → ((j : ℕ) → Labelled xs j → Good j)
      → Good (pc + 1)
      → Match Good xs ys pc s
  Match-same Good xs ys pc s e labelled next = go (step m xs pc s) refl (step-Goes m xs pc s)
    where
      go : (t : Next m) → step m xs pc s ≡ t → Goes m xs pc t → Match Good xs ys pc s
      go t q (on {s = s'}) =
          one (pc + 1) s' q next (λ o. Halts-step ys pc (pc + 1) s s' (sym e ∙ q))
      go t q (to {j} {s = s'} p h) =
          one j s' q (labelled j (p, h)) (λ o. Halts-step ys pc j s s' (sym e ∙ q))
      go t q (halts {o}) = stops q (sym e ∙ q)
      go t q blocked = blocks q
