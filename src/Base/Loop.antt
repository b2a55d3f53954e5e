-- ===== src/Base/Loop.antt =====
-- A `while` or `loop` of the source: a body that goes on or stops, run on fuel, and the run itself as a
-- relation that knows no fuel.
use Prim.Native.Nat.{ℕ, zero, suc, ◌<◌}
use mathlib.Core.Path.{◌≡◌, refl, sym, ap, subst, ◌∙◌}
use mathlib.Core.Logic.{◌⊎◌, ◌≢◌, inl, inr}
use native.Mathlib.Omega.{arith}

pub data Step {ℓ} (S R : Type ℓ) : Type ℓ where
  go : S → Step S R
  stop : R → Step S R

-- `out` is what is left when the fuel runs out, which the source never returns.
unfoldable pub loop {ℓ} : {S R : Type ℓ} → ℕ → (S → Step S R) → R → S → R
loop zero body out s = out
loop (suc fuel) body out s = elim (body s) [ stop r ↦ r | go t ↦ loop fuel body out t ]

-- From the state `s` the body runs until it stops with `r`.
pub data Ends {ℓ} {S R : Type ℓ} (body : S → Step S R) : S → R → Type ℓ where
  stops : {s : S} {r : R} → body s ≡ stop r → Ends body s r
  goes : {s t : S} {r : R} → body s ≡ go t → Ends body t r → Ends body s r

Step-cases {ℓ} : {S R : Type ℓ} (x : Step S R) → ((r : R) × (x ≡ stop r)) ⊎ ((t : S) × (x ≡ go t))
Step-cases (go t) = inr (t, refl)
Step-cases (stop r) = inl (r, refl)

abbrev pub stopped {ℓ} : {S R : Type ℓ} → R → Step S R → R
stopped r (go t) = r
stopped r (stop r') = r'

abbrev pub gone {ℓ} : {S R : Type ℓ} → S → Step S R → S
gone s (go t) = t
gone s (stop r) = s

pub go≢stop {ℓ} : {S R : Type ℓ} (t : S) (r : R) → go t ≢ stop r
go≢stop t r e = ground arith

module _ {ℓ} {S R : Type ℓ} (body : S → Step S R) where
  -- A measure that falls in each turn bounds the fuel that is enough.
  pub loop-Ends :
      (P : S → Type ℓ) (measure : S → ℕ)
      → ((s t : S) → P s → body s ≡ go t → P t × (measure t < measure s))
      → (fuel : ℕ) (out : R) (s : S) → P s
      → measure s < fuel
      → Ends body s (loop fuel body out s)
  unfolding loop
  loop-Ends P measure falls zero out s p h = absurd (omega arith)
  loop-Ends P measure falls (suc fuel) out s p h = elim (Step-cases (body s)) [
    | inl (r, e) ↦ rw (e, loop) (stops e)
    | inr (t, e) ↦
        rw (e, loop)
          (goes e (
            loop-Ends P measure falls fuel out t (falls s t p e).0
              (omega (arith, h, (falls s t p e).1))))
  ]

  -- What each turn keeps holds where the run stops.
  pub Ends-inv {κ} :
      (P : S → Type κ)
      → ((s t : S) → P s → body s ≡ go t → P t)
      → {s : S} {r : R} → Ends body s r
      → P s
      → (t : S) × P t × (body t ≡ stop r)
  Ends-inv P keeps {s} (stops e) p = (s, p, e)
  Ends-inv P keeps {s} (goes {t} e rest) p = Ends-inv P keeps rest (keeps s t p e)

  -- The run has one end.
  pub Ends-unique : {s : S} {r r' : R} → Ends body s r → Ends body s r' → r ≡ r'
  Ends-unique (stops {r = r} e) (stops e') = ap (stopped r) (sym e ∙ e')
  Ends-unique (stops {r = r} e) (goes {t = t} e' rest) = absurd (go≢stop t r (sym e' ∙ e))
  Ends-unique (goes {t = t} e rest) (stops {r = r} e') = absurd (go≢stop t r (sym e ∙ e'))
  Ends-unique {r' = r'} (goes {t = t} e rest) (goes e' rest') =
      Ends-unique rest (subst (λ x. Ends body x r') (ap (gone t) (sym e' ∙ e)) rest')
