-- ===== src/ControlPlane/Dispatcher/Returned.antt =====
-- How the calls of a dispatcher cycle end (packages/control-plane-runtime/src/dispatcher.ts): a call
-- that throws ends the cycle.
use mathlib.Core.Path.{subst}
use gana_v.Prelude.{Bool, true, false, Option, none, some, ◌≡◌, refl}
use gana_v.Queue.Lifecycle.{Result, ok, err}
use gana_v.ControlPlane.Dispatcher.Manifest.{bind_result}

-- What holds of the value and the state where a call returns, and what follows where it throws.
abbrev pub Ending {ℓ} : {A S : Type 0} → Type ℓ → (A → S → Type ℓ) → Result A × S → Type ℓ
Ending E P (ok a, s) = P a s
Ending E P (err e, s) = E

module _ {ℓ} {S A B : Type 0} (E : Type ℓ) (P : A → S → Type ℓ) (Q : B → S → Type ℓ) where
  pub bind-Ending :
      (r : Result A × S) (f : A → S → Result B × S)
      → Ending E P r
      → ((a : A) (s : S) → P a s → Ending E Q (f a s))
      → Ending E Q (bind_result r f)
  bind-Ending (ok a, s) f p h = h a s p
  bind-Ending (err e, s) f p h = p

  -- The same for the loops, which look at the result first.
  pub loop-Ending :
      (x : Result A × S) (f : A → S → Result B × S)
      → Ending E P x
      → ((a : A) (s : S) → P a s → Ending E Q (f a s))
      → Ending {A = B} {S = S} E Q (elim x.0 [ err e ↦ (err e, x.1) | ok a ↦ f a x.1 ])
  loop-Ending (ok a, s) f p h = h a s p
  loop-Ending (err e, s) f p h = p

module _ {ℓ} {S A : Type 0} (E : Type ℓ) (P : A → S → Type ℓ) where
  pub choose-Ending :
      (b : Bool) (x y : Result A × S)
      → (b ≡ true → Ending E P x)
      → (b ≡ false → Ending E P y)
      → Ending {A = A} {S = S} E P (elim b [ true ↦ x | false ↦ y ])
  choose-Ending true x y f g = f refl
  choose-Ending false x y f g = g refl

  pub find-Ending :
      {X : Type 0} (o : Option X) (f : X → Result A × S) (y : Result A × S)
      → ((x : X) → Ending E P (f x))
      → Ending E P y
      → Ending {A = A} {S = S} E P (elim o [ some x ↦ f x | none ↦ y ])
  find-Ending (some x) f y h k = h x
  find-Ending none f y h k = k

-- What holds in any case.
pub always-Ending : {S A X : Type 0} (r : Result A × S) → X → Ending Unit (λ _ _. X) r
always-Ending (ok a, s) x = x
always-Ending (err e, s) x = tt

-- What holds of every value that is returned holds of this one.
pub Ending-result {ℓ} :
    {A S : Type 0} (E : Type ℓ) (P : A → Type ℓ) (r : Result A × S) (a : A)
    → r.0 ≡ ok a
    → Ending E (λ x _. P x) r
    → P a
Ending-result E P (ok x, s) a e h = let same : x ≡ a = cc in subst P same h
Ending-result E P (err x, s) a e h = cc

-- A call that cannot throw returns.
pub Ending-returns :
    {A S : Type 0} (P : A → S → Type 0) (r : Result A × S)
    → Ending ⊥ P r
    → (a : A) × (s : S) × (r ≡ (ok a, s)) × P a s
Ending-returns P (ok a, s) h = (a, s, refl, h)
Ending-returns P (err e, s) h = absurd h
