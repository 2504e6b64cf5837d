-- ===== src/Domain/Common.antt =====
-- What the entities share (packages/domain-core/src/common.ts). The clock, `nowIso`, is an argument
-- of the operations that read it.
use gana_v.Prelude.{arith, Bool, true, false, String, ◌≡◌, refl, ◌⊎◌, inl, inr}

-- An `ISODateString`: the entities store times and never compare them.
abbrev pub IsoDate : Type 0
IsoDate = String

pub record DomainError : Type 0 where
  pub message : String
  pub code : String

-- What an operation returns, or the error that it throws.
pub data Outcome {ℓ} (A : Type ℓ) : Type ℓ where
  done : A → Outcome A
  raised : DomainError → Outcome A

pub Outcome-cases {ℓ} :
    {A : Type ℓ} (o : Outcome A) → ((a : A) × (o ≡ done a)) ⊎ ((e : DomainError) × (o ≡ raised e))
Outcome-cases (done a) = inl (a, refl)
Outcome-cases (raised e) = inr (e, refl)

abbrev pub is_done {ℓ} : {A : Type ℓ} → Outcome A → Bool
is_done (done a) = true
is_done (raised e) = false

pub done-eq {ℓ} : {A : Type ℓ} {x y : A} → done x ≡ done y → x ≡ y
done-eq {x} {y} e = cc

-- One operation after the other, where the first returns.
infixl 20 ◌>>=◌
abbrev pub ◌>>=◌ : {A B : Type 0} → Outcome A → (A → Outcome B) → Outcome B
done a >>= f = f a
raised e >>= f = raised e

pub bind-done :
    {A B : Type 0} (o : Outcome A) (f : A → Outcome B) (b : B)
    → (o >>= f) ≡ done b
    → (a : A) × (o ≡ done a) × (f a ≡ done b)
bind-done (done a) f b e = (a, refl, e)
bind-done (raised x) f b e = absurd (ground arith)
