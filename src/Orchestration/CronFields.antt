-- ===== src/Orchestration/CronFields.antt =====
-- The values of a cron field (packages/orchestration-sdk/src/index.ts).
use gana_v.Prelude.{
  ℕ, zero, suc, ◌+◌, ◌-◌, ◌*◌, ◌≤◌, ◌<◌, ◌≡◌, refl, ◌↔◌, ◌∙◌, sym, ap, Bool, true, none, some, List,
  [], ◌∷◌, arith, leb, ◌==◌, Bool-cases, inl, inr,
}
use gana_v.Orchestration.Cron.{
  every, step_values, rounds, as_field, allows, parse_cron_field, includes, match_field,
}

-- `v` is reached from `current` in steps, and is not above the limit.
abbrev pub IsReached : ℕ → ℕ → ℕ → ℕ → Type 0
IsReached current limit step v = (k : ℕ) × (v ≡ current + k * step) × (v ≤ limit)

further : (current k step : ℕ) → current + step + k * step ≡ current + suc k * step
further current k step = omega arith

IsReached-first :
    (current limit step v : ℕ) (values : List ℕ)
    → leb current limit ≡ true
    → (includes v values ≡ true) ↔ IsReached (current + step) limit step v
    → (includes v (current ∷ values) ≡ true) ↔ IsReached current limit step v
IsReached-first current limit step v values t (f, b) = (
  (λ q. elim (Bool-cases (current == v)) [
    | inl e ↦ (0, ground arith, ground arith)
    | inr e ↦ let (k, r, l) = f (ground arith) in (suc k, r ∙ further current k step, l)
  ]),
  (λ (k, r, l). back k r l),
)
  where
    back : (k : ℕ) → v ≡ current + k * step → v ≤ limit → includes v (current ∷ values) ≡ true
    back zero r l = ground arith
    back (suc k) r l = let i = b (k, r ∙ sym (further current k step), l) in ground arith

step_values-values :
    (fuel current limit step : ℕ)
    → 1 ≤ step
    → suc limit - current < fuel
    → (values : List ℕ) × (step_values fuel current limit step ≡ some values)
      × ((v : ℕ) → (includes v values ≡ true) ↔ IsReached current limit step v)
unfolding step_values
step_values-values zero current limit step p f = absurd (omega arith)
step_values-values (suc fuel) current limit step p f = elim (Bool-cases (leb current limit)) [
  | inl t ↦
      let (values, e, h) = step_values-values fuel (current + step) limit step p (ground arith) in
      (current ∷ values, rw (t, e) refl, λ v. IsReached-first current limit step v values t (h v))
  | inr t ↦ ([], rw t refl, λ v. ((λ q. ground arith), (λ (k, q, l). ground arith)))
]

-- The field "*/n" with a step of at least 1: the loop over its values ends, and a value matches
-- exactly where it is the least value and some steps more, and not above the greatest.
pub every-steps :
    (step least limit v : ℕ)
    → 1 ≤ step
    → (b : Bool) × (match_field (every step) v least limit ≡ some b)
      × ((b ≡ true) ↔ IsReached least limit step v)
unfolding match_field parse_cron_field
every-steps step least limit v p =
    let (values, e, h) = step_values-values (rounds least limit) least limit step p (omega arith) in
    (includes v values, ap (λ o. allows (as_field o) v) e, h v)

endless : (fuel least limit : ℕ) → least ≤ limit → step_values fuel least limit 0 ≡ none
unfolding step_values
endless zero least limit h = refl
endless (suc fuel) least limit h =
    let n : least + 0 ≡ least = omega arith in
    let r = endless fuel least limit h in rw (n, r) (ground arith)

-- The field "*/0" never ends: for every number of rounds the loop over its values is still running.
pub every_zero_endless :
    (fuel least limit v : ℕ)
    → least ≤ limit
    → (step_values fuel least limit 0 ≡ none) × (match_field (every 0) v least limit ≡ none)
unfolding match_field parse_cron_field
every_zero_endless fuel least limit v h = (
  endless fuel least limit h,
  ap (λ o. allows (as_field o) v) (endless (rounds least limit) least limit h),
)
