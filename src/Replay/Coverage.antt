-- ===== src/Replay/Coverage.antt =====
-- What the three checks of a replay count (packages/validation-engine/src/index.ts).
use mathlib.Core.Path.{subst}
use gana_v.Prelude.{
  ◌≤◌, ◌≡◌, refl, sym, ap, String, Bool, true, false, not, ◌||◌, Option, none, some, List, [], ◌∷◌,
  arith, any, all, length, keep, ltb, ◌==◌, if◌then◌else◌, or_else,
}
use gana_v.Prelude.Texts.{str_eq, join}
use gana_v.Numbers.{Numbers}
use gana_v.Domain.Common.{IsoDate, done, bind-done, done-eq}
use gana_v.Domain.Parlay.{Parlay}
use gana_v.Parlays.Selection.{market_text}
use gana_v.Parlays.Ticket.{SettledTicket, settle_parlay_ticket}
use gana_v.Replay.Atomic.{MarketOutcome, Logarithms, AtomicTicket, SettledAtomic}
use gana_v.Replay.Run.{outcome_key, outcome_for, missing, leg_settlements, settle_parlays}

module _ {A : Type 0} (p : A → Bool) where
  length-keep : (xs : List A) → length (keep p xs) ≤ length xs
  length-keep [] = ground arith
  length-keep (x ∷ xs) = ground (arith, length-keep xs)

  -- All are kept exactly where all pass the test.
  pub all_kept : (xs : List A) → (length (keep p xs) == length xs) ≡ all p xs
  all_kept [] = ground arith
  all_kept (x ∷ xs) = ground (arith, all_kept xs, length-keep xs)

  -- Something is kept exactly where something passes the test.
  pub some_kept : (xs : List A) → ltb 0 (length (keep p xs)) ≡ any p xs
  some_kept [] = ground arith
  some_kept (x ∷ xs) = ground (arith, some_kept xs)

abbrev is_none : Option MarketOutcome → Bool
is_none none = true
is_none (some o) = false

missing-none :
    (key : String) (os : List MarketOutcome)
    → is_none (outcome_for key os)
      ≡ not (any (λ o. str_eq (outcome_key o.fixture_id o.market) key) os)
unfolding outcome_for
missing-none key [] = refl
missing-none key (o ∷ os) =
    either (outcome_for key os) (any (λ x. str_eq (outcome_key x.fixture_id x.market) key) os)
      (str_eq (outcome_key o.fixture_id o.market) key) (missing-none key os)
  where
    either :
        (found : Option MarketOutcome) (later here : Bool)
        → is_none found ≡ not later
        → is_none (or_else found (if here then some o else none)) ≡ not (here || later)
    either (some x) later here e = ground arith
    either none later true e = refl
    either none later false e = ground arith

module _ (N : Numbers) (L : Logarithms N) where
  -- Some outcome has the fixture and the market of the ticket, as texts with ":" between.
  abbrev pub has_outcome : List MarketOutcome → AtomicTicket N → Bool
  has_outcome outcomes t =
      any
        (λ o.
          str_eq (join (o.fixture_id ∷ ":" ∷ market_text o.market ∷ []))
            (join (t.prediction.fixture_id ∷ ":" ∷ market_text t.prediction.market ∷ [])))
        outcomes

  pub none_missing :
      (outcomes : List MarketOutcome) (ts : List (AtomicTicket N))
      → (missing N L outcomes ts == 0) ≡ all (has_outcome outcomes) ts
  none_missing outcomes [] = ground arith
  none_missing outcomes (t ∷ ts) = ground (
    arith,
    none_missing outcomes ts,
    missing-none (outcome_key t.prediction.fixture_id t.prediction.market) outcomes,
  )

  pub length-settle_parlays :
      (atomics : List (SettledAtomic N)) (ps : List (Parlay N IsoDate)) (at : Option IsoDate)
      (now : IsoDate) (settled : List (SettledTicket N))
      → settle_parlays N L atomics ps at now ≡ done settled
      → length settled ≡ length ps
  unfolding settle_parlays
  length-settle_parlays atomics [] at now settled e = sym (ap length (done-eq e))
  length-settle_parlays atomics (p ∷ ps) at now settled e =
      let (t, q, f) =
        bind-done (settle_parlay_ticket N p (leg_settlements N L atomics p.legs) at now) _ settled
          e in
      let (rest, r, s) = bind-done (settle_parlays N L atomics ps at now) _ settled f in
      let l = length-settle_parlays atomics ps at now rest r in
      subst (λ x. length x ≡ length (p ∷ ps)) (done-eq s) (omega (arith, l))
