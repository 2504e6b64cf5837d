-- ===== src/Parlays/Settled.antt =====
-- What a parlay's legs are after the settlements, and the factor they give its stake
-- (packages/parlay-engine/src/index.ts).
use mathlib.Core.Path.{ap₂}
use gana_v.Prelude.{
  ◌≡◌, refl, ap, ◌⊎◌, String, true, false, Option, none, some, List, [], ◌∷◌, ◌++◌, any, all, map,
  or_else, Bool-cases, inl, inr, if◌then◌else◌, All,
}
use gana_v.Prelude.Texts.{str_eq}
use gana_v.Numbers.{Numbers, integer}
use gana_v.Domain.Parlay.{LegStatus, ParlayLeg}
use gana_v.Parlays.Ticket.{
  LegVerdict, leg_won, leg_lost, leg_voided, LegSettlement, is_lost, is_voided, settlement_of,
  status_for, settle_leg, multiplier_from, payout_multiplier,
}

-- The status that a verdict gives a leg.
abbrev pub given_by : LegVerdict → LegStatus
given_by leg_won = LegStatus.won
given_by leg_lost = LegStatus.lost
given_by leg_voided = LegStatus.voided

-- No settlement is of the prediction.
abbrev pub IsUnsettled : String → List LegSettlement → Type 0
IsUnsettled id settlements = All (λ s. str_eq s.prediction_id id ≡ false) settlements

-- The last settlement of the prediction has the verdict.
abbrev pub IsLastVerdict : String → List LegSettlement → LegVerdict → Type 0
IsLastVerdict id settlements verdict =
    (s : LegSettlement) × (before : List LegSettlement) × (after : List LegSettlement)
    × ((settlements ≡ before ++ s ∷ after)
        × (str_eq s.prediction_id id ≡ true)
        × IsUnsettled id after
        × (s.status ≡ verdict))

-- The status of a leg: that of the last settlement of its prediction, or pending where none is.
abbrev pub IsStatusOf : List LegSettlement → String → LegStatus → Type 0
IsStatusOf settlements id status =
    (IsUnsettled id settlements × (status ≡ LegStatus.pending))
    ⊎ ((verdict : LegVerdict) × (IsLastVerdict id settlements verdict
          × (status ≡ given_by verdict)))

-- What the map of settlements holds of a prediction.
IsFound : String → List LegSettlement → Option LegVerdict → Type 0
IsFound id settlements none = IsUnsettled id settlements
IsFound id settlements (some verdict) = IsLastVerdict id settlements verdict

settlement-IsFound :
    (id : String) (settlements : List LegSettlement)
    → IsFound id settlements (settlement_of id settlements)
unfolding settlement_of IsFound
settlement-IsFound id [] = tt
settlement-IsFound id (s ∷ ss) = earlier (settlement_of id ss) (settlement-IsFound id ss)
  where
    earlier :
        (o : Option LegVerdict)
        → IsFound id ss o
        → IsFound id
            (s ∷ ss)
            (or_else o (if str_eq s.prediction_id id then some s.status else none))
    earlier (some v) (l, before, after, (e, m, u, w)) =
        (l, s ∷ before, after, (ap (λ xs. s ∷ xs) e, m, u, w))
    earlier none u = elim (Bool-cases (str_eq s.prediction_id id)) [
      | inl t ↦
          let l : IsFound id (s ∷ ss) (some s.status) = (s, [], ss, (refl, t, u, refl)) in rw t l
      | inr t ↦ let l : IsFound id (s ∷ ss) none = (t, u) in rw t l
    ]

found-IsStatusOf :
    (id : String) (settlements : List LegSettlement) (o : Option LegVerdict)
    → IsFound id settlements o
    → IsStatusOf settlements id (status_for o)
unfolding IsFound
found-IsStatusOf id settlements none u = inl (u, refl)
found-IsStatusOf id settlements (some leg_won) l = inr (leg_won, (l, refl))
found-IsStatusOf id settlements (some leg_lost) l = inr (leg_lost, (l, refl))
found-IsStatusOf id settlements (some leg_voided) l = inr (leg_voided, (l, refl))

module _ (N : Numbers) where
  -- The legs of a parlay after the settlements: in order, each as it was but for its status.
  pub record AreSettled (settlements : List LegSettlement) (legs settled : List (ParlayLeg N))
      : Type 0 where
    pub predictions : map (λ l. l.prediction_id) settled ≡ map (λ l. l.prediction_id) legs
    pub fixtures : map (λ l. l.fixture_id) settled ≡ map (λ l. l.fixture_id) legs
    pub markets : map (λ l. l.market) settled ≡ map (λ l. l.market) legs
    pub outcomes : map (λ l. l.outcome) settled ≡ map (λ l. l.outcome) legs
    pub prices : map (λ l. l.price) settled ≡ map (λ l. l.price) legs
    pub statuses : All (λ l. IsStatusOf settlements l.prediction_id l.status) settled

  pub settle_leg-AreSettled :
      (settlements : List LegSettlement) (legs : List (ParlayLeg N))
      → AreSettled settlements legs (map (settle_leg N settlements) legs)
  unfolding settle_leg
  settle_leg-AreSettled settlements legs = record {
    predictions = each (λ l. l.prediction_id) (λ l. refl) legs;
    fixtures = each (λ l. l.fixture_id) (λ l. refl) legs;
    markets = each (λ l. l.market) (λ l. refl) legs;
    outcomes = each (λ l. l.outcome) (λ l. refl) legs;
    prices = each (λ l. l.price) (λ l. refl) legs;
    statuses = all_status legs;
  }
    where
      each :
          {B : Type 0}
          → (f : ParlayLeg N → B) → ((l : ParlayLeg N) → f (settle_leg N settlements l) ≡ f l)
          → (ls : List (ParlayLeg N)) → map f (map (settle_leg N settlements) ls) ≡ map f ls
      each f h [] = refl
      each f h (l ∷ ls) = ap₂ (λ x xs. x ∷ xs) (h l) (each f h ls)

      all_status :
          (ls : List (ParlayLeg N))
          → All
              (λ l. IsStatusOf settlements l.prediction_id l.status)
              (map (settle_leg N settlements) ls)
      all_status [] = tt
      all_status (l ∷ ls) = (
        found-IsStatusOf l.prediction_id settlements (settlement_of l.prediction_id settlements)
            (settlement-IsFound l.prediction_id settlements),
        all_status ls,
      )

  -- A product, from the left.
  abbrev pub product_from : N.Num → List N.Num → N.Num
  product_from x [] = x
  product_from x (y ∷ ys) = product_from (N.mul x y) ys

  -- The factor of a stake: 0 where a leg is lost, else the product of the prices, with 1 for a leg
  -- that is voided.
  abbrev pub factor : List (ParlayLeg N) → N.Num
  factor legs =
      if any (λ l. is_lost l.status) legs
      then integer N 0
      else if all (λ l. is_voided l.status) legs
      then integer N 1
      else product_from (integer N 1)
          (map (λ l. if is_voided l.status then integer N 1 else l.price) legs)

  pub multiplier-factor : (legs : List (ParlayLeg N)) → payout_multiplier N legs ≡ factor legs
  unfolding payout_multiplier
  multiplier-factor legs = rw (product (integer N 1) legs) refl
    where
      product :
          (x : N.Num) (ls : List (ParlayLeg N))
          → multiplier_from N x ls
            ≡ product_from x (map (λ l. if is_voided l.status then integer N 1 else l.price) ls)
      product x [] = refl
      product x (l ∷ ls) =
          product (N.mul x (if is_voided l.status then integer N 1 else l.price)) ls
