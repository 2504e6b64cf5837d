-- ===== src/Parlays/Selection.antt =====
-- The loop of `buildParlayFromCandidates` that selects the legs
-- (packages/parlay-engine/src/index.ts). A set of texts is the list of its members.
use gana_v.Prelude.{ℕ, String, Bool, List, [], ◌∷◌, ◌++◌, if◌then◌else◌, length, leb, any}
use gana_v.Prelude.Texts.{str_eq, join}
use gana_v.Numbers.{Numbers}
use gana_v.Domain.Prediction.{
  PredictionMarket, moneyline, totals, spread, both_teams_score, double_chance, corners_total,
  corners_h2h, PredictionOutcome, home, away, draw, over, under, yes, no, home_draw, home_away,
  draw_away,
}
use gana_v.Parlays.Candidate.{Candidate, Rank}

abbrev pub market_text : PredictionMarket → String
market_text moneyline = "moneyline"
market_text totals = "totals"
market_text spread = "spread"
market_text both_teams_score = "both-teams-score"
market_text double_chance = "double-chance"
market_text corners_total = "corners-total"
market_text corners_h2h = "corners-h2h"

abbrev pub outcome_text : PredictionOutcome → String
outcome_text home = "home"
outcome_text away = "away"
outcome_text draw = "draw"
outcome_text over = "over"
outcome_text under = "under"
outcome_text yes = "yes"
outcome_text no = "no"
outcome_text home_draw = "home-draw"
outcome_text home_away = "home-away"
outcome_text draw_away = "draw-away"

pub data RejectionReason : Type 0 where
  duplicate_prediction duplicate_selection leg_limit invalid_candidate : RejectionReason

module _ (N : Numbers) where
  pub record Rejection : Type 0 where
    pub candidate : Candidate N
    pub reason : RejectionReason

  -- The four collections of the loop.
  pub record Selecting : Type 0 where
    pub selected : List (Candidate N)
    pub rejected : List Rejection
    pub prediction_ids : List String
    pub selection_keys : List String

  abbrev pub selection_key : Candidate N → String
  selection_key c =
      join (c.fixture_id ∷ ":" ∷ market_text c.market ∷ ":" ∷ outcome_text c.outcome ∷ [])

  abbrev pub has : List String → String → Bool
  has texts t = any (λ x. str_eq x t) texts

  abbrev pub reject : RejectionReason → Candidate N → Selecting → Selecting
  reject reason c s = record s {
    rejected = s.rejected ++ record { candidate = c; reason = reason } ∷ [];
  }

  abbrev pub select : Candidate N → Selecting → Selecting
  select c s = record {
    selected = s.selected ++ c ∷ [];
    rejected = s.rejected;
    prediction_ids = s.prediction_ids ++ c.prediction_id ∷ [];
    selection_keys = s.selection_keys ++ selection_key c ∷ [];
  }

  -- One round of the loop.
  unfoldable pub consider : ℕ → Candidate N → Selecting → Selecting
  consider max_legs c s =
      if leb max_legs (length s.selected)
      then reject leg_limit c s
      else if has s.prediction_ids c.prediction_id
      then reject duplicate_prediction c s
      else if has s.selection_keys (selection_key c)
      then reject duplicate_selection c s
      else select c s

  unfoldable pub consider_all : ℕ → List (Rank N) → Selecting → Selecting
  consider_all max_legs [] s = s
  consider_all max_legs (r ∷ rs) s = consider_all max_legs rs (consider max_legs r.candidate s)

  abbrev pub nothing_selected : Selecting
  nothing_selected = record {
    selected = [];
    rejected = [];
    prediction_ids = [];
    selection_keys = [];
  }
