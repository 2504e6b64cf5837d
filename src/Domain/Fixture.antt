-- ===== src/Domain/Fixture.antt =====
-- Fixtures and the transitions of their status (packages/domain-core/src/entities/fixture.ts). The
-- argument of the creation differs from the entity in its times, which may be missing.
use gana_v.Prelude.{
  ℕ, String, Option, List, [], ◌∷◌, Bool, true, false, not, if◌then◌else◌, get_or, or_else, any,
}
use gana_v.Prelude.Texts.{join}
use gana_v.Domain.Common.{IsoDate, Outcome, done, raised}

pub data FixtureStatus : Type 0 where
  scheduled live completed cancelled : FixtureStatus

pub record FixtureScore : Type 0 where
  pub home : ℕ
  pub away : ℕ

pub record Fixture (Stamp : Type 0) : Type 0 where
  pub id : String
  pub sport : String
  pub competition : String
  pub home_team : String
  pub away_team : String
  pub scheduled_at : IsoDate
  pub status : FixtureStatus
  pub score : Option FixtureScore
  pub metadata : List (String × String)
  pub created_at : Stamp
  pub updated_at : Stamp

abbrev pub same_fixture_status : FixtureStatus → FixtureStatus → Bool
same_fixture_status scheduled scheduled = true
same_fixture_status live live = true
same_fixture_status completed completed = true
same_fixture_status cancelled cancelled = true
same_fixture_status _ _ = false

abbrev pub status_text : FixtureStatus → String
status_text scheduled = "scheduled"
status_text live = "live"
status_text completed = "completed"
status_text cancelled = "cancelled"

unfoldable pub valid_transitions : FixtureStatus → List FixtureStatus
valid_transitions scheduled = live ∷ completed ∷ cancelled ∷ []
valid_transitions live = completed ∷ cancelled ∷ []
valid_transitions completed = []
valid_transitions cancelled = []

unfoldable pub create_fixture : Fixture (Option IsoDate) → IsoDate → Fixture IsoDate
create_fixture input now =
    let timestamp = get_or input.created_at now in
    record {
      id = input.id;
      sport = input.sport;
      competition = input.competition;
      home_team = input.home_team;
      away_team = input.away_team;
      scheduled_at = input.scheduled_at;
      status = input.status;
      score = input.score;
      metadata = input.metadata;
      created_at = timestamp;
      updated_at = get_or input.updated_at timestamp;
    }

unfoldable pub transition_fixture_status :
    Fixture IsoDate → FixtureStatus → Option FixtureScore → IsoDate → Outcome (Fixture IsoDate)
transition_fixture_status fixture next_status score now =
    if not (any (λ s. same_fixture_status s next_status) (valid_transitions fixture.status))
    then raised (record {
      message = join (
          "Cannot transition fixture "
          ∷ fixture.id
          ∷ " from "
          ∷ status_text fixture.status
          ∷ " to "
          ∷ status_text next_status
          ∷ []);
      code = "FIXTURE_INVALID_TRANSITION";
    })
    else done (record fixture {
      status = next_status;
      score = or_else score fixture.score;
      updated_at = now;
    })
