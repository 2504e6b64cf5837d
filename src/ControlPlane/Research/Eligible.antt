-- ===== src/ControlPlane/Research/Eligible.antt =====
-- Which fixtures research is queued for (packages/control-plane-runtime/src/scheduler.ts).
use gana_v.Prelude.{
  ◌≡◌, refl, inl, inr, String, true, Option, none, some, List, arith, Bool-cases, first,
}
use gana_v.Prelude.Texts.{str_eq, str_eq-eq}
use gana_v.Numbers.{Numbers}
use gana_v.Policy.Coverage.{Fixture, CoverageDecision, metadata_property}
use gana_v.Policy.Scope.{evaluate_fixture_coverage_scope}
use gana_v.Policy.Eligibility.{coverage-decision}
use gana_v.ControlPlane.Research.{
  Verdict, included, skipped, is_included, OddsSelection, PlanningSnapshot, OddsClient,
  has_complete_h2h, coverage_input, scope_verdict, odds_verdict, fixture_verdict, is_researched,
  research_verdict,
}

is_included-eq : (v : Verdict) → is_included v ≡ true → v ≡ included
is_included-eq included e = refl
is_included-eq (skipped reason) e = ground arith

module _ (N : Numbers) (client : OddsClient N) (snapshot : PlanningSnapshot N) where
  -- Why a fixture is researched: it is scheduled, its latest odds are complete, and the policy lets
  -- it be scored.
  pub record IsEligible (id : String) : Type 0 where
    pub fixture : Fixture
    pub selections : List (OddsSelection N)
    pub found : first (λ candidate. str_eq candidate.id id) snapshot.fixtures ≡ some fixture
    pub odds :
        client.latest_odds fixture.id (metadata_property "providerFixtureId" fixture.metadata)
        ≡ some selections
    pub complete : has_complete_h2h N selections ≡ true
    pub scored :
        (evaluate_fixture_coverage_scope N
          (coverage_input N client snapshot fixture selections)).eligible_for_scoring
        ≡ true
    pub scheduled : fixture.status ≡ "scheduled"

  scheduled_of :
      (f : Fixture) (selections : List (OddsSelection N))
      → (evaluate_fixture_coverage_scope N
          (coverage_input N client snapshot f selections)).eligible_for_scoring
        ≡ true
      → f.status ≡ "scheduled"
  unfolding coverage_input
  scheduled_of f selections e =
      let (i, j, k, l) = coverage-decision N (coverage_input N client snapshot f selections) in
      str_eq-eq f.status "scheduled" (ground (arith, i, j))

  scope_included :
      (d : CoverageDecision N) → scope_verdict N d ≡ included → d.eligible_for_scoring ≡ true
  scope_included d e = elim (Bool-cases d.eligible_for_scoring) [
    | inl b ↦ b
    | inr b ↦ absurd (let q = rw b at e in ground arith)
  ]

  odds_verdict_complete :
      (f : Fixture) (o : Option (List (OddsSelection N)))
      → odds_verdict N client snapshot f o ≡ included
      → (selections : List (OddsSelection N)) × (o ≡ some selections)
        × (has_complete_h2h N selections ≡ true)
        × ((evaluate_fixture_coverage_scope N
              (coverage_input N client snapshot f selections)).eligible_for_scoring
            ≡ true)
  odds_verdict_complete f none e = ground arith
  odds_verdict_complete f (some selections) e = elim (Bool-cases (has_complete_h2h N selections)) [
    | inl c ↦ (
      selections,
      refl,
      c,
      scope_included
          (evaluate_fixture_coverage_scope N (coverage_input N client snapshot f selections))
          (rw c at e),
    )
    | inr c ↦ absurd (let q = rw c at e in ground arith)
  ]

  fixture_verdict-IsEligible :
      (id : String) (o : Option Fixture)
      → first (λ candidate. str_eq candidate.id id) snapshot.fixtures ≡ o
      → fixture_verdict N client snapshot o ≡ included
      → IsEligible id
  fixture_verdict-IsEligible id none found e = ground arith
  fixture_verdict-IsEligible id (some f) found e =
      let (selections, odds, complete, scored) =
        odds_verdict_complete f
          (client.latest_odds f.id (metadata_property "providerFixtureId" f.metadata)) e in
      record {
        fixture = f;
        selections = selections;
        found = found;
        odds = odds;
        complete = complete;
        scored = scored;
        scheduled = scheduled_of f selections scored;
      }

  pub researched-IsEligible :
      (id : String) → is_researched N client snapshot id ≡ true → IsEligible id
  unfolding research_verdict
  researched-IsEligible id e = fixture_verdict-IsEligible id _ refl (is_included-eq _ e)
