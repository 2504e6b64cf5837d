-- ===== src/Parlays/Verdicts.antt =====
-- What the settlement of a ticket comes to (packages/parlay-engine/src/index.ts).
use mathlib.Core.Path.{subst, subst⁻¹, ap₂}
use gana_v.Prelude.{
  ◌≡◌, refl, sym, ap, ◌∙◌, Bool, true, false, not, ◌&&◌, ◌||◌, Option, List, [], ◌∷◌, arith, any,
  all, map, get_or, Bool-cases, inl, inr, if◌then◌else◌,
}
use gana_v.Numbers.{Numbers, integer}
use gana_v.Domain.Common.{IsoDate, done, is_done, bind-done, done-eq}
use gana_v.Domain.Parlay.{
  ParlayStatus, ParlaySettlement, as_settled, as_voided, parlay_settlement_status, ParlayLeg,
  Parlay, can_settle, settle_parlay,
}
use gana_v.Parlays.Settled.{AreSettled, settle_leg-AreSettled, factor, multiplier-factor}
use gana_v.Parlays.Ticket.{
  LegSettlement, TicketVerdict, ticket_lost, ticket_voided, is_pending_leg, is_lost, is_voided,
  settle_leg, SettledTicket, final_ticket, pending_ticket, payout_multiplier, ticket_verdict,
  settle_legs, settle_parlay_ticket,
}

abbrev pub is_lost_ticket : TicketVerdict → Bool
is_lost_ticket ticket_lost = true
is_lost_ticket _ = false

abbrev pub is_voided_ticket : TicketVerdict → Bool
is_voided_ticket ticket_voided = true
is_voided_ticket _ = false

module _ (N : Numbers) where
  abbrev pub some_pending : List (ParlayLeg N) → Bool
  some_pending legs = any (λ leg. is_pending_leg leg.status) legs

  abbrev pub some_lost : List (ParlayLeg N) → Bool
  some_lost legs = any (λ leg. is_lost leg.status) legs

  abbrev pub all_voided : List (ParlayLeg N) → Bool
  all_voided legs = all (λ leg. is_voided leg.status) legs

  voided_excludes :
      (legs : List (ParlayLeg N))
      → ((all_voided legs && some_pending legs) ≡ false)
        × ((all_voided legs && some_lost legs) ≡ false)
  voided_excludes [] = (refl, refl)
  voided_excludes (leg ∷ legs) = let (a, b) = voided_excludes legs in (ground arith, ground arith)

  -- What a settled ticket says of its legs.
  pub record IsAccount (parlay : Parlay N IsoDate) (t : SettledTicket N) : Type 0 where
    pub legs : t.parlay.legs ≡ t.legs
    pub final : t.finalized ≡ not (some_pending t.legs)
    pub lost : is_lost_ticket t.verdict ≡ (some_lost t.legs && not (some_pending t.legs))
    pub voided : is_voided_ticket t.verdict ≡ all_voided t.legs
    pub payout :
        (t.actual_payout
          ≡ (if t.finalized then N.mul parlay.stake (factor N t.legs) else integer N 0))
    pub profit :
        (t.profit ≡ (if t.finalized then N.sub t.actual_payout parlay.stake else integer N 0))
    pub status :
        (t.parlay.status ≡ (
          if t.finalized
          then if all_voided t.legs then ParlayStatus.voided else ParlayStatus.settled
          else parlay.status))

  pending-IsAccount :
      (parlay : Parlay N IsoDate) (legs : List (ParlayLeg N))
      → some_pending legs ≡ true
      → IsAccount parlay (pending_ticket N legs parlay)
  pending-IsAccount parlay legs p =
      let (a, b) = voided_excludes legs in
      record {
        legs = refl;
        final = ground arith;
        lost = ground arith;
        voided = ground arith;
        payout = refl;
        profit = refl;
        status = refl;
      }

  settled-fields :
      (parlay q : Parlay N IsoDate) (legs : List (ParlayLeg N)) (s : ParlaySettlement)
      (at : IsoDate)
      → settle_parlay N parlay legs s at ≡ done q
      → (q.legs ≡ legs) × (q.stake ≡ parlay.stake) × (q.status ≡ parlay_settlement_status s)
  unfolding settle_parlay
  settled-fields parlay q legs s at e = elim (Bool-cases (can_settle parlay.status)) [
    | inl t ↦
        let p = done-eq {y = q} (rw t at e) in
        (sym (ap (λ x. x.legs) p), sym (ap (λ x. x.stake) p), sym (ap (λ x. x.status) p))
    | inr t ↦ absurd (let f = rw t at e in ground arith)
  ]

  final-IsAccount :
      (parlay q : Parlay N IsoDate) (legs : List (ParlayLeg N))
      → some_pending legs ≡ false
      → q.legs ≡ legs
      → q.stake ≡ parlay.stake
      → q.status ≡ (if all_voided legs then ParlayStatus.voided else ParlayStatus.settled)
      → IsAccount parlay (final_ticket N legs q)
  unfolding ticket_verdict
  final-IsAccount parlay q legs p l k s =
      let (a, b) = voided_excludes legs in
      record {
        legs = l;
        final = ground arith;
        lost = ground arith;
        voided = ground arith;
        payout = ap₂ N.mul k (multiplier-factor N legs);
        profit = ap (λ x. N.sub (N.mul q.stake (payout_multiplier N legs)) x) k;
        status = s;
      }

  settle_legs-IsAccount :
      (parlay : Parlay N IsoDate) (legs : List (ParlayLeg N)) (at : IsoDate) (t : SettledTicket N)
      → settle_legs N parlay legs at ≡ done t
      → (t.legs ≡ legs) × IsAccount parlay t
  unfolding settle_legs
  settle_legs-IsAccount parlay legs at t e = elim (Bool-cases (some_pending legs)) [
    | inl p ↦
        subst (λ x. (x.legs ≡ legs) × IsAccount parlay x) (done-eq {y = t} (rw p at e))
          (refl, pending-IsAccount parlay legs p)
    | inr p ↦
        let (q, r, w) = bind-done _ _ t (rw p at e) in
        let (l, k, s) = settled-fields parlay q legs _ at r in
        subst (λ x. (x.legs ≡ legs) × IsAccount parlay x) (done-eq w)
          (refl, final-IsAccount parlay q legs p l k (s ∙ voided_status (all_voided legs)))
  ]
    where
      voided_status :
          (b : Bool)
          → parlay_settlement_status (if b then as_voided else as_settled)
            ≡ (if b then ParlayStatus.voided else ParlayStatus.settled)
      voided_status true = refl
      voided_status false = refl

  -- A ticket that was settled has the parlay's legs, in order, each with its prediction, fixture,
  -- market, outcome and price, and with the status that the last settlement of its prediction
  -- gives, or "pending" where no settlement is of its prediction. It is final exactly where no leg is pending; it is lost
  -- exactly where it is final and some leg is lost, and voided exactly where every leg is voided.
  -- A final ticket pays nothing (the stake times 0) where a leg is lost, the stake times 1 where
  -- every leg is voided, and else the stake times the product of the prices, with 1 for a voided
  -- leg; its profit is that less the stake, and its parlay is settled, or voided with the ticket; a ticket that is not final
  -- pays nothing and leaves the parlay's status.
  pub ticket-IsAccount :
      (parlay : Parlay N IsoDate) (settlements : List LegSettlement) (at : Option IsoDate)
      (now : IsoDate) (t : SettledTicket N)
      → settle_parlay_ticket N parlay settlements at now ≡ done t
      → AreSettled N settlements parlay.legs t.legs × IsAccount parlay t
  unfolding settle_parlay_ticket
  ticket-IsAccount parlay settlements at now t e =
      let (l, a) =
        settle_legs-IsAccount parlay (map (settle_leg N settlements) parlay.legs) (get_or at now) t
          e in
      (
        subst⁻¹ (λ ls. AreSettled N settlements parlay.legs ls) l
            (settle_leg-AreSettled N settlements parlay.legs),
        a,
      )

  -- The settlement of a ticket throws exactly where no leg is pending and the parlay is neither ready
  -- nor submitted.
  pub ticket-throws :
      (parlay : Parlay N IsoDate) (settlements : List LegSettlement) (at : Option IsoDate)
      (now : IsoDate)
      → is_done (settle_parlay_ticket N parlay settlements at now)
        ≡ (some_pending (map (settle_leg N settlements) parlay.legs) || can_settle parlay.status)
  unfolding settle_parlay_ticket settle_legs settle_parlay
  ticket-throws parlay settlements at now = ground arith
