-- ===== src/Orchestration/Order.antt =====
-- What the queue of the control plane hands out (packages/orchestration-sdk/src/index.ts).
use mathlib.Core.Path.{subst⁻¹}
use gana_v.Prelude.{
  ap, ◌%◌, ◌<◌, ◌≡◌, refl, ◌⊎◌, inl, inr, Bool, true, false, Option, none, some, arith, All, leb,
  ltb, ◌==◌, Option-cases, if◌then◌else◌,
}
use gana_v.Prelude.Texts.{str_eq_refl}
use gana_v.Prelude.Sort.{IsOrder}
use gana_v.Prelude.Choose.{IsFirst, chosen-IsFirst, chosen-none, All-chosen}
use gana_v.Storage.{get_by_id}
use gana_v.Storage.Laws.{Distinct, Distinct-IsListed, get_by_id-save, get_by_id-delete, IsListed}
use gana_v.Queue.Task.{Time}
use gana_v.Orchestration.Envelope.{Envelope}
use gana_v.Orchestration.Dispatch.{
  Reservation, DispatchQueue, envelope_key, reservation_key, scored_before, next_envelope, reserve,
  dequeue,
}

scored_before-IsOrder : IsOrder scored_before
unfolding scored_before
scored_before-IsOrder = record { asym = λ x y h. ground arith; trans = λ x y z h k. ground arith }

abbrev pub is_due : Time → Envelope → Bool
is_due now item = leb item.scheduled_for now

-- What a reservation of `now` says of the queue before and after it.
pub record Takes (now : Time) (q : DispatchQueue) (r : Reservation) (after : DispatchQueue)
    : Type 0 where
  pub due : is_due now r.envelope ≡ true
  pub first : IsFirst scored_before (is_due now) q.queued r.envelope
  pub was_queued : get_by_id envelope_key r.envelope.id q.queued ≡ some r.envelope
  pub not_queued : get_by_id envelope_key r.envelope.id after.queued ≡ none
  pub runs : get_by_id reservation_key r.envelope.id after.running ≡ some r
  pub time : r.dequeued_at ≡ now

dequeue-eq :
    (now : Time) (q : DispatchQueue) (o : Option Envelope)
    → next_envelope q.queued now ≡ o
    → dequeue now q ≡ reserve now o q
unfolding dequeue
dequeue-eq now q o h = ap (λ x. reserve now x q) h

takes :
    (now : Time) (q : DispatchQueue) (e : Envelope)
    → Distinct envelope_key q.queued
    → next_envelope q.queued now ≡ some e
    → Takes now q (record { envelope = e; dequeued_at = now }) (reserve now (some e) q).1
unfolding next_envelope
takes now q e d h =
    let (due, first) =
      chosen-IsFirst scored_before (is_due now) q.queued e scored_before-IsOrder h in
    let r : Reservation = record { envelope = e; dequeued_at = now } in
    record {
      due = due;
      first = first;
      was_queued =
          All-chosen scored_before (is_due now) (IsListed envelope_key q.queued) q.queued e
            (Distinct-IsListed envelope_key q.queued d) h;
      not_queued = rw (get_by_id-delete envelope_key e.id e.id q.queued d, str_eq_refl e.id) refl;
      runs = rw (get_by_id-save reservation_key r e.id q.running, str_eq_refl e.id) refl;
      time = refl;
    }

none_due :
    (now : Time) (q : DispatchQueue)
    → next_envelope q.queued now ≡ none
    → All (λ e. is_due now e ≡ false) q.queued
unfolding next_envelope
none_due now q n = chosen-none scored_before (is_due now) q.queued n

-- What `dequeue` does. Where no queued envelope is due, it returns null and changes nothing.
-- Otherwise it returns a reservation of a queued envelope that is due, and none that is due comes
-- before it in the order of the scores; the envelope is no longer queued, and it runs under the
-- reservation. The ids of the queued envelopes are distinct.
pub dequeue-order :
    (now : Time) (q : DispatchQueue)
    → Distinct envelope_key q.queued
    → ((dequeue now q ≡ (none, q)) × All (λ e. is_due now e ≡ false) q.queued)
      ⊎ ((r : Reservation) × ((dequeue now q).0 ≡ some r) × Takes now q r (dequeue now q).1)
dequeue-order now q d = elim (Option-cases (next_envelope q.queued now)) [
  | inl n ↦ inl (dequeue-eq now q none n, none_due now q n)
  | inr (e, h) ↦
      let p = dequeue-eq now q (some e) h in
      inr (
        record { envelope = e; dequeued_at = now },
        ap (λ x. x.0) p,
        subst⁻¹ (λ x. Takes now q (record { envelope = e; dequeued_at = now }) x.1) p
            (takes now q e d h),
      )
]

-- Between envelopes that are scheduled at whole minutes with priorities below 60000, the order of the
-- scores is: the earlier minute first, and within a minute the higher priority first.
pub score-lexicographic :
    (l r : Envelope)
    → l.scheduled_for % 60000 ≡ 0
    → r.scheduled_for % 60000 ≡ 0
    → l.priority < 60000
    → r.priority < 60000
    → scored_before l r ≡ (
        if l.scheduled_for == r.scheduled_for
        then ltb r.priority l.priority
        else ltb l.scheduled_for r.scheduled_for)
unfolding scored_before
score-lexicographic l r a b c d = ground arith
