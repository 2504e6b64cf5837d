-- ===== src/Orchestration/Routes.antt =====
-- Which handler an envelope reaches (packages/orchestration-sdk/src/index.ts).
use gana_v.Prelude.{
  ◌≡◌, refl, ◌∙◌, ap, inl, inr, true, false, some, List, [], ◌∷◌, ◌++◌, arith, any, is_some, map,
  Option-cases,
}
use gana_v.Prelude.Unique.{any-unique, Differ, unique-Differ}
use gana_v.Queue.Task.{Time}
use gana_v.Orchestration.Envelope.{WorkflowIntent, Envelope}
use gana_v.Orchestration.Router.{
  JobHandler, same_intent, handler_for, result_of, unhandled, dispatch_to, dispatch, intents,
}

respects : (i x y : WorkflowIntent) → same_intent x y ≡ true → same_intent x i ≡ same_intent y i
respects i x y h = ground arith

handler_for-some :
    (i : WorkflowIntent) (hs : List JobHandler)
    → is_some (handler_for i hs) ≡ any (λ x. same_intent x i) (map (λ h. h.intent) hs)
unfolding handler_for
handler_for-some i [] = refl
handler_for-some i (h ∷ hs) = ground (arith, handler_for-some i hs)

-- A later handler of an intent takes the place of the earlier ones.
handler_for-last :
    (i : WorkflowIntent) (hs later : List JobHandler) (h : JobHandler)
    → same_intent h.intent i ≡ true
    → any (λ x. same_intent x i) (map (λ h. h.intent) later) ≡ false
    → handler_for i (hs ++ h ∷ later) ≡ some h
unfolding handler_for
handler_for-last i [] later h s n = ground (arith, handler_for-some i later)
handler_for-last i (x ∷ hs) later h s n = rw (handler_for-last i hs later h s n) refl

-- An envelope goes to the last handler of its intent, whatever handlers stand before it, and its
-- result is what that one returns or throws. With the handlers behind it alone, among which the
-- intent has none, the envelope fails with an error that names the intent and without spending
-- anything, and the intent is not among the router's intents. The router's intents are all
-- different.
pub dispatch-last :
    (hs later : List JobHandler) (h : JobHandler) (e : Envelope) (started_at now : Time)
    → same_intent h.intent e.intent ≡ true
    → any (λ x. same_intent x e.intent) (map (λ h. h.intent) later) ≡ false
    → (dispatch (hs ++ h ∷ later) e started_at now ≡ result_of (h.handle e) started_at now)
      × (dispatch later e started_at now ≡ unhandled e.intent now)
      × (any (λ x. same_intent x e.intent) (intents later) ≡ false)
      × Differ same_intent (intents (hs ++ h ∷ later))
unfolding dispatch intents
dispatch-last hs later h e started_at now s n = (
  ap (λ o. dispatch_to o e started_at now) (handler_for-last e.intent hs later h s n),
  elim (Option-cases (handler_for e.intent later)) [
    | inl z ↦ ap (λ o. dispatch_to o e started_at now) z
    | inr (x, z) ↦ absurd (ground (arith, handler_for-some e.intent later, z))
  ],
  any-unique same_intent (λ x. same_intent x e.intent) (respects e.intent) _ ∙ n,
  unique-Differ same_intent _,
)
