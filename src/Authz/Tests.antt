-- ===== src/Authz/Tests.antt =====
-- Capability checks (packages/authz/src/index.ts) on small inputs.
use gana_v.Prelude.{◌≡◌, refl, ◌↔◌, true, false, if◌then◌else◌, none, some, [], ◌∷◌}
use gana_v.Prelude.Unique.{Differ}
use gana_v.Authz.{
  operator, automation, publish_preview, queue_operate, release_approve, everything,
  same_capability, create_authorization_actor, has_capability, automation_actor, with_message,
  lacks, assert_capability,
}
use gana_v.Authz.Laws.{has_capability-created, Holds, assert_capability-denial}

test-has_capability :
    (has_capability (some (create_authorization_actor "ops:1" operator none none)) release_approve
      ≡ true)
    × Differ same_capability (create_authorization_actor "ops:1" operator none none).capabilities
    × (has_capability none release_approve ≡ false)
test-has_capability = has_capability-created "ops:1" operator none none release_approve

assert_capability-denial_example :
    ((has_capability (some (automation_actor none none)) queue_operate ≡ true)
      ↔ Holds (automation_actor none none) queue_operate)
    × (assert_capability (some (automation_actor none none)) queue_operate (some "no") ≡ (
        if has_capability (some (automation_actor none none)) queue_operate
        then none
        else some (with_message "no")))
    × (assert_capability (some (automation_actor none none)) queue_operate none ≡ (
        if has_capability (some (automation_actor none none)) queue_operate
        then none
        else some (lacks (automation_actor none none).id queue_operate)))
    × (assert_capability none queue_operate (some "no") ≡ some (with_message "no"))
    × (assert_capability none queue_operate none ≡ some (lacks "anonymous" queue_operate))
assert_capability-denial_example =
    assert_capability-denial (automation_actor none none) queue_operate "no"

given_twice :
    (create_authorization_actor "a" automation
      (some (publish_preview ∷ everything ∷ publish_preview ∷ []))
      none).capabilities
    ≡ publish_preview ∷ everything ∷ []
unfolding create_authorization_actor
given_twice = refl

automation_may_not_approve :
    assert_capability (some (automation_actor none none)) release_approve none
    ≡ some (lacks "automation:system" release_approve)
unfolding assert_capability automation_actor
automation_may_not_approve = refl
