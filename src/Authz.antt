-- ===== src/Authz.antt =====
-- Actors, roles and capabilities (packages/authz/src/index.ts).
pub mod Laws
mod Tests
use gana_v.Prelude.{
  String, Bool, true, false, not, ◌||◌, Option, none, some, List, [], ◌∷◌, if◌then◌else◌, get_or,
  any,
}
use gana_v.Prelude.Texts.{truthy}
use gana_v.Prelude.Unique.{unique}

pub data Role : Type 0 where
  viewer operator automation system : Role

-- `everything` is the capability "*".
pub data Capability : Type 0 where
  publish_preview publish_parlay_store publish_telegram publish_discord publish_webhook : Capability
  queue_operate release_approve workflow_override everything : Capability

abbrev pub same_capability : Capability → Capability → Bool
same_capability publish_preview publish_preview = true
same_capability publish_parlay_store publish_parlay_store = true
same_capability publish_telegram publish_telegram = true
same_capability publish_discord publish_discord = true
same_capability publish_webhook publish_webhook = true
same_capability queue_operate queue_operate = true
same_capability release_approve release_approve = true
same_capability workflow_override workflow_override = true
same_capability everything everything = true
same_capability _ _ = false

pub record Actor : Type 0 where
  pub id : String
  pub role : Role
  pub capabilities : List Capability
  pub display_name : Option String

unfoldable pub default_capabilities_by_role : Role → List Capability
default_capabilities_by_role viewer = []
default_capabilities_by_role operator =
    publish_preview ∷ publish_parlay_store ∷ publish_telegram ∷ publish_discord ∷ publish_webhook
    ∷ queue_operate ∷ release_approve ∷ workflow_override ∷ []
default_capabilities_by_role automation =
    publish_preview ∷ publish_parlay_store ∷ publish_telegram ∷ publish_discord ∷ publish_webhook
    ∷ []
default_capabilities_by_role system = everything ∷ []

-- `[...new Set(capabilities)]` keeps the first of each.
unfoldable pub create_authorization_actor :
    String → Role → Option (List Capability) → Option String → Actor
unfolding default_capabilities_by_role unique
create_authorization_actor id role capabilities display_name = record {
  id = id;
  role = role;
  capabilities = unique same_capability (get_or capabilities (default_capabilities_by_role role));
  display_name = truthy display_name;
}

unfoldable pub automation_actor : Option String → Option String → Actor
unfolding create_authorization_actor
automation_actor id display_name =
    create_authorization_actor (get_or id "automation:system") automation none
      (some (get_or display_name "Automation System"))

unfoldable pub system_actor : Option String → Option String → Actor
unfolding create_authorization_actor
system_actor id display_name =
    create_authorization_actor (get_or id "system:internal") system none
      (some (get_or display_name "Internal System"))

abbrev pub includes : List Capability → Capability → Bool
includes capabilities c = any (λ x. same_capability x c) capabilities

unfoldable pub has_capability : Option Actor → Capability → Bool
has_capability none c = false
has_capability (some actor) c =
    includes actor.capabilities everything || includes actor.capabilities c

-- The error names the message that was given, or the actor and the capability.
pub data Denied : Type 0 where
  with_message : String → Denied
  lacks : String → Capability → Denied

abbrev actor_label : Option Actor → String
actor_label none = "anonymous"
actor_label (some actor) = actor.id

abbrev denial : Option String → Option Actor → Capability → Denied
denial (some message) actor c = with_message message
denial none actor c = lacks (actor_label actor) c

-- `none` where the assertion passes, or the error that it throws.
unfoldable pub assert_capability : Option Actor → Capability → Option String → Option Denied
unfolding has_capability
assert_capability actor c message =
    if not (has_capability actor c) then some (denial message actor c) else none

unfoldable pub list_actor_capabilities : Actor → List Capability
list_actor_capabilities actor = actor.capabilities
