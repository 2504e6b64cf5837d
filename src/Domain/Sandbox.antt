-- ===== src/Domain/Sandbox.antt =====
-- Namespaces of sandboxes (packages/domain-core/src/entities/sandbox.ts). The argument of the
-- creation differs from the entity in its times, which may be missing.
use mathlib.Core.Path.{subst}
use text.Mathlib.Text.{starts_with}
use text.Mathlib.TextEquality.{starts_with_iff}
use text.Mathlib.TextBridge.{IsPrefix}
use gana_v.Prelude.{
  String, ◌≡◌, ◌↔◌, Bool-cases, inl, inr, Option, List, [], ◌∷◌, Bool, true, false, not, ◌&&◌,
  arith, if◌then◌else◌, get_or, is_some,
}
use gana_v.Prelude.Texts.{join, truthy}
use gana_v.Domain.Common.{IsoDate, Outcome, done, raised, is_done, done-eq}

pub data Environment : Type 0 where
  prod staging sandbox : Environment

abbrev pub is_sandbox : Environment → Bool
is_sandbox sandbox = true
is_sandbox _ = false

abbrev pub environment_text : Environment → String
environment_text prod = "prod"
environment_text staging = "staging"
environment_text sandbox = "sandbox"

pub record SandboxNamespace (Stamp : Type 0) : Type 0 where
  pub id : String
  pub environment : Environment
  pub sandbox_id : Option String
  pub scope : String
  pub storage_prefix : String
  pub queue_prefix : String
  pub metadata : List (String × String)
  pub created_at : Stamp
  pub updated_at : Stamp

unfoldable pub create_sandbox_namespace :
    SandboxNamespace (Option IsoDate) → IsoDate → Outcome (SandboxNamespace IsoDate)
create_sandbox_namespace input now =
    let timestamp = get_or input.created_at now in
    if is_sandbox input.environment && not (is_some (truthy input.sandbox_id))
    then raised
        (record { message = "Sandbox namespaces require sandboxId"; code = "SANDBOX_ID_REQUIRED" })
    else done (record {
      id = input.id;
      environment = input.environment;
      sandbox_id = input.sandbox_id;
      scope = input.scope;
      storage_prefix = input.storage_prefix;
      queue_prefix = input.queue_prefix;
      metadata = input.metadata;
      created_at = timestamp;
      updated_at = get_or input.updated_at timestamp;
    })

-- A sandbox id that is missing prints as "undefined".
unfoldable pub namespace_key : SandboxNamespace IsoDate → String
namespace_key namespace =
    if is_sandbox namespace.environment
    then join (
        environment_text namespace.environment
        ∷ ":"
        ∷ get_or namespace.sandbox_id "undefined"
        ∷ ":"
        ∷ namespace.scope
        ∷ [])
    else join (environment_text namespace.environment ∷ ":" ∷ namespace.scope ∷ [])

unfoldable pub assert_sandbox_isolation : SandboxNamespace IsoDate → String → Outcome (Unit {0})
assert_sandbox_isolation namespace forbidden_prefix =
    if is_sandbox namespace.environment && starts_with namespace.storage_prefix forbidden_prefix
    then raised (record {
      message = "Sandbox namespace points to a forbidden storage prefix";
      code = "SANDBOX_NAMESPACE_LEAK";
    })
    else done tt

created-id :
    (input : SandboxNamespace (Option IsoDate)) (now : IsoDate) (n : SandboxNamespace IsoDate)
    → create_sandbox_namespace input now ≡ done n
    → (is_sandbox n.environment && not (is_some (truthy n.sandbox_id))) ≡ false
unfolding create_sandbox_namespace
created-id input now n e =
    elim (Bool-cases (is_sandbox input.environment && not (is_some (truthy input.sandbox_id)))) [
      | inl t ↦ absurd (let f = rw t at e in ground arith)
      | inr t ↦
          subst (λ x. (is_sandbox x.environment && not (is_some (truthy x.sandbox_id))) ≡ false)
            (done-eq {y = n} (rw t at e)) t
    ]

refuses_iff :
    (n : SandboxNamespace IsoDate) (forbidden_prefix : String)
    → n.environment ≡ sandbox
    → (is_done (assert_sandbox_isolation n forbidden_prefix) ≡ false)
      ↔ (starts_with n.storage_prefix forbidden_prefix ≡ true)
unfolding assert_sandbox_isolation
refuses_iff n forbidden_prefix e = ((λ h. ground (arith, e)), (λ h. ground (arith, e)))

-- A namespace of the environment "sandbox" that was created has an id of its sandbox, and the check
-- of its isolation throws exactly where the forbidden prefix is a prefix of its storage prefix.
pub isolation-prefix :
    (input : SandboxNamespace (Option IsoDate)) (now : IsoDate) (n : SandboxNamespace IsoDate)
    (forbidden_prefix : String)
    → n.environment ≡ sandbox
    → create_sandbox_namespace input now ≡ done n
    → (is_some (truthy n.sandbox_id) ≡ true)
      × ((is_done (assert_sandbox_isolation n forbidden_prefix) ≡ false)
          ↔ IsPrefix forbidden_prefix n.storage_prefix)
isolation-prefix input now n forbidden_prefix s e =
    let (f, b) = refuses_iff n forbidden_prefix s in
    let (g, c) = starts_with_iff n.storage_prefix forbidden_prefix in
    (ground (arith, created-id input now n e, s), ((λ h. g (f h)), (λ h. b (c h))))
