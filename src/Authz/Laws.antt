-- ===== src/Authz/Laws.antt =====
-- What an actor may do (packages/authz/src/index.ts).
use mathlib.Core.Path.{subst}
use gana_v.Prelude.{
  String, ◌≡◌, refl, ap, ◌↔◌, Bool, true, false, not, ◌||◌, Option, none, some, List, [], ◌∷◌,
  arith, get_or, Memᴰ, Bool-cases, if◌then◌else◌, sym, inl, inr, ◌⊎◌,
}
use gana_v.Prelude.Unique.{unique, Differ, unique-Differ, any-unique}
use gana_v.Authz.{
  Role, viewer, operator, automation, system, Capability, publish_preview, publish_parlay_store,
  publish_telegram, publish_discord, publish_webhook, everything, same_capability, Actor,
  default_capabilities_by_role, create_authorization_actor, includes, has_capability, with_message,
  lacks, assert_capability,
}

same_capability-eq : (x y : Capability) → same_capability x y ≡ true → x ≡ y
same_capability-eq x y h = ground arith

respects :
    (c x y : Capability) → same_capability x y ≡ true → same_capability x c ≡ same_capability y c
respects c x y h = ap (λ z. same_capability z c) (same_capability-eq x y h)

includes-unique :
    (cs : List Capability) (c : Capability) → includes (unique same_capability cs) c ≡ includes cs c
includes-unique cs c = any-unique same_capability (λ x. same_capability x c) (respects c) cs

abbrev pub is_publishing : Capability → Bool
is_publishing publish_preview = true
is_publishing publish_parlay_store = true
is_publishing publish_telegram = true
is_publishing publish_discord = true
is_publishing publish_webhook = true
is_publishing _ = false

abbrev pub is_everything : Capability → Bool
is_everything everything = true
is_everything _ = false

-- What a role grants where no capabilities are given.
abbrev pub grants : Role → Capability → Bool
grants viewer c = false
grants operator c = not (is_everything c)
grants automation c = is_publishing c
grants system c = true

abbrev pub granted : Role → Option (List Capability) → Capability → Bool
granted role none c = grants role c
granted role (some cs) c = includes cs everything || includes cs c

default_grants :
    (role : Role) (c : Capability)
    → (includes (default_capabilities_by_role role) everything
        || includes (default_capabilities_by_role role) c)
      ≡ grants role c
unfolding default_capabilities_by_role
default_grants viewer c = refl
default_grants operator c = ground arith
default_grants automation c = ground arith
default_grants system c = ground arith

granted_defaults :
    (role : Role) (capabilities : Option (List Capability)) (c : Capability)
    → (includes (get_or capabilities (default_capabilities_by_role role)) everything
        || includes (get_or capabilities (default_capabilities_by_role role)) c)
      ≡ granted role capabilities c
granted_defaults role none c = default_grants role c
granted_defaults role (some cs) c = refl

-- What a created actor may do. Where capabilities are given, exactly those, and everything where "*"
-- is among them. Where none are given, by role: a viewer nothing, automation the five publishing
-- capabilities, an operator every capability but "*", and the system everything. The actor's list
-- holds no capability twice, and an actor that is not there may do nothing.
pub has_capability-created :
    (id : String) (role : Role) (capabilities : Option (List Capability)) (name : Option String)
    (c : Capability)
    → (has_capability (some (create_authorization_actor id role capabilities name)) c
        ≡ granted role capabilities c)
      × Differ same_capability (create_authorization_actor id role capabilities name).capabilities
      × (has_capability none c ≡ false)
unfolding create_authorization_actor has_capability
has_capability-created id role capabilities name c =
    let cs : List Capability = get_or capabilities (default_capabilities_by_role role) in
    (
      rw (includes-unique cs everything, includes-unique cs c)
          (granted_defaults role capabilities c),
      unique-Differ same_capability cs,
      refl,
    )

-- The capabilities of an actor have "*" or `c` among them.
abbrev pub Holds : Actor → Capability → Type 0
Holds actor c = Memᴰ everything actor.capabilities ⊎ Memᴰ c actor.capabilities

same_capability_refl : (c : Capability) → same_capability c c ≡ true
same_capability_refl c = ground arith

includes-mem : (cs : List Capability) (c : Capability) → includes cs c ≡ true → Memᴰ c cs
includes-mem [] c e = cc
includes-mem (x ∷ cs) c e = elim (Bool-cases (same_capability x c)) [
  | inl t ↦ Memᴰ.head (sym (same_capability-eq x c t))
  | inr t ↦ Memᴰ.tail (includes-mem cs c (rw t at e))
]

mem-includes : (cs : List Capability) (c : Capability) → Memᴰ c cs → includes cs c ≡ true
mem-includes [] c m = elim m [ ]
mem-includes (x ∷ cs) c (Memᴰ.head e) =
    let same : same_capability x c ≡ true =
      subst (λ y. same_capability y c ≡ true) e (same_capability_refl c) in
    rw same refl
mem-includes (x ∷ cs) c (Memᴰ.tail m) = ground (arith, mem-includes cs c m)

Holds-passes :
    (actor : Actor) (c : Capability) → (has_capability (some actor) c ≡ true) ↔ Holds actor c
unfolding has_capability
Holds-passes actor c = (there, back)
  where
    there :
        (includes actor.capabilities everything || includes actor.capabilities c) ≡ true
        → Holds actor c
    there e = elim (Bool-cases (includes actor.capabilities everything)) [
      | inl t ↦ inl (includes-mem actor.capabilities everything t)
      | inr t ↦ inr (includes-mem actor.capabilities c (rw t at e))
    ]

    back :
        Holds actor c
        → (includes actor.capabilities everything || includes actor.capabilities c) ≡ true
    back (inl m) = rw (mem-includes actor.capabilities everything m) refl
    back (inr m) = ground (arith, mem-includes actor.capabilities c m)

-- `assertCapability` of an actor passes exactly where "*" or the capability is among the actor's, and
-- never where there is no actor. Otherwise it throws an error: with the given message, or where none
-- is given with the capability and the actor's id, "anonymous" where there is no actor.
pub assert_capability-denial :
    (actor : Actor) (c : Capability) (message : String)
    → ((has_capability (some actor) c ≡ true) ↔ Holds actor c)
      × (assert_capability (some actor) c (some message)
          ≡ (if has_capability (some actor) c then none else some (with_message message)))
      × (assert_capability (some actor) c none
          ≡ (if has_capability (some actor) c then none else some (lacks actor.id c)))
      × (assert_capability none c (some message) ≡ some (with_message message))
      × (assert_capability none c none ≡ some (lacks "anonymous" c))
unfolding assert_capability
assert_capability-denial actor c message =
    (Holds-passes actor c, ground arith, ground arith, refl, refl)
