-- ===== src/Registry/Models.antt =====
-- The models and their levels of reasoning (packages/model-registry/src/allowed-models.ts).
use gana_v.Prelude.{ℕ, String, Bool, true, false, Option, none, some, List, [], ◌∷◌, any}

pub data ReasoningLevel : Type 0 where
  no_reasoning minimal low medium high xhigh : ReasoningLevel

pub data AvailabilitySource : Type 0 where
  upstream bundled probed : AvailabilitySource

-- `AiModelOptionWithAvailability`; its provider is always "codex".
pub record ModelOption : Type 0 where
  pub id : String
  pub label : String
  pub supports_web_search : Bool
  pub default_reasoning : Option ReasoningLevel
  pub supported_reasoning_levels : List ReasoningLevel
  pub availability_source : Option AvailabilitySource

abbrev pub reasoning_levels : List ReasoningLevel
reasoning_levels = no_reasoning ∷ minimal ∷ low ∷ medium ∷ high ∷ xhigh ∷ []

abbrev pub level_name : ReasoningLevel → String
level_name no_reasoning = "none"
level_name minimal = "minimal"
level_name low = "low"
level_name medium = "medium"
level_name high = "high"
level_name xhigh = "xhigh"

-- `===` on levels, and on levels that may be missing
abbrev pub same_level : ReasoningLevel → ReasoningLevel → Bool
same_level no_reasoning no_reasoning = true
same_level minimal minimal = true
same_level low low = true
same_level medium medium = true
same_level high high = true
same_level xhigh xhigh = true
same_level _ _ = false

abbrev pub same_optional : Option ReasoningLevel → Option ReasoningLevel → Bool
same_optional none none = true
same_optional (some a) (some b) = same_level a b
same_optional _ _ = false

-- `levels.includes(level)`
abbrev pub supports : List ReasoningLevel → ReasoningLevel → Bool
supports levels level = any (λ l. same_level l level) levels

-- The place in `REASONING_LEVELS`.
abbrev pub get_reasoning_rank : ReasoningLevel → ℕ
get_reasoning_rank no_reasoning = 0
get_reasoning_rank minimal = 1
get_reasoning_rank low = 2
get_reasoning_rank medium = 3
get_reasoning_rank high = 4
get_reasoning_rank xhigh = 5

-- `ALLOWED_CODEX_MODEL_IDS` and their labels
abbrev pub allowed_models : List (String × String)
allowed_models =
    ("gpt-5.4", "GPT-5.4")
    ∷ ("gpt-5.4-mini", "GPT-5.4 Mini")
    ∷ ("gpt-5.3-codex-spark", "GPT-5.3 Codex Spark")
    ∷ []

abbrev pub bundled_option : String × String → ModelOption
bundled_option entry = record {
  id = entry.0;
  label = entry.1;
  supports_web_search = true;
  default_reasoning = some medium;
  supported_reasoning_levels = reasoning_levels;
  availability_source = some bundled;
}
