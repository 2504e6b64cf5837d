-- ===== src/Registry/Allowed.antt =====
-- Which texts name an allowed model (packages/model-registry/src/allowed-models.ts), with the
-- `trim` of the language's strings.
use Prim.Native.Char.{Char, code}
use Prim.Native.String.{String}
use gana_v.Prelude.{
  ◌||◌, ◌&&◌, Bool, false, Option, none, some, List, if◌then◌else◌, leb, ◌==◌, any, map,
}
use gana_v.Prelude.Texts.{str_eq}
use gana_v.Registry.Models.{allowed_models}

-- The white space and the line ends of the language.
abbrev pub is_space : Char → Bool
is_space c =
    let n = code c in
    (leb 9 n && leb n 13)
    || ((n == 32)
        || ((n == 160)
            || ((n == 5760)
                || ((leb 8192 n && leb n 8202)
                    || ((n == 8232)
                        || ((n == 8233)
                            || ((n == 8239)
                                || ((n == 8287) || ((n == 12288) || (n == 65279))))))))))

unfoldable pub trim_start : String → String
trim_start String.[] = String.[]
trim_start (String.◌∷◌ c s) = let rest = trim_start s in if is_space c then rest else String.◌∷◌ c s

-- A character before a text whose end is trimmed.
abbrev pub before_trimmed : Char → String → String
before_trimmed c String.[] = if is_space c then String.[] else String.◌∷◌ c String.[]
before_trimmed c (String.◌∷◌ d s) = String.◌∷◌ c (String.◌∷◌ d s)

unfoldable pub trim_end : String → String
trim_end String.[] = String.[]
trim_end (String.◌∷◌ c s) = before_trimmed c (trim_end s)

unfoldable pub trim : String → String
unfolding trim_start trim_end
trim s = trim_end (trim_start s)

abbrev pub allowed_ids : List String
allowed_ids = map (λ (m : String × String). m.0) allowed_models

abbrev pub default_allowed_codex_model : String
default_allowed_codex_model = "gpt-5.4"

-- `(ALLOWED_CODEX_MODEL_IDS as readonly string[]).includes(text)`
abbrev pub is_allowed_text : String → Bool
is_allowed_text text = any (λ id. str_eq id text) allowed_ids

unfoldable pub is_allowed_ai_model_id : Option String → Bool
unfolding trim
is_allowed_ai_model_id none = false
is_allowed_ai_model_id (some value) = is_allowed_text (trim value)

-- `sanitizeAllowedAiModelId` of a text; the fallback is given.
unfoldable pub sanitize_allowed_ai_model_id : Option String → String → String
unfolding is_allowed_ai_model_id
sanitize_allowed_ai_model_id none fallback = fallback
sanitize_allowed_ai_model_id (some value) fallback =
    if is_allowed_ai_model_id (some value) then trim value else fallback
