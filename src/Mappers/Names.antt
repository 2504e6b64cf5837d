-- ===== src/Mappers/Names.antt =====
-- The names of kinds in the domain and in the database
-- (packages/storage-adapters/src/prisma/mappers.ts), where `-` stands in the one and `_` in the
-- other.
use Prim.Native.Char.{Char, code}
use Prim.Native.String.{[] as no_text, ◌∷◌ as cons}
use gana_v.Prelude.{String, Bool, Option, some, ◌≡◌, refl, ◌==◌, if◌then◌else◌, first, [], ◌∷◌}
use gana_v.Prelude.Texts.{str_eq}
use gana_v.Queue.Task.{TaskKind}
use gana_v.Queue.Enqueue.{kind_name}

abbrev same_char : Char → Char → Bool
same_char a b = code a == code b

-- `text.replaceAll(old, fresh)` of one character
unfoldable pub replace_all : Char → Char → String → String
replace_all old fresh no_text = ""
replace_all old fresh (cons c s) =
    let rest = replace_all old fresh s in if same_char c old then cons fresh rest else cons c rest

unfoldable pub task_kind_to_prisma : TaskKind → String
unfolding replace_all
task_kind_to_prisma kind = replace_all "-" "_" (kind_name kind)

-- The cast to a `TaskKind`: none, where the text is not the name of one.
abbrev kind_named : String → Option TaskKind
kind_named name =
    first (λ k. str_eq (kind_name k) name)
      (TaskKind.fixture_ingestion ∷ TaskKind.odds_ingestion ∷ TaskKind.research
        ∷ TaskKind.prediction ∷ TaskKind.validation ∷ TaskKind.sandbox_replay ∷ [])

unfoldable pub task_kind_to_domain : String → Option TaskKind
unfolding replace_all
task_kind_to_domain value = kind_named (replace_all "_" "-" value)

pub task_kind-read : (k : TaskKind) → task_kind_to_domain (task_kind_to_prisma k) ≡ some k
unfolding task_kind_to_domain task_kind_to_prisma replace_all
task_kind-read TaskKind.fixture_ingestion = refl
task_kind-read TaskKind.odds_ingestion = refl
task_kind-read TaskKind.research = refl
task_kind-read TaskKind.prediction = refl
task_kind-read TaskKind.validation = refl
task_kind-read TaskKind.sandbox_replay = refl
