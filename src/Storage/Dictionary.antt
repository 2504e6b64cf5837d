-- ===== src/Storage/Dictionary.antt =====
-- The abstract view of an in-memory repository (packages/storage-adapters/src/in-memory.ts): a
-- function from ids to entities and the ids in the order in which they came, which forgets how the
-- entities are held, and the calls that a client makes of the one and of the other.
use gana_v.Prelude.{
  ℕ, suc, String, not, Option, none, some, List, [], ◌∷◌, ◌++◌, if◌then◌else◌, is_some, keep,
}
use gana_v.Prelude.Texts.{str_eq}
use gana_v.Storage.{get_by_id, save, delete, delete_ids}

-- The ids in order, and the entity of each.
abbrev pub Dictionary : Type 0 → Type 0
Dictionary E = List String × (String → Option E)

abbrev pub empty : {E : Type 0} → Dictionary E
empty = ([], λ k. none)

abbrev pub look_up : {E : Type 0} → String → Dictionary E → Option E
look_up k (ids, at) = at k

abbrev pub collect : {E : Type 0} → List String → (String → Option E) → List E
collect [] at = []
collect (k ∷ ks) at = elim (at k) [ none ↦ collect ks at | some e ↦ e ∷ collect ks at ]

-- The entities in the order of their ids.
abbrev pub entries : {E : Type 0} → Dictionary E → List E
entries (ids, at) = collect ids at

abbrev pub remove : {E : Type 0} → String → Dictionary E → Dictionary E
remove j (ids, at) = (keep (λ k. not (str_eq k j)) ids, λ k. if str_eq j k then none else at k)

abbrev pub remove_all : {E : Type 0} → List String → Dictionary E → Dictionary E × ℕ
remove_all [] d = (d, 0)
remove_all (k ∷ ks) d =
    let (rest, count) = remove_all ks (remove k d) in
    if is_some (look_up k d) then (rest, suc count) else (rest, count)

-- A call of a repository, and what it returns.
pub data Call (E : Type 0) : Type 0 where
  saves : E → Call E
  reads deletes : String → Call E
  lists : Call E
  deletes_ids : List String → Call E

pub data Reply (E : Type 0) : Type 0 where
  entity : Option E → Reply E
  entities : List E → Reply E
  nothing : Reply E
  deleted_count : ℕ → Reply E

module _ {E : Type 0} (id : E → String) where
  -- A new id comes last, and a known one keeps its place.
  abbrev pub put : E → Dictionary E → Dictionary E
  put e (ids, at) = (
    if is_some (at (id e)) then ids else ids ++ id e ∷ [],
    λ k. if str_eq (id e) k then some e else at k,
  )

  abbrev pub answer : Call E → Dictionary E → Reply E × Dictionary E
  answer (Call.saves e) d = (Reply.entity (some e), put e d)
  answer (Call.reads k) d = (Reply.entity (look_up k d), d)
  answer Call.lists d = (Reply.entities (entries d), d)
  answer (Call.deletes k) d = (Reply.nothing, remove k d)
  answer (Call.deletes_ids ks) d =
      let (rest, count) = remove_all ks d in (Reply.deleted_count count, rest)

  abbrev pub answers : List (Call E) → Dictionary E → List (Reply E)
  answers [] d = []
  answers (c ∷ cs) d = let (reply, d') = answer c d in reply ∷ answers cs d'

  unfoldable pub perform : Call E → List E → Reply E × List E
  unfolding get_by_id save delete delete_ids
  perform (Call.saves e) items = (Reply.entity (some e), save id e items)
  perform (Call.reads k) items = (Reply.entity (get_by_id id k items), items)
  perform Call.lists items = (Reply.entities items, items)
  perform (Call.deletes k) items = (Reply.nothing, delete id k items)
  perform (Call.deletes_ids ks) items =
      let (rest, count) = delete_ids id ks items in (Reply.deleted_count count, rest)

  unfoldable pub replies : List (Call E) → List E → List (Reply E)
  unfolding perform
  replies [] items = []
  replies (c ∷ cs) items = let (reply, rest) = perform c items in reply ∷ replies cs rest
