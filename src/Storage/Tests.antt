-- ===== src/Storage/Tests.antt =====
-- Calls of a repository at which the theorem of `Refinement` applies
-- (packages/storage-adapters/src/in-memory.ts).
use gana_v.Prelude.{ℕ, String, none, some, List, [], ◌∷◌, ◌≡◌, refl}
use gana_v.Storage.{get_by_id, save, delete, delete_ids}
use gana_v.Storage.Dictionary.{empty, Call, Reply, answers, perform, replies}
use gana_v.Storage.Refinement.{repository_refines}

abbrev Entity : Type 0
Entity = String × ℕ

abbrev entity_id : Entity → String
entity_id e = e.0

abbrev calls : List (Call Entity)
calls =
    Call.saves ("a", 1)
    ∷ Call.saves ("b", 2)
    ∷ Call.saves ("a", 3)
    ∷ Call.reads "a"
    ∷ Call.lists
    ∷ Call.deletes "b"
    ∷ Call.deletes_ids ("b" ∷ "a" ∷ "a" ∷ [])
    ∷ Call.reads "a"
    ∷ []

test-replies :
    replies entity_id calls []
    ≡ Reply.entity (some ("a", 1))
      ∷ Reply.entity (some ("b", 2))
      ∷ Reply.entity (some ("a", 3))
      ∷ Reply.entity (some ("a", 3))
      ∷ Reply.entities (("a", 3) ∷ ("b", 2) ∷ [])
      ∷ Reply.nothing
      ∷ Reply.deleted_count 1
      ∷ Reply.entity none
      ∷ []
unfolding replies perform get_by_id save delete delete_ids
test-replies = refl

repository_refines_example : replies entity_id calls [] ≡ answers entity_id calls empty
repository_refines_example = repository_refines entity_id calls
