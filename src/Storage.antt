-- ===== src/Storage.antt =====
-- The in-memory repositories (packages/storage-adapters/src/in-memory.ts). A `Map` from ids to
-- entities is the list of its entities in insertion order, each under the id that it carries; a
-- `structuredClone` is the value itself, since entities are values here and nothing is shared.
pub mod Laws
pub mod Dictionary
pub mod Refinement
mod Tests
use gana_v.Prelude.{
  ℕ, suc, String, Bool, true, false, ◌||◌, Option, none, some, List, [], ◌∷◌, if◌then◌else◌, any,
}
use gana_v.Prelude.Texts.{str_eq}

-- The section's parameter is the field `id` of an entity.
module _ {E : Type 0} (id : E → String) where
  -- `items.get(id)`
  unfoldable pub get_by_id : String → List E → Option E
  get_by_id k [] = none
  get_by_id k (x ∷ xs) = if str_eq (id x) k then some x else get_by_id k xs

  -- `items.set(entity.id, entity)`: a known id keeps its place
  unfoldable pub save : E → List E → List E
  save e [] = e ∷ []
  save e (x ∷ xs) = if str_eq (id x) (id e) then e ∷ xs else x ∷ save e xs

  -- `items.delete(id)`
  unfoldable pub delete : String → List E → List E
  delete k [] = []
  delete k (x ∷ xs) = if str_eq (id x) k then xs else x ∷ delete k xs

  -- `deleteIds`: how many of the ids were there, and what is left
  unfoldable pub delete_ids : List String → List E → List E × ℕ
  unfolding delete
  delete_ids [] xs = (xs, 0)
  delete_ids (k ∷ ks) xs =
      let (rest, count) = delete_ids ks (delete k xs) in
      if any (λ x. str_eq (id x) k) xs then (rest, suc count) else (rest, count)
