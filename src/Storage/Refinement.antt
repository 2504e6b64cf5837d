-- ===== src/Storage/Refinement.antt =====
-- The in-memory repositories implement dictionaries
-- (packages/storage-adapters/src/in-memory.ts).
use mathlib.Core.Path.{subst}
use gana_v.Prelude.{
  ℕ, suc, String, Bool, true, false, not, Option, some, map, keep, All, ◌++◌, if◌then◌else◌, List,
  [], ◌∷◌, ◌≡◌, refl, sym, ap, ◌∙◌, any, Bool-cases, inl, inr, is_some,
}
use gana_v.Prelude.Texts.{str_eq, str_eq-eq}
use gana_v.Storage.{get_by_id, save, delete, delete_ids}
use gana_v.Storage.Laws.{
  Fresh, Distinct, Distinct-IsListed, Distinct-save, Distinct-delete, get_by_id-save,
  get_by_id-delete,
}
use gana_v.Storage.Dictionary.{
  Dictionary, empty, look_up, collect, entries, remove, remove_all, put, Call, Reply, answer,
  answers, perform, replies,
}

module _ {E : Type 0} (id : E → String) where
  -- The dictionary that a list of entities stands for.
  abbrev view : List E → Dictionary E
  view items = (map id items, λ k. get_by_id id k items)

  keys-save :
      (e : E) (items : List E)
      → map id (save id e items)
        ≡ (if is_some (get_by_id id (id e) items) then map id items else map id items ++ id e ∷ [])
  unfolding save get_by_id
  keys-save e [] = refl
  keys-save e (x ∷ items) = elim (Bool-cases (str_eq (id x) (id e))) [
    | inl t ↦ rw t (ap (λ k. k ∷ map id items) (sym (str_eq-eq (id x) (id e) t)))
    | inr t ↦
        rw t
          (ap (λ ks. id x ∷ ks) (keys-save e items) ∙ under (is_some (get_by_id id (id e) items)))
  ]
    where
      under :
          (b : Bool)
          → id x ∷ (if b then map id items else map id items ++ id e ∷ [])
            ≡ (if b then id x ∷ map id items else id x ∷ map id items ++ id e ∷ [])
      under true = refl
      under false = refl

  keys-Fresh :
      (k : String) (items : List E)
      → Fresh id k items
      → keep (λ j. not (str_eq j k)) (map id items) ≡ map id items
  keys-Fresh k [] h = refl
  keys-Fresh k (x ∷ items) (h, hs) = rw h (ap (λ ks. id x ∷ ks) (keys-Fresh k items hs))

  keys-delete :
      (k : String) (items : List E)
      → Distinct id items
      → map id (delete id k items) ≡ keep (λ j. not (str_eq j k)) (map id items)
  unfolding delete
  keys-delete k [] d = refl
  keys-delete k (x ∷ items) (new, d) = elim (Bool-cases (str_eq (id x) k)) [
    | inl t ↦
        let fresh : Fresh id k items = subst (λ j. Fresh id j items) (str_eq-eq (id x) k t) new in
        rw t (sym (keys-Fresh k items fresh))
    | inr t ↦ rw t (ap (λ ks. id x ∷ ks) (keys-delete k items d))
  ]

  collect-All :
      (at : String → Option E) (items : List E)
      → All (λ e. at (id e) ≡ some e) items
      → collect (map id items) at ≡ items
  collect-All at [] h = refl
  collect-All at (x ∷ items) (h, hs) = rw h (ap (λ es. x ∷ es) (collect-All at items hs))

  entries-view : (items : List E) → Distinct id items → entries (view items) ≡ items
  entries-view items d =
      collect-All (λ k. get_by_id id k items) items (Distinct-IsListed id items d)

  view-save : (e : E) (items : List E) → view (save id e items) ≡ put id e (view items)
  view-save e items i = (keys-save e items i, λ k. get_by_id-save id e k items i)

  view-delete :
      (j : String) (items : List E)
      → Distinct id items
      → view (delete id j items) ≡ remove j (view items)
  view-delete j items d i = (keys-delete j items d i, λ k. get_by_id-delete id j k items d i)

  any-view :
      (k : String) (items : List E)
      → any (λ x. str_eq (id x) k) items ≡ is_some (look_up k (view items))
  unfolding get_by_id
  any-view k [] = refl
  any-view k (x ∷ items) = elim (Bool-cases (str_eq (id x) k)) [
    | inl e ↦ rw e refl
    | inr e ↦ rw e (any-view k items)
  ]

  -- A state of the two sides: how the list looks after `delete_ids`, and its count.
  abbrev seen : List E × ℕ → Dictionary E × ℕ
  seen (items, count) = (view items, count)

  Distinct-delete_ids :
      (ks : List String) (items : List E)
      → Distinct id items
      → Distinct id (delete_ids id ks items).0
  unfolding delete_ids
  Distinct-delete_ids [] items d = d
  Distinct-delete_ids (k ∷ ks) items d =
      let rest = Distinct-delete_ids ks (delete id k items) (Distinct-delete id k items d) in
      elim (Bool-cases (any (λ x. str_eq (id x) k) items)) [ inl e ↦ rw e rest | inr e ↦ rw e rest ]

  view-delete_ids :
      (ks : List String) (items : List E)
      → Distinct id items
      → seen (delete_ids id ks items) ≡ remove_all ks (view items)
  unfolding delete_ids
  view-delete_ids [] items d = refl
  view-delete_ids (k ∷ ks) items d =
      let deleted : seen (delete_ids id ks (delete id k items))
          ≡ remove_all ks (remove k (view items)) =
        view-delete_ids ks (delete id k items) (Distinct-delete id k items d)
        ∙ ap (remove_all ks) (view-delete k items d) in
      elim (Bool-cases (any (λ x. str_eq (id x) k) items)) [
        | inl e ↦ rw (e, sym (any-view k items), e) (ap (λ s. (s.0, suc s.1)) deleted)
        | inr e ↦ rw (e, sym (any-view k items), e) deleted
      ]

  Distinct-perform :
      (c : Call E) (items : List E) → Distinct id items → Distinct id (perform id c items).1
  unfolding perform
  Distinct-perform (Call.saves e) items d = Distinct-save id e items d
  Distinct-perform (Call.reads k) items d = d
  Distinct-perform Call.lists items d = d
  Distinct-perform (Call.deletes k) items d = Distinct-delete id k items d
  Distinct-perform (Call.deletes_ids ks) items d = Distinct-delete_ids ks items d

  abbrev viewed : Reply E × List E → Reply E × Dictionary E
  viewed (reply, items) = (reply, view items)

  perform-answer :
      (c : Call E) (items : List E)
      → Distinct id items
      → viewed (perform id c items) ≡ answer id c (view items)
  unfolding perform
  perform-answer (Call.saves e) items d = ap (λ v. (Reply.entity (some e), v)) (view-save e items)
  perform-answer (Call.reads k) items d = refl
  perform-answer Call.lists items d =
      ap (λ es. (Reply.entities es, view items)) (sym (entries-view items d))
  perform-answer (Call.deletes k) items d = ap (λ v. (Reply.nothing, v)) (view-delete k items d)
  perform-answer (Call.deletes_ids ks) items d =
      ap (λ s. (Reply.deleted_count s.1, s.0)) (view-delete_ids ks items d)

  replies-answers :
      (cs : List (Call E)) (items : List E)
      → Distinct id items
      → replies id cs items ≡ answers id cs (view items)
  unfolding replies
  replies-answers [] items d = refl
  replies-answers (c ∷ cs) items d =
      ap (λ rest. (perform id c items).0 ∷ rest)
        (replies-answers cs (perform id c items).1 (Distinct-perform c items d))
      ∙ ap (λ s. s.0 ∷ answers id cs s.1) (perform-answer c items d)

  -- A new repository answers every sequence of saves, reads, lists of all entities and deletions,
  -- of one id or of many with their count, as a function from ids to entities does together with
  -- the order in which the ids came: no client can tell how the entities are held.
  pub repository_refines : (cs : List (Call E)) → replies id cs [] ≡ answers id cs empty
  unfolding get_by_id
  repository_refines cs = replies-answers cs [] tt
