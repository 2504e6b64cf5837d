-- ===== src/Parlays/Legs.antt =====
-- Which legs a parlay gets (packages/parlay-engine/src/index.ts).
use gana_v.Prelude.{
  ℕ, ◌≤◌, ◌≡◌, refl, sym, ap, ◌∙◌, String, true, false, not, List, [], ◌∷◌, ◌++◌, arith, length,
  length-append, leb, any, map, All-append, Bool-cases, inl, inr,
}
use gana_v.Prelude.Texts.{str_eq, str_eq_iff}
use gana_v.Prelude.Unique.{Differ}
use gana_v.Numbers.{Numbers}
use gana_v.Parlays.Candidate.{Candidate, Rank}
use gana_v.Parlays.Selection.{
  RejectionReason, Rejection, Selecting, selection_key, has, reject, select, consider, consider_all,
  leg_limit, duplicate_prediction, duplicate_selection,
}

-- A text that is not among different texts can be put behind them.
Differ-snoc :
    (ts : List String) (t : String)
    → Differ str_eq ts
    → any (λ x. str_eq x t) ts ≡ false
    → Differ str_eq (ts ++ t ∷ [])
Differ-snoc [] t d n = (tt, tt)
Differ-snoc (x ∷ ts) t (f, d) n = (
  All-append (λ y. not (str_eq y x) ≡ true) ts (t ∷ []) f
      (ground (arith, str_eq_iff x t, str_eq_iff t x), tt),
  Differ-snoc ts t d (ground arith),
)

pub map-snoc {ℓ κ} :
    {A : Type ℓ} {B : Type κ} (f : A → B) (xs : List A) (x : A)
    → map f (xs ++ x ∷ []) ≡ map f xs ++ f x ∷ []
map-snoc f [] x = refl
map-snoc f (y ∷ ys) x = ap (λ zs. f y ∷ zs) (map-snoc f ys x)

module _ (N : Numbers) where
  abbrev pub turned_down : List (Rejection N) → List (Candidate N)
  turned_down = map (λ r. r.candidate)

  abbrev pub candidates_of : List (Rank N) → List (Candidate N)
  candidates_of = map (λ r. r.candidate)

  -- What the loop keeps: at most the limit of legs, no prediction and no selection twice.
  pub record IsSelection (max_legs : ℕ) (s : Selecting N) : Type 0 where
    pub within : length s.selected ≤ max_legs
    pub ids : s.prediction_ids ≡ map (λ c. c.prediction_id) s.selected
    pub keys : s.selection_keys ≡ map (selection_key N) s.selected
    pub ids_differ : Differ str_eq s.prediction_ids
    pub keys_differ : Differ str_eq s.selection_keys

  select-IsSelection :
      (max_legs : ℕ) (c : Candidate N) (s : Selecting N)
      → IsSelection max_legs s
      → leb max_legs (length s.selected) ≡ false
      → has N s.prediction_ids c.prediction_id ≡ false
      → has N s.selection_keys (selection_key N c) ≡ false
      → IsSelection max_legs (select N c s)
  select-IsSelection max_legs c s i l p k = record {
    within = ground (arith, length-append s.selected (c ∷ []));
    ids =
        ap (λ xs. xs ++ c.prediction_id ∷ []) i.ids
        ∙ sym (map-snoc (λ c. c.prediction_id) s.selected c);
    keys =
        ap (λ xs. xs ++ selection_key N c ∷ []) i.keys
        ∙ sym (map-snoc (selection_key N) s.selected c);
    ids_differ = Differ-snoc s.prediction_ids c.prediction_id i.ids_differ p;
    keys_differ = Differ-snoc s.selection_keys (selection_key N c) i.keys_differ k;
  }

  reject-IsSelection :
      (max_legs : ℕ) (reason : RejectionReason) (c : Candidate N) (s : Selecting N)
      → IsSelection max_legs s
      → IsSelection max_legs (reject N reason c s)
  reject-IsSelection max_legs reason c s i = record {
    within = i.within;
    ids = i.ids;
    keys = i.keys;
    ids_differ = i.ids_differ;
    keys_differ = i.keys_differ;
  }

  -- A round either rejects the candidate or selects it, and only under the three tests.
  consider-IsSelection :
      (max_legs : ℕ) (c : Candidate N) (s : Selecting N)
      → IsSelection max_legs s
      → IsSelection max_legs (consider N max_legs c s)
  unfolding consider
  consider-IsSelection max_legs c s i = elim (Bool-cases (leb max_legs (length s.selected))) [
    | inl l ↦ rw l (reject-IsSelection max_legs leg_limit c s i)
    | inr l ↦ elim (Bool-cases (has N s.prediction_ids c.prediction_id)) [
      | inl p ↦ rw (l, p) (reject-IsSelection max_legs duplicate_prediction c s i)
      | inr p ↦ elim (Bool-cases (has N s.selection_keys (selection_key N c))) [
        | inl k ↦ rw (l, p, k) (reject-IsSelection max_legs duplicate_selection c s i)
        | inr k ↦ rw (l, p, k) (select-IsSelection max_legs c s i l p k)
      ]
    ]
  ]

  pub consider_all-IsSelection :
      (max_legs : ℕ) (rs : List (Rank N)) (s : Selecting N)
      → IsSelection max_legs s
      → IsSelection max_legs (consider_all N max_legs rs s)
  unfolding consider_all
  consider_all-IsSelection max_legs [] s i = i
  consider_all-IsSelection max_legs (r ∷ rs) s i =
      consider_all-IsSelection max_legs rs _ (consider-IsSelection max_legs r.candidate s i)
