-- ===== src/Registry/Trimmed.antt =====
-- What `trim` leaves alone (packages/model-registry/src/allowed-models.ts): the texts without white
-- space, among them the allowed ids and the beginnings of them.
use mathlib.Core.Path.{subst, subst⁻¹}
use Prim.Native.Char.{Char}
use Prim.Native.String.{String, ◌++◌ as concat}
use Prim.Native.String.append
use text.Mathlib.Text.{starts_with}
use text.Mathlib.TextEquality.{starts_with_iff}
use gana_v.Prelude.{
  ◌≡◌, refl, ap, ◌∙◌, Bool, true, false, not, ◌&&◌, arith, All, All-map, and_left, and_right,
  not-true,
}
use gana_v.Registry.Allowed.{is_space, trim_start, before_trimmed, trim_end, trim, allowed_ids}

unfoldable is_plain : String → Bool
is_plain String.[] = true
is_plain (String.◌∷◌ c s) = let rest = is_plain s in not (is_space c) && rest

prefix_plain : (s u : String) → is_plain (concat s u) ≡ true → is_plain s ≡ true
unfolding is_plain
prefix_plain String.[] u e = refl
prefix_plain (String.◌∷◌ c s) u e =
    let h = subst (λ x. is_plain x ≡ true) (append.cons c s u) e in
    let a = and_left (not (is_space c)) (is_plain (concat s u)) h in
    let b = prefix_plain s u (and_right (not (is_space c)) (is_plain (concat s u)) h) in
    ground (arith, a, b)

trim_start-plain : (s : String) → is_plain s ≡ true → trim_start s ≡ s
unfolding is_plain trim_start
trim_start-plain String.[] e = refl
trim_start-plain (String.◌∷◌ c s) e =
    let a = not-true (is_space c) (and_left (not (is_space c)) (is_plain s) e) in rw a refl

before-plain : (c : Char) (s : String) → is_space c ≡ false → before_trimmed c s ≡ String.◌∷◌ c s
before-plain c String.[] e = rw e refl
before-plain c (String.◌∷◌ d s) e = refl

trim_end-plain : (s : String) → is_plain s ≡ true → trim_end s ≡ s
unfolding is_plain trim_end
trim_end-plain String.[] e = refl
trim_end-plain (String.◌∷◌ c s) e =
    let a = not-true (is_space c) (and_left (not (is_space c)) (is_plain s) e) in
    ap (before_trimmed c) (trim_end-plain s (and_right (not (is_space c)) (is_plain s) e))
    ∙ before-plain c s a

trim-plain : (s : String) → is_plain s ≡ true → trim s ≡ s
unfolding trim
trim-plain s e = ap trim_end (trim_start-plain s e) ∙ trim_end-plain s e

allowed_plain : All (λ id. is_plain id ≡ true) allowed_ids
unfolding is_plain
allowed_plain = (refl, (refl, (refl, tt)))

-- An allowed id is as `trim` leaves it, and so is a text with which it begins.
pub allowed-trimmed : All (λ id. trim id ≡ id) allowed_ids
allowed-trimmed =
    All-map (λ id. is_plain id ≡ true) (λ id. trim id ≡ id) trim-plain allowed_ids allowed_plain

pub begins-trimmed :
    (v rest : String) → All (λ id. starts_with id (concat v rest) ≡ true → trim v ≡ v) allowed_ids
begins-trimmed v rest =
    All-map (λ id. is_plain id ≡ true) (λ id. starts_with id (concat v rest) ≡ true → trim v ≡ v)
      begins allowed_ids allowed_plain
  where
    begins : (id : String) → is_plain id ≡ true → starts_with id (concat v rest) ≡ true → trim v ≡ v
    begins id plain e =
        let (u, q) = (starts_with_iff id (concat v rest)).0 e in
        trim-plain v (
          prefix_plain v rest
            (prefix_plain (concat v rest) u (subst⁻¹ (λ x. is_plain x ≡ true) q plain)))
