-- ===== src/Numbers.antt =====
-- The numbers of the language, IEEE 754 doubles, as an interface: the parts of the repository that
-- compute with odds, probabilities and stakes take them as a parameter. No law is assumed here; a
-- theorem that needs one says so.
pub mod Decimal
use gana_v.Prelude.{ℕ, String, Bool}

pub record Numbers : Type 1 where
  pub Num : Type 0
  pub ltb : Num → Num → Bool  -- `<`
  pub leb : Num → Num → Bool  -- `<=`
  pub eqb : Num → Num → Bool  -- `===`
  pub add : Num → Num → Num
  pub sub : Num → Num → Num
  pub mul : Num → Num → Num
  pub div : Num → Num → Num
  pub least : Num → Num → Num  -- `Math.min`
  pub greatest : Num → Num → Num  -- `Math.max`
  pub round : Num → Num  -- `Math.round`
  pub literal : ℕ → ℕ → Num  -- `literal n k` is the decimal n / 10 ^ k
  pub to_string : Num → String
  pub to_fixed : Num → ℕ → String

-- Whole numbers stand for themselves: the doubles of a test that computes with integers only.
abbrev pub integer : (N : Numbers) → ℕ → N.Num
integer N n = N.literal n 0
