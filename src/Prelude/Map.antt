-- ===== src/Prelude/Map.antt =====
-- `std::map`: entries in the order of their keys, which is the order of iteration.
-- The laws of `find` hold of every list of entries; `IsSorted` (Map/Order) is what iteration relies on.
pub mod Laws
pub mod Order
use mathlib.Core.Path.{◌≡◌}
use mathlib.Core.Logic.{◌↔◌}
use mathlib.Core.Bool.{Bool, true, false}
use mathlib.Core.Option.{Option, none, some}
use mathlib.Core.List.{List, [], ◌∷◌}
use native.Mathlib.Omega.{arith}
use file_syncer.Prelude.Tests.{if◌then◌else◌, is_some}
use file_syncer.Prelude.Int.{ℤ, int_eq, int_lt, int_eq_iff}
use file_syncer.Prelude.Text.{
  Text, text_eq, text_lt, text_eq_iff, text_lt_irrefl, text_lt_trans, text_lt_total,
}

-- A type of keys: its equality and `std::less`, a strict total order.
pub record Key {ℓ} (K : Type ℓ) : Type ℓ where
  pub eq : K → K → Bool
  pub eq_iff : (a b : K) → (eq a b ≡ true) ↔ (a ≡ b)
  pub lt : K → K → Bool
  pub lt_irrefl : (a : K) → lt a a ≡ false
  pub lt_trans : (a b c : K) → lt a b ≡ true → lt b c ≡ true → lt a c ≡ true
  pub lt_total : (a b : K) → lt a b ≡ false → lt b a ≡ false → a ≡ b

instance abbrev pub text_key : Key Text
text_key = record {
  eq = text_eq;
  eq_iff = text_eq_iff;
  lt = text_lt;
  lt_irrefl = text_lt_irrefl;
  lt_trans = text_lt_trans;
  lt_total = text_lt_total;
}

pub int_lt_irrefl : (a : ℤ) → int_lt a a ≡ false
int_lt_irrefl a = ground arith

pub int_lt_trans : (a b c : ℤ) → int_lt a b ≡ true → int_lt b c ≡ true → int_lt a c ≡ true
int_lt_trans a b c h k = ground arith

pub int_lt_total : (a b : ℤ) → int_lt a b ≡ false → int_lt b a ≡ false → a ≡ b
int_lt_total a b h k = ground arith

instance abbrev pub int_key : Key ℤ
int_key = record {
  eq = int_eq;
  eq_iff = int_eq_iff;
  lt = int_lt;
  lt_irrefl = int_lt_irrefl;
  lt_trans = int_lt_trans;
  lt_total = int_lt_total;
}

abbrev pub Map {ℓ κ} : Type ℓ → Type κ → Type (ℓ ⊔ κ)
Map K V = List (K × V)

module _ {ℓ κ} {K : Type ℓ} {V : Type κ} ⦃k : Key K⦄ where
  unfoldable pub find : K → Map K V → Option V
  find x [] = none
  find x ((y, v) ∷ m) = if k.eq y x then some v else find x m

  -- The place of a new key, before the first larger one.
  unfoldable pub insert_sorted : K → V → Map K V → Map K V
  insert_sorted x v [] = (x, v) ∷ []
  insert_sorted x v ((y, w) ∷ m) =
      if k.lt x y then (x, v) ∷ (y, w) ∷ m else (y, w) ∷ insert_sorted x v m

  -- `m.emplace(x, v)` leaves a key that is there as it was.
  unfoldable pub emplace : K → V → Map K V → Map K V
  unfolding find insert_sorted
  emplace x v m = if is_some (find x m) then m else insert_sorted x v m

  unfoldable pub erase : K → Map K V → Map K V
  erase x [] = []
  erase x ((y, w) ∷ m) = let rest = erase x m in if k.eq y x then rest else (y, w) ∷ rest

  -- `m.at(x) = f(m.at(x))`, where `x` is a key.
  unfoldable pub modify : K → (V → V) → Map K V → Map K V
  modify x f [] = []
  modify x f ((y, w) ∷ m) = (y, if k.eq y x then f w else w) ∷ modify x f m
