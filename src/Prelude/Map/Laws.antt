-- ===== src/Prelude/Map/Laws.antt =====
-- What `find` gives after each operation of a map.
use mathlib.Core.Path.{◌≡◌, refl}
use mathlib.Core.Bool.{true}
use mathlib.Core.Option.{Option, none, some}
use mathlib.Core.Option
use mathlib.Core.List.{[], ◌∷◌}
use native.Mathlib.Omega.{arith}
use file_syncer.Prelude.Tests.{if◌then◌else◌}
use file_syncer.Prelude.Map.{Key, Map, find, insert_sorted, emplace, erase, modify}

-- The value that `emplace` leaves at its key.
abbrev pub kept_or {κ} : {V : Type κ} → Option V → V → V
kept_or none v = v
kept_or (some w) v = w

pub eq_refl {ℓ} : {K : Type ℓ} ⦃k : Key K⦄ (x : K) → k.eq x x ≡ true
eq_refl ⦃k⦄ x = (k.eq_iff x x).1 refl

module _ {ℓ κ} {K : Type ℓ} {V : Type κ} ⦃k : Key K⦄ where
  pub find-nil : (x : K) → find {V = V} x [] ≡ none
  unfolding find
  find-nil x = refl

  find-insert_sorted :
      (x j : K) (v : V) (m : Map K V)
      → find x m ≡ none
      → find j (insert_sorted x v m) ≡ (if k.eq x j then some v else find j m)
  unfolding find insert_sorted
  find-insert_sorted x j v [] h = refl
  find-insert_sorted x j v ((y, w) ∷ m) h =
      ground (arith, k.eq_iff x j, k.eq_iff y x, k.eq_iff y j, find-insert_sorted x j v m)

  -- `emplace` sets an absent key and leaves a present one.
  pub find-emplace :
      (x j : K) (v : V) (m : Map K V)
      → find j (emplace x v m) ≡ (if k.eq x j then some (kept_or (find x m) v) else find j m)
  unfolding emplace
  find-emplace x j v m = ground (arith, k.eq_iff x j, find-insert_sorted x j v m)

  pub find-erase :
      (x j : K) (m : Map K V) → find j (erase x m) ≡ (if k.eq x j then none else find j m)
  unfolding find erase
  find-erase x j [] = ground arith
  find-erase x j ((y, w) ∷ m) =
      ground (arith, k.eq_iff x j, k.eq_iff y x, k.eq_iff y j, find-erase x j m)

  pub find-modify :
      (x j : K) (f : V → V) (m : Map K V)
      → find j (modify x f m) ≡ (if k.eq x j then Option.map f (find j m) else find j m)
  unfolding find modify
  find-modify x j f [] = ground arith
  find-modify x j f ((y, w) ∷ m) =
      ground (arith, k.eq_iff x j, k.eq_iff y x, k.eq_iff y j, find-modify x j f m)

pub ruleset map_laws = (find-emplace, find-erase, find-modify, eq_refl)
