-- ===== src/Prelude/Map/Order.antt =====
-- The entries of a map stay in the order of their keys, each key once.
use mathlib.Core.Path.{◌≡◌}
use mathlib.Core.Bool.{true}
use mathlib.Core.List.{[], ◌∷◌}
use native.Mathlib.Omega.{arith}
use file_syncer.Prelude.Map.{Key, Map, insert_sorted, emplace, erase, modify, find}

module _ {ℓ κ} {K : Type ℓ} {V : Type κ} ⦃k : Key K⦄ where
  abbrev pub Above : K → Map K V → Type 0
  Above x [] = Unit
  Above x ((y, w) ∷ m) = (k.lt x y ≡ true) × Above x m

  abbrev pub IsSorted : Map K V → Type 0
  IsSorted [] = Unit
  IsSorted ((y, w) ∷ m) = Above y m × IsSorted m

  Above-trans : (x y : K) (m : Map K V) → k.lt x y ≡ true → Above y m → Above x m
  Above-trans x y [] h a = tt
  Above-trans x y ((z, w) ∷ m) h a = (k.lt_trans x y z h a.0, Above-trans x y m h a.1)

  insert_sorted-Above :
      (x y : K) (v : V) (m : Map K V) → k.lt y x ≡ true → Above y m → Above y (insert_sorted x v m)
  unfolding insert_sorted
  insert_sorted-Above x y v [] h a = (h, tt)
  insert_sorted-Above x y v ((z, w) ∷ m) h a = ground (arith, insert_sorted-Above x y v m h a.1)

  insert_sorted-IsSorted :
      (x : K) (v : V) (m : Map K V)
      → find x m ≡ find x []
      → IsSorted m
      → IsSorted (insert_sorted x v m)
  unfolding insert_sorted find
  insert_sorted-IsSorted x v [] e s = (tt, tt)
  insert_sorted-IsSorted x v ((y, w) ∷ m) e s = ground (
    arith,
    k.lt_total x y,
    k.eq_iff y x,
    Above-trans x y m,
    insert_sorted-Above x y v m,
    insert_sorted-IsSorted x v m,
  )

  pub emplace-IsSorted : (x : K) (v : V) (m : Map K V) → IsSorted m → IsSorted (emplace x v m)
  unfolding emplace
  emplace-IsSorted x v m s = ground (arith, insert_sorted-IsSorted x v m)

  erase-Above : (x y : K) (m : Map K V) → Above y m → Above y (erase x m)
  unfolding erase
  erase-Above x y [] a = tt
  erase-Above x y ((z, w) ∷ m) a = ground (arith, erase-Above x y m a.1)

  pub erase-IsSorted : (x : K) (m : Map K V) → IsSorted m → IsSorted (erase x m)
  unfolding erase
  erase-IsSorted x [] s = tt
  erase-IsSorted x ((y, w) ∷ m) s = ground (arith, erase-Above x y m s.0, erase-IsSorted x m s.1)

  modify-Above : (x y : K) (f : V → V) (m : Map K V) → Above y m → Above y (modify x f m)
  unfolding modify
  modify-Above x y f [] a = tt
  modify-Above x y f ((z, w) ∷ m) a = (a.0, modify-Above x y f m a.1)

  pub modify-IsSorted : (x : K) (f : V → V) (m : Map K V) → IsSorted m → IsSorted (modify x f m)
  unfolding modify
  modify-IsSorted x f [] s = tt
  modify-IsSorted x f ((y, w) ∷ m) s = (modify-Above x y f m s.0, modify-IsSorted x f m s.1)
