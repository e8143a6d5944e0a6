-- ===== src/Server/Alive.antt =====
-- What the heartbeats of Replica.cpp do to the replicas that a server has.
use file_syncer.Prelude.{
  not, ◌&&◌, ℕ, suc, ◌≡◌, refl, ◌∙◌, true, false, ◌||◌, List, [], ◌∷◌, arith, Bool-cases, inl, inr,
}
use file_syncer.Prelude.Int.{ℤ, int_eq}
use file_syncer.Prelude.Map.{Map, modify, int_key}
use file_syncer.Replica.{Replica, Beat, check_alive_blocking}
use file_syncer.Server.{check_all, check_rounds}

-- A replica is the same, but for its flags, and not alive again.
pub record Ages (r q : Replica) : Type 0 where
  pub same_id : q.id ≡ r.id
  pub dead : (q.is_alive && not r.is_alive) ≡ false

pub dead_same : (r : Replica) → (r.is_alive && not r.is_alive) ≡ false
dead_same r = ground arith

dead_trans :
    (r q p : Replica)
    → (q.is_alive && not r.is_alive) ≡ false
    → (p.is_alive && not q.is_alive) ≡ false
    → (p.is_alive && not r.is_alive) ≡ false
dead_trans r q p h k = ground arith

-- The same ids, and no dead replica alive again.
unfoldable pub Fewer : Map ℤ Replica → Map ℤ Replica → Type 0
Fewer [] [] = Unit {0}
Fewer [] (q ∷ qs) = true ≡ false
Fewer (r ∷ rs) [] = true ≡ false
Fewer ((i, r) ∷ rs) ((j, q) ∷ qs) = (j ≡ i) × Ages r q × Fewer rs qs

pub Fewer-refl : (m : Map ℤ Replica) → Fewer m m
unfolding Fewer
Fewer-refl [] = tt
Fewer-refl ((i, r) ∷ m) = (refl, record { same_id = refl; dead = dead_same r }, Fewer-refl m)

pub Fewer-trans : (a b d : Map ℤ Replica) → Fewer a b → Fewer b d → Fewer a d
unfolding Fewer
Fewer-trans [] [] [] h k = tt
Fewer-trans [] [] (q ∷ d) h k = k
Fewer-trans [] (q ∷ b) d h k = cc
Fewer-trans (r ∷ a) [] d h k = cc
Fewer-trans (r ∷ a) (q ∷ b) [] h k = k
Fewer-trans ((i, r) ∷ a) ((j, q) ∷ b) ((l, p) ∷ d) h k = (
  k.0 ∙ h.0,
  record { same_id = k.1.same_id ∙ h.1.same_id; dead = dead_trans r q p h.1.dead k.1.dead },
  Fewer-trans a b d h.2 k.2,
)

pub check_alive_blocking-Ages : (b : Beat) (r : Replica) → Ages r (check_alive_blocking b r).1
unfolding check_alive_blocking
check_alive_blocking-Ages b r = record { same_id = ground arith; dead = ground arith }

pub check_all-Fewer : (beat : ℤ → Beat) (m : Map ℤ Replica) → Fewer m (check_all beat m)
unfolding Fewer check_all
check_all-Fewer beat [] = tt
check_all-Fewer beat ((i, r) ∷ m) =
    (refl, check_alive_blocking-Ages (beat i) r, check_all-Fewer beat m)

pub modify-Fewer :
    (i : ℤ) (f : Replica → Replica) (m : Map ℤ Replica)
    → ((r : Replica) → Ages r (f r))
    → Fewer m (modify i f m)
unfolding Fewer modify
modify-Fewer i f [] h = tt
modify-Fewer i f ((j, r) ∷ m) h = (
  refl,
  elim (Bool-cases (int_eq j i)) [
    | inl e ↦ rw e (h r)
    | inr e ↦ rw e (record { same_id = refl; dead = dead_same r })
  ],
  modify-Fewer i f m h,
)

pub check_rounds-Fewer :
    (beats : ℕ → ℤ → Beat) (a b : ℤ) (is : List ℤ) (k : ℕ) (m : Map ℤ Replica)
    → Fewer m (check_rounds beats a b is k m)
unfolding check_rounds
check_rounds-Fewer beats a b [] k m = Fewer-refl m
check_rounds-Fewer beats a b (i ∷ is) k m = elim (Bool-cases (int_eq i a || int_eq i b)) [
  | inl e ↦ rw e (check_rounds-Fewer beats a b is k m)
  | inr e ↦ rw e (
      Fewer-trans m (check_all (beats k) m) _ (check_all-Fewer (beats k) m)
        (check_rounds-Fewer beats a b is (suc k) (check_all (beats k) m)))
]
