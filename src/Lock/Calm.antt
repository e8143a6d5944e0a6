-- ===== src/Lock/Calm.antt =====
-- That the lock of RwLock.h keeps readers and writers apart, and that no reader sleeps through a change that
-- it waits for.
use file_syncer.Prelude.{
  ℕ, zero, suc, ◌≡◌, refl, Bool, true, false, not, ◌&&◌, Option, none, some, is_some, List, [], ◌∷◌,
  ◌==◌, arith,
}
use file_syncer.Lock.{
  Lock, new_lock, lock_shared, unlock_shared, wait, pick, take_again, look_again, wake_spuriously,
  wake_one, wake_spuriously_op, notify, lock, unlock, get, modify, set, Op, lock_shared_op,
  unlock_shared_op, take_again_op, lock_op, unlock_op, get_op, wait_op, modify_op, set_op, step,
  steps,
}

-- Whether none of the predicates holds.
abbrev pub none_holds : {A : Type 0} → A → List (A → Bool) → Bool
none_holds a [] = true
none_holds a (p ∷ ps) = not (p a) && none_holds a ps

abbrev pub is_nil : {A : Type 0} → List A → Bool
is_nil [] = true
is_nil (a ∷ as') = false

-- While a writer holds the reference, nobody sleeps; else no sleeper's predicate holds. A writer is alone.
abbrev pub calm : {A : Type 0} → A → ℕ → Option Bool → List (A → Bool) → Bool
calm a n none ps = none_holds a ps
calm a n (some true) ps = n == 0 && is_nil ps
calm a n (some false) ps = n == 0 && none_holds a ps

abbrev pub IsCalm : {A : Type 0} → Lock A → Type 0
IsCalm l = calm l.value l.readers l.writer l.sleeping ≡ true

abbrev calm_after : {A : Type 0} → Option (Lock A) → Bool
calm_after none = true
calm_after (some l) = calm l.value l.readers l.writer l.sleeping

-- Of the ones that `pick` leaves.
abbrev others_hold : {A : Type 0} → A → Option ((A → Bool) × List (A → Bool)) → Bool
others_hold a none = true
others_hold a (some (p, ps)) = none_holds a ps

others_hold-cons :
    {A : Type 0} (a : A) (q : A → Bool) (o : Option ((A → Bool) × List (A → Bool)))
    → q a ≡ false
    → others_hold a o ≡ true
    → others_hold a (elim o [ none ↦ none | some (p, ps) ↦ some (p, q ∷ ps) ]) ≡ true
others_hold-cons a q none h k = refl
others_hold-cons a q (some (p, ps)) h k = ground arith

others_hold-pick :
    {A : Type 0} (a : A) (i : ℕ) (ps : List (A → Bool))
    → none_holds a ps ≡ true
    → others_hold a (pick i ps) ≡ true
unfolding pick
others_hold-pick a i [] h = refl
others_hold-pick a zero (q ∷ ps) h = ground arith
others_hold-pick a (suc i) (q ∷ ps) h =
    others_hold-cons a q (pick i ps) (ground arith) (others_hold-pick a i ps (ground arith))

pick-nil :
    {A : Type 0} (i : ℕ) (ps : List (A → Bool)) → is_nil ps ≡ true → is_some (pick i ps) ≡ false
unfolding pick
pick-nil i [] h = refl
pick-nil i (p ∷ ps) h = cc

look_again-calm :
    {A : Type 0} (o : Option ((A → Bool) × List (A → Bool))) (l : Lock A)
    → l.writer ≡ none
    → IsCalm l
    → calm_after (look_again o l) ≡ true
unfolding look_again
look_again-calm none l e h = refl
look_again-calm (some (p, woken)) l e h = ground arith

wake_one-calm :
    {A : Type 0} (o : Option ((A → Bool) × List (A → Bool))) (l : Lock A)
    → (none_holds l.value l.sleeping ≡ true → others_hold l.value o ≡ true)
    → (is_nil l.sleeping ≡ true → is_some o ≡ false)
    → IsCalm l
    → calm_after (wake_one o l) ≡ true
unfolding wake_one
wake_one-calm none l f g h = refl
wake_one-calm (some (p, sleeping)) l f g h = ground (arith, f, g)

take_again-calm : {A : Type 0} (i : ℕ) (l : Lock A) → IsCalm l → calm_after (take_again i l) ≡ true
unfolding take_again
take_again-calm i l h = go l.writer refl
  where
    go :
        (w : Option Bool)
        → l.writer ≡ w
        → calm_after (elim w [ none ↦ look_again (pick i l.woken) l | some got ↦ none ]) ≡ true
    go none e = look_again-calm (pick i l.woken) l e h
    go (some got) e = refl

step-IsCalm : {A : Type 0} (op : Op A) (l : Lock A) → IsCalm l → calm_after (step op l) ≡ true
unfolding step lock_shared unlock_shared wait take_again look_again wake_spuriously wake_one notify
    lock unlock get modify set
step-IsCalm lock_shared_op l h = ground arith
step-IsCalm unlock_shared_op l h = ground arith
step-IsCalm lock_op l h = ground arith
step-IsCalm unlock_op l h = ground arith
step-IsCalm get_op l h = ground arith
step-IsCalm (take_again_op i) l h = take_again-calm i l h
step-IsCalm (wake_spuriously_op i) l h =
    wake_one-calm (pick i l.sleeping) l (others_hold-pick l.value i l.sleeping)
      (pick-nil i l.sleeping) h
step-IsCalm (wait_op p) l h = ground arith
step-IsCalm (modify_op a) l h = ground arith
step-IsCalm (set_op a) l h = ground arith

steps-IsCalm :
    {A : Type 0} (ops : List (Op A)) (l m : Lock A) → IsCalm l → steps ops l ≡ some m → IsCalm m
unfolding steps
steps-IsCalm [] l m h e = ground (arith, e)
steps-IsCalm {A} (op ∷ ops) l m h e =
    go (λ l' k. steps-IsCalm ops l' m k) (step op l) (step-IsCalm op l h) e
  where
    go :
        ((l' : Lock A) → IsCalm l' → steps ops l' ≡ some m → IsCalm m)
        → (o : Option (Lock A)) → calm_after o ≡ true
        → elim o [ none ↦ none | some l' ↦ steps ops l' ] ≡ some m
        → IsCalm m
    go next none k e = cc
    go next (some l') k e = next l' k e

-- However the steps of readers and writers follow one another, from a new lock on, the lock is calm:
-- while there is a writer no reader has the lock, and no reader sleeps whose condition the value
-- meets, although `get` notifies before the writer changes the value.
pub steps-IsCalm-new_lock :
    {A : Type 0} (a : A) (ops : List (Op A)) (m : Lock A)
    → steps ops (new_lock a) ≡ some m
    → IsCalm m
unfolding new_lock
steps-IsCalm-new_lock a ops m e = steps-IsCalm ops (new_lock a) m refl e
