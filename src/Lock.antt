-- ===== src/Lock.antt =====
-- src/common/RwLock.h: SharedData with ReadLock and WriteLock, as the state of a `std::shared_mutex` and a
-- `std::condition_variable_any`, of which their documented behaviour is taken. `getPtr` and `setPtr`,
-- which the program does not call, and the `wait` of a WriteLock, which it does not call, are left out.
pub mod Calm
mod Tests
use file_syncer.Prelude.{
  ℕ, zero, suc, Bool, true, false, Option, none, some, List, [], ◌∷◌, ◌++◌, if◌then◌else◌,
}

-- `writer` is whether the writer has had the reference of `get`, where there is one. `sleeping` has
-- the predicates of the readers that wait, and `woken` those of the ones that are to take the lock again.
pub record Lock (A : Type 0) : Type 0 where
  pub value : A
  pub readers : ℕ
  pub writer : Option Bool
  pub sleeping : List (A → Bool)
  pub woken : List (A → Bool)

-- The element at a place, and the others.
unfoldable pub pick : {A : Type 0} → ℕ → List A → Option (A × List A)
pick i [] = none
pick zero (a ∷ as') = some (a, as')
pick (suc i) (a ∷ as') = elim (pick i as') [ none ↦ none | some (b, bs) ↦ some (b, a ∷ bs) ]

module _ {A : Type 0} where
  unfoldable pub new_lock : A → Lock A
  new_lock a = record { value = a; readers = 0; writer = none; sleeping = []; woken = [] }

  -- The constructor of a ReadLock; `none` while it blocks.
  unfoldable pub lock_shared : Lock A → Option (Lock A)
  lock_shared l = elim l.writer [
    | none ↦ some (record l { readers = suc l.readers })
    | some got ↦ none
  ]

  unfoldable pub unlock_shared : Lock A → Option (Lock A)
  unlock_shared l = elim l.readers [ zero ↦ none | suc n ↦ some (record l { readers = n }) ]

  -- `wait` of a reader: it goes on, or gives the lock back and sleeps.
  unfoldable pub wait : (A → Bool) → Lock A → Option (Lock A)
  wait p l = elim l.readers [
    | zero ↦ none
    | suc n ↦
        if p l.value then some l else some (record l { readers = n; sleeping = p ∷ l.sleeping })
  ]

  -- The waiting reader that `pick` gives takes the lock, looks, and goes on or sleeps again.
  unfoldable pub look_again : Option ((A → Bool) × List (A → Bool)) → Lock A → Option (Lock A)
  look_again none l = none
  look_again (some (p, woken)) l =
      if p l.value
      then some (record l { readers = suc l.readers; woken = woken })
      else some (record l { sleeping = p ∷ l.sleeping; woken = woken })

  -- A reader that was woken, the one at this place.
  unfoldable pub take_again : ℕ → Lock A → Option (Lock A)
  unfolding pick look_again
  take_again i l = elim l.writer [ none ↦ look_again (pick i l.woken) l | some got ↦ none ]

  unfoldable pub wake_one : Option ((A → Bool) × List (A → Bool)) → Lock A → Option (Lock A)
  wake_one none l = none
  wake_one (some (p, sleeping)) l = some (record l { sleeping = sleeping; woken = p ∷ l.woken })

  -- A sleeper that wakes without a reason.
  unfoldable pub wake_spuriously : ℕ → Lock A → Option (Lock A)
  unfolding pick wake_one
  wake_spuriously i l = wake_one (pick i l.sleeping) l

  -- `notify_all`.
  unfoldable pub notify : Lock A → Lock A
  notify l = record l { sleeping = []; woken = l.woken ++ l.sleeping }

  -- The constructor of a WriteLock, and its end.
  unfoldable pub lock : Lock A → Option (Lock A)
  lock l = elim l.writer [
    | some got ↦ none
    | none ↦ elim l.readers [ zero ↦ some (record l { writer = some false }) | suc n ↦ none ]
  ]

  unfoldable pub unlock : Lock A → Option (Lock A)
  unlock l = elim l.writer [ none ↦ none | some got ↦ some (record l { writer = none }) ]

  -- `get` notifies before it gives the reference out.
  unfoldable pub get : Lock A → Option (Lock A)
  unfolding notify
  get l = elim l.writer [ none ↦ none | some got ↦ some (record (notify l) { writer = some true }) ]

  -- A change through the reference that `get` has given.
  unfoldable pub modify : A → Lock A → Option (Lock A)
  modify a l = elim l.writer [
    | none ↦ none
    | some got ↦ if got then some (record l { value = a }) else none
  ]

  unfoldable pub set : A → Lock A → Option (Lock A)
  unfolding notify
  set a l = elim l.writer [ none ↦ none | some got ↦ some (notify (record l { value = a })) ]

-- One step of one of the threads.
pub data Op (A : Type 0) : Type 0 where
  lock_shared_op unlock_shared_op lock_op unlock_op get_op : Op A
  take_again_op wake_spuriously_op : ℕ → Op A
  wait_op : (A → Bool) → Op A
  modify_op set_op : A → Op A

unfoldable pub step : {A : Type 0} → Op A → Lock A → Option (Lock A)
unfolding lock_shared unlock_shared take_again wake_spuriously lock unlock get wait modify set
step lock_shared_op l = lock_shared l
step unlock_shared_op l = unlock_shared l
step (take_again_op i) l = take_again i l
step (wake_spuriously_op i) l = wake_spuriously i l
step lock_op l = lock l
step unlock_op l = unlock l
step get_op l = get l
step (wait_op p) l = wait p l
step (modify_op a) l = modify a l
step (set_op a) l = set a l

-- Steps of all threads, in the order in which they happen; `none` where one of them cannot.
unfoldable pub steps : {A : Type 0} → List (Op A) → Lock A → Option (Lock A)
unfolding step
steps [] l = some l
steps (op ∷ ops) l = elim (step op l) [ none ↦ none | some l' ↦ steps ops l' ]
