-- ===== src/Lock/Tests.antt =====
-- A run of RwLock.h: a reader waits for the value 1, and a writer sets it.
use file_syncer.Prelude.{ℕ, refl, none, [], ◌∷◌, ◌==◌}
use file_syncer.Lock.{
  Lock, new_lock, steps, Op, lock_shared_op, wait_op, lock_op, get_op, modify_op, unlock_op,
  take_again_op,
}
use file_syncer.Lock.Calm.{IsCalm, steps-IsCalm-new_lock}

abbrev is_one : Op ℕ
is_one = wait_op (λ n. n == 1)

abbrev after : Lock ℕ
after = record { value = 1; readers = 1; writer = none; sleeping = []; woken = [] }

steps-IsCalm-new_lock_example : IsCalm after
unfolding steps new_lock
steps-IsCalm-new_lock_example =
    steps-IsCalm-new_lock 0
      (lock_shared_op ∷ is_one ∷ lock_op ∷ get_op ∷ modify_op 1 ∷ unlock_op ∷ take_again_op 0 ∷ [])
      after refl
