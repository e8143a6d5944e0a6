-- ===== src/Transaction/Frame.antt =====
-- What running and rolling back a transaction leaves alone, on every path.
use file_syncer.Prelude.{◌≡◌, refl, ◌∙◌, Bool, true, false, Option, none, some}
use file_syncer.Disk.{Disk}
use file_syncer.Config.{Config}
use file_syncer.ServerState.{ServerState}
use file_syncer.Transaction.Monad.{
  Payload, Transaction, World, Outcome, returned, thrown, undefined, Action, ◌>>=◌, pure, throw,
  when, choose◌then◌else◌, try◌catch◌, get_tx, set_tx, get_work, set_work, get_disk, set_disk,
  try_disk,
}
use file_syncer.Transaction.{
  begin, rollback_hook, rollback, execute, prepare_commit, work, run, force_rollback,
}

-- The shared state, and what a transaction is.
abbrev pub Kept : World → World → Type 0
Kept v w =
    (w.shared ≡ v.shared)
    × (w.tx.payload ≡ v.tx.payload)
    × (w.tx.tid ≡ v.tx.tid)
    × (w.tx.is_committed ≡ v.tx.is_committed)

abbrev pub KeptBy : {A : Type 0} → World → Outcome A → Type 0
KeptBy v (returned a w) = Kept v w
KeptBy v (thrown w) = Kept v w
KeptBy v undefined = Unit

record Frames {A : Type 0} (v : World) (m : Action A) : Type 0 where
  at : (w : World) → Kept v w → KeptBy v (m w)

module _ (v : World) {A : Type 0} where
  Frames-pure : (a : A) → Frames v (pure a)
  Frames-pure a = record { at = λ w h. h }

  Frames-throw : Frames v (throw {A = A})
  Frames-throw = record { at = λ w h. h }

  Frames-get_tx : (f : Transaction → A) → Frames v (get_tx f)
  Frames-get_tx f = record { at = λ w h. h }

  Frames-get_disk : (f : Disk → A) → Frames v (get_disk f)
  Frames-get_disk f = record { at = λ w h. h }

  got :
      (f : ServerState → A) (w : World) (o : Option ServerState)
      → Kept v w
      → w.tx.work_state ≡ o
      → KeptBy v (get_work f w)
  got f w none h e = rw (e, get_work) tt
  got f w (some s) h e = rw (e, get_work) h

  Frames-get_work : (f : ServerState → A) → Frames v (get_work f)
  Frames-get_work f = record { at = λ w h. got f w w.tx.work_state h refl }

  caught :
      (o : Outcome A) (h : Action A) → KeptBy v o → Frames v h → KeptBy v (try◌catch◌ (λ w. o) h v)
  caught (returned a w) h k f = k
  caught (thrown w) h k f = f.at w k
  caught undefined h k f = tt

  Frames-try : (m h : Action A) → Frames v m → Frames v h → Frames v (try◌catch◌ m h)
  Frames-try m h km kh = record { at = λ w k. caught (m w) h (km.at w k) kh }

  Frames-if :
      (b : Bool) (m n : Action A) → Frames v m → Frames v n → Frames v (choose b then m else n)
  Frames-if true m n km kn = km
  Frames-if false m n km kn = kn

module _ (v : World) where
  Frames-when : (b : Bool) (m : Action Unit) → Frames v m → Frames v (when b m)
  Frames-when true m k = k
  Frames-when false m k = Frames-pure v tt

  Frames-set_tx :
      (f : Transaction → Transaction)
      → ((t : Transaction)
          → ((f t).payload ≡ t.payload)
            × ((f t).tid ≡ t.tid)
            × ((f t).is_committed ≡ t.is_committed))
      → Frames v (set_tx f)
  Frames-set_tx f k = record {
    at = λ w h. (h.0, (k w.tx).0 ∙ h.1, (k w.tx).1 ∙ h.2, (k w.tx).2 ∙ h.3);
  }

  Frames-began : Frames v (set_tx (λ t. record t { has_began = true }))
  Frames-began = Frames-set_tx _ (λ t. (refl, refl, refl))

  Frames-rolled : Frames v (set_tx (λ t. record t { has_rollback = true }))
  Frames-rolled = Frames-set_tx _ (λ t. (refl, refl, refl))

  Frames-deleted : Frames v (set_tx (λ t. record t { work_state = none }))
  Frames-deleted = Frames-set_tx _ (λ t. (refl, refl, refl))

  Frames-prepared : Frames v (set_tx (λ t. record t { is_prepared = true }))
  Frames-prepared = Frames-set_tx _ (λ t. (refl, refl, refl))

  set_back :
      (f : ServerState → ServerState) (w : World) (o : Option ServerState)
      → Kept v w
      → w.tx.work_state ≡ o
      → KeptBy v (set_work f w)
  set_back f w none h e = rw (e, set_work) tt
  set_back f w (some s) h e = rw (e, set_work) h

  Frames-set_work : (f : ServerState → ServerState) → Frames v (set_work f)
  Frames-set_work f = record { at = λ w h. set_back f w w.tx.work_state h refl }

  Frames-set_disk : (f : Disk → Disk) → Frames v (set_disk f)
  Frames-set_disk f = record { at = λ w h. h }

  tried :
      (f : Disk → Option Disk) (w : World) (o : Option Disk)
      → Kept v w
      → f w.disk ≡ o
      → KeptBy v (try_disk f w)
  tried f w none h e = rw (e, try_disk) h
  tried f w (some d) h e = rw (e, try_disk) h

  Frames-try_disk : (f : Disk → Option Disk) → Frames v (try_disk f)
  Frames-try_disk f = record { at = λ w h. tried f w (f w.disk) h refl }

module _ (v : World) {A B : Type 0} where
  after :
      (o : Outcome A) (f : A → Action B)
      → KeptBy v o
      → ((a : A) → Frames v (f a))
      → KeptBy v (◌>>=◌ (λ w. o) f v)
  after (returned a w) f h k = (k a).at w h
  after (thrown w) f h k = h
  after undefined f h k = tt

  Frames-bind :
      (m : Action A) (f : A → Action B)
      → Frames v m
      → ((a : A) → Frames v (f a))
      → Frames v (m >>= f)
  Frames-bind m f km kf = record { at = λ w h. after (m w) f (km.at w h) kf }

ruleset frame_rules = (
  Frames-pure, Frames-throw, Frames-get_tx, Frames-get_disk, Frames-get_work, Frames-try, Frames-if,
  Frames-when, Frames-began, Frames-rolled, Frames-deleted, Frames-prepared, Frames-set_work,
  Frames-set_disk, Frames-try_disk, Frames-bind,
)

module _ (c : Config) (v : World) where
  Frames-rollback_hook : (p : Payload) → Frames v (rollback_hook c p)
  unfolding rollback_hook
  Frames-rollback_hook (Payload.file_change username filename deleted content) = search frame_rules
  Frames-rollback_hook _ = search frame_rules

  Frames-rollback : Frames v (rollback c)
  unfolding rollback
  Frames-rollback = search (frame_rules, Frames-rollback_hook) depth 12

  Frames-execute : (p : Payload) → Frames v (execute c p)
  unfolding execute
  Frames-execute (Payload.create_user username password) =
      search (frame_rules, Frames-rollback) depth 12
  Frames-execute (Payload.create_session session_id username) =
      search (frame_rules, Frames-rollback) depth 12
  Frames-execute (Payload.remove_session session_id) =
      search (frame_rules, Frames-rollback) depth 12
  Frames-execute (Payload.file_change username filename true content) =
      search (frame_rules, Frames-rollback) depth 12
  Frames-execute (Payload.file_change username filename false content) = search frame_rules depth 12
  Frames-execute (Payload.new_frontend hostname port) = search frame_rules

  Frames-work : Frames v (work c)
  unfolding work
  Frames-work = search (frame_rules, Frames-execute) depth 12

  Frames-run : Frames v (run c)
  unfolding run begin prepare_commit
  Frames-run = search (frame_rules, Frames-work, Frames-rollback) depth 12

  Frames-force_rollback : Frames v (force_rollback c)
  unfolding force_rollback
  Frames-force_rollback = search (frame_rules, Frames-rollback) depth 12

-- Whatever the transaction is and however it ends, running it leaves the shared state, the
-- transaction's members and its id as they were, and commits nothing.
pub run-Kept : (c : Config) (w : World) → KeptBy w (run c w)
run-Kept c w = (Frames-run c w).at w (refl, refl, refl, refl)

-- So does a forced rollback: what others see of the state changes in `commit` alone.
pub force_rollback-Kept : (c : Config) (w : World) → KeptBy w (force_rollback c w)
force_rollback-Kept c w = (Frames-force_rollback c w).at w (refl, refl, refl, refl)
