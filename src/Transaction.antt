-- ===== src/Transaction.antt =====
-- src/server/transactions/Transaction.h and .cpp, with the hooks and `execute` of the five derived
-- classes. A virtual call is a dispatch on `Payload`. Messages to the terminal are left out.
pub mod Monad
pub mod Frame
pub mod Verdict
pub mod FileChange
pub mod NewUser
pub mod NewUserCommit
mod Tests
use file_syncer.Prelude.{
  Bool, true, false, not, ◌||◌, Option, none, some, [], ◌∷◌, ◌++◌, length, if◌then◌else◌,
}
use file_syncer.Prelude.Int.{ℤ, pos, to_int}
use file_syncer.Prelude.Text.{Text, bytes, is_empty}
use file_syncer.Config.{Config, get_user_dir, get_file_path, get_tid_path}
use file_syncer.Utils.{get_file_digest, digest_to_string}
use file_syncer.Utils.Decimal.{show_int}
use file_syncer.ServerState.{
  ServerState, UserFile, is_valid, has_user, is_session_valid, get_user_from_session, add_session,
  remove_session, add_user, set_user_last_tid, set_last_tid, has_file, remove_file, update_file,
  add_file, add_frontend,
}
use file_syncer.ServerState
use file_syncer.Disk.{
  Disk, exists, read_file, write_file, create_directory, remove, remove_all, rename,
}
use file_syncer.Disk.Paths.{temp}
use Monad.{
  Payload, Transaction, World, Action, ◌>>=◌, ◌>>◌, pure, throw, when, choose◌then◌else◌,
  try◌catch◌, get_tx, set_tx, get_work, set_work, get_disk, set_disk, try_disk, returned, undefined,
}

-- A constructor of a derived class; `tid` is not initialised there and is given by `setTid` or
-- `deserialize` before it is read.
unfoldable pub new_transaction : Payload → Transaction
new_transaction p = record {
  payload = p;
  tid = pos 0;
  work_state = none;
  has_rollback = false;
  is_committed = false;
  has_began = false;
  is_prepared = false;
}

pub data TransactionStatus : Type 0 where
  committed rollback_done prepared running not_running : TransactionStatus

unfoldable pub get_status : Transaction → TransactionStatus
get_status t = elim t.is_committed [
  | true ↦ committed
  | false ↦ elim t.has_rollback [
    | true ↦ rollback_done
    | false ↦ elim t.is_prepared [
      | true ↦ prepared
      | false ↦ elim t.has_began [ true ↦ running | false ↦ not_running ]
    ]
  ]
]

-- The copy of the state that the transaction works on.
unfoldable pub set_state : Action (Unit {0})
set_state w = returned tt (record w { tx = record w.tx { work_state = some w.shared } })

module _ (c : Config) where
  unfoldable pub begin : Action (Unit {0})
  begin = do
    set_tx (λ t. record t { has_began = true })
    tid ← get_tx (λ t. t.tid)
    set_disk (write_file (temp (get_tid_path c)) (show_int tid))

  unfoldable pub commit_hook : Payload → Action (Unit {0})
  commit_hook (Payload.create_user username password) =
      try_disk (rename (temp (get_user_dir c username)) (get_user_dir c username))
  commit_hook (Payload.file_change username filename deleted content) =
      let filepath = get_file_path c username filename in
      choose deleted
      then try_disk (remove (temp filepath))
      else try_disk (rename (temp filepath) filepath)
  commit_hook other = pure tt

  -- `CreateUserTransaction::rollbackHook` reaches the static `getUserDir` through the work state.
  unfoldable pub rollback_hook : Payload → Action (Unit {0})
  rollback_hook (Payload.create_user username password) =
      set_disk (remove_all (temp (get_user_dir c username)))
  rollback_hook (Payload.file_change username filename deleted content) =
      let filepath = get_file_path c username filename in
      do
        there ← get_disk (λ d. exists d (temp filepath))
        when there (
            choose deleted
            then try_disk (rename (temp filepath) filepath)
            else try_disk (remove (temp filepath)))
  rollback_hook other = pure tt

  -- `delete work_state_` is the last statement.
  unfoldable pub rollback : Action (Unit {0})
  unfolding rollback_hook
  rollback = do
    began ← get_tx (λ t. t.has_began)
    done ← get_tx (λ t. t.has_rollback)
    when began (
        when (not done) (do
          set_tx (λ t. record t { has_rollback = true })
          try_disk (remove (temp (get_tid_path c)))
          payload ← get_tx (λ t. t.payload)
          rollback_hook payload
          set_tx (λ t. record t { work_state = none })))

  -- CreateUserTransaction::execute: neither `rollback` ends it.
  unfoldable pub execute_create_user : Text → Text → Action (Unit {0})
  execute_create_user username password = do
    when (is_empty username || is_empty password) rollback
    taken ← get_work (λ s. has_user s username)
    when taken rollback
    set_work (add_user username password)
    tid ← get_tx (λ t. t.tid)
    set_work (set_user_last_tid username tid)
    try_disk (create_directory (temp (get_user_dir c username)))
    set_disk (write_file (temp (get_user_dir c username) ++ bytes "/.password") password)

  -- CreateSessionTransaction::execute: neither `rollback` ends it.
  unfoldable pub execute_create_session : ℤ → Text → Action (Unit {0})
  execute_create_session session_id username = do
    valid ← get_work (λ s. is_session_valid s session_id)
    when valid rollback
    known ← get_work (λ s. has_user s username)
    when (not known) rollback
    set_work (add_session session_id username)
    tid ← get_tx (λ t. t.tid)
    set_work (set_user_last_tid username tid)

  unfoldable pub execute_remove_session : ℤ → Action (Unit {0})
  execute_remove_session session_id = do
    valid ← get_work (λ s. is_session_valid s session_id)
    choose not valid then rollback else do
      set_work (remove_session session_id)
      tid ← get_tx (λ t. t.tid)
      set_work (λ s. set_user_last_tid (get_user_from_session s session_id) tid s)

  unfoldable pub execute_delete : Text → Text → Action (Unit {0})
  execute_delete username filename =
      let filepath = get_file_path c username filename in
      do
        there ← get_work (λ s. has_file s username filename)
        choose there
            then (do
              set_work (remove_file username filename)
              try_disk (rename filepath (temp filepath)))
            else rollback

  -- The record that the new content gets; `deleted` is value-initialised.
  unfoldable pub file_record : Text → ℤ → Text → Disk → Text → UserFile
  file_record filename tid filepath d content = record {
    filename = filename;
    hash = digest_to_string (get_file_digest c.xxh64 (read_file d (temp filepath)));
    last_tid = tid;
    size = to_int (pos (length content));
    deleted = false;
  }

  unfoldable pub execute_update : Text → Text → Text → Action (Unit {0})
  unfolding file_record
  execute_update username filename content =
      let filepath = get_file_path c username filename in
      do
        set_disk (write_file (temp filepath) content)
        tid ← get_tx (λ t. t.tid)
        f ← get_disk (λ d. file_record filename tid filepath d content)
        there ← get_work (λ s. has_file s username filename)
        set_work (if there then update_file username filename f else add_file username filename f)

  unfoldable pub execute : Payload → Action (Unit {0})
  unfolding execute_create_user execute_create_session execute_remove_session execute_delete
      execute_update
  execute (Payload.create_user username password) = execute_create_user username password
  execute (Payload.create_session session_id username) = execute_create_session session_id username
  execute (Payload.remove_session session_id) = execute_remove_session session_id
  execute (Payload.file_change username filename true content) = execute_delete username filename
  execute (Payload.file_change username filename false content) =
      execute_update username filename content
  execute (Payload.new_frontend hostname port) = set_work (add_frontend hostname port)

  unfoldable pub prepare_commit : Action Bool
  prepare_commit = do
    valid ← get_work is_valid
    choose valid then (do set_tx (λ t. record t { is_prepared = true }); pure true) else pure false

  -- The body of the `try` in `run`.
  unfoldable pub work : Action (Unit {0})
  unfolding execute
  work = do
    tid ← get_tx (λ t. t.tid)
    set_work (set_last_tid tid)
    payload ← get_tx (λ t. t.payload)
    execute payload

  unfoldable pub run : Action Bool
  unfolding begin work rollback prepare_commit
  run = do
    began ← get_tx (λ t. t.has_began)
    when began throw
    begin
    try◌catch◌ work rollback
    undone ← get_tx (λ t. t.has_rollback)
    choose not undone then prepare_commit else pure false

  -- `state_->set(*work_state_)`.
  unfoldable pub publish : Action (Unit {0})
  publish w = elim w.tx.work_state [
    | none ↦ undefined
    | some s ↦ returned tt (record w { shared = s })
  ]

  unfoldable pub commit : Action Bool
  unfolding commit_hook publish
  commit = do
    undone ← get_tx (λ t. t.has_rollback)
    choose undone then pure false else do
      ready ← get_tx (λ t. t.is_prepared)
      when (not ready) throw
      set_tx (λ t. record t { is_committed = true })
      try_disk (remove (get_tid_path c))
      try_disk (rename (temp (get_tid_path c)) (get_tid_path c))
      payload ← get_tx (λ t. t.payload)
      commit_hook payload
      publish
      pure true

  unfoldable pub force_rollback : Action (Unit {0})
  unfolding rollback
  force_rollback = do done ← get_tx (λ t. t.is_committed); when (not done) rollback
