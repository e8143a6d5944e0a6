-- ===== src/Transaction/Verdict.antt =====
-- What `run` decides, against a specification on the state alone.
use file_syncer.Prelude.{◌≡◌, true, false, not, ◌||◌, none, some, arith, if◌then◌else◌}
use file_syncer.Prelude.Int.{ℤ}
use file_syncer.Prelude.Text.{Text, text_eq_iff}
use file_syncer.Prelude.Map.{find, erase, text_key, int_key}
use file_syncer.Disk.{Disk, file, has_parent, is_directory, put, write_file, remove, exists}
use file_syncer.Disk.Paths.{temp}
use file_syncer.Disk.Laws.{write_file_lem, remove_lem, is_directory-put, find-put}
use file_syncer.Prelude.Map.Laws.{find-erase}
use file_syncer.Config.{Config, get_tid_path, get_file_path}
use file_syncer.Utils.Decimal.{show_int}
use file_syncer.ServerState.{
  ServerState, has_user, is_session_valid, get_user_from_session, add_session, remove_session,
  set_user_last_tid, set_last_tid, has_file, find_file, add_frontend, is_valid,
}
use file_syncer.Transaction.Monad.{Payload, World, returned, undefined}
use file_syncer.Transaction.{work, run}

-- The tid file can be replaced: its directory is there, and no directory has its names.
pub record TidReady (c : Config) (d : Disk) : Type 0 where
  pub parent : has_parent d (temp (get_tid_path c)) ≡ true
  pub temp_free : is_directory d (temp (get_tid_path c)) ≡ false
  pub tid_free : is_directory d (get_tid_path c) ≡ false

-- A transaction after `setState` and `setTid`.
abbrev pub start : Payload → ℤ → Disk → ServerState → World
start p tid d s = record {
  disk = d;
  shared = s;
  tx = record {
    payload = p;
    tid = tid;
    work_state = some s;
    has_rollback = false;
    is_committed = false;
    has_began = false;
    is_prepared = false;
  };
}

abbrev pub with_tid : Config → ℤ → Disk → Disk
with_tid c tid d = put (temp (get_tid_path c)) (file (show_int tid)) d

-- The world in which the transaction has a prepared work state, or none.
abbrev pub prepared_world : Payload → ℤ → Disk → ServerState → ServerState → World
prepared_world p tid d s work = record {
  disk = d;
  shared = s;
  tx = record {
    payload = p;
    tid = tid;
    work_state = some work;
    has_rollback = false;
    is_committed = false;
    has_began = true;
    is_prepared = true;
  };
}

abbrev pub rolled_world : Payload → ℤ → Disk → ServerState → World
rolled_world p tid d s = record {
  disk = d;
  shared = s;
  tx = record {
    payload = p;
    tid = tid;
    work_state = none;
    has_rollback = true;
    is_committed = false;
    has_began = true;
    is_prepared = false;
  };
}

module _ (c : Config) (tid : ℤ) (d : Disk) (s : ServerState) (ready : TidReady c d) where
  pub opened : write_file (temp (get_tid_path c)) (show_int tid) d ≡ with_tid c tid d
  opened = write_file_lem (temp (get_tid_path c)) (show_int tid) d ready.parent ready.temp_free

  closed :
      remove (temp (get_tid_path c)) (with_tid c tid d)
      ≡ some (erase (temp (get_tid_path c)) (with_tid c tid d))
  closed = remove_lem (temp (get_tid_path c)) (with_tid c tid d) (
      is_directory-put (temp (get_tid_path c)) (temp (get_tid_path c)) (show_int tid) d
        ready.temp_free)

  still_absent :
      (q : Text)
      → find q d ≡ none
      → find q (erase (temp (get_tid_path c)) (with_tid c tid d)) ≡ none
  still_absent q e = ground (
    arith,
    find-erase (temp (get_tid_path c)) q (with_tid c tid d),
    find-put (temp (get_tid_path c)) q (file (show_int tid)) d,
    text_eq_iff (temp (get_tid_path c)) q,
  )

  -- A new front end is always prepared, with the front end and the id in the work state.
  pub run-new_frontend :
      (h : Text) (p : ℤ)
      → run c (start (Payload.new_frontend h p) tid d s)
        ≡ returned true (
            prepared_world
              (Payload.new_frontend h p)
              tid
              (with_tid c tid d)
              s
              (add_frontend h p (set_last_tid tid s)))
  unfolding run is_valid
  run-new_frontend h p = ground (arith, opened, closed)

  -- The removal of a session is prepared exactly where the session is there, and else leaves no
  -- work state and no temporary file; the id of its user is looked up in the state that has lost
  -- the session.
  pub run-remove_session :
      (sid : ℤ)
      → run c (start (Payload.remove_session sid) tid d s) ≡ (
          if is_session_valid s sid
          then returned true (
              prepared_world (Payload.remove_session sid) tid (with_tid c tid d) s (
                let t = remove_session sid (set_last_tid tid s) in
                set_user_last_tid (get_user_from_session t sid) tid t))
          else returned false (
              rolled_world
                (Payload.remove_session sid)
                tid
                (erase (temp (get_tid_path c)) (with_tid c tid d))
                s))
  unfolding run is_valid is_session_valid set_last_tid
  run-remove_session sid = ground (arith, opened, closed)

  -- A new session is prepared exactly where its id is free and its user is known; otherwise the
  -- transaction rolls back, goes on, and reads the work state that it has deleted.
  pub run-create_session :
      (sid : ℤ) (u : Text)
      → run c (start (Payload.create_session sid u) tid d s) ≡ (
          if is_session_valid s sid || not (has_user s u)
          then undefined
          else returned true (
              prepared_world
                (Payload.create_session sid u)
                tid
                (with_tid c tid d)
                s
                (set_user_last_tid u tid (add_session sid u (set_last_tid tid s)))))
  unfolding run is_valid is_session_valid has_user set_last_tid
  run-create_session sid u = ground (arith, opened, closed)

  -- The deletion of a file that the user does not have leaves no work state, and no temporary
  -- file of its own.
  pub run-delete_absent :
      (u f content : Text)
      → has_file s u f ≡ false
      → find (temp (get_file_path c u f)) d ≡ none
      → run c (start (Payload.file_change u f true content) tid d s)
        ≡ returned false (
            rolled_world
              (Payload.file_change u f true content)
              tid
              (erase (temp (get_tid_path c)) (with_tid c tid d))
              s)
  unfolding run has_file find_file set_last_tid exists
  run-delete_absent u f content h e =
      ground (arith, opened, closed, still_absent (temp (get_file_path c u f)) e)
