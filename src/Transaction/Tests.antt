-- ===== src/Transaction/Tests.antt =====
-- The transactions on a small server.
use file_syncer.Prelude.{◌≡◌, true, false, not, ◌||◌, if◌then◌else◌}
use file_syncer.Prelude.Int.{pos}
use file_syncer.Prelude.Map.{text_key}
use file_syncer.ServerState.{
  is_valid, is_session_valid, has_user, add_session, set_user_last_tid, set_last_tid,
}
use file_syncer.Disk.Replace.{written}
use file_syncer.Utils.Decimal.{show_int}
use file_syncer.Config.{get_tid_path, get_file_path}
use file_syncer.Samples.{
  config, user, filename, content, disk, state, room, tid_ready, no_temp_tid, no_temp_file,
}
use file_syncer.Transaction.Monad.{Payload, World, returned, undefined, ◌>>=◌}
use file_syncer.Transaction.{run, commit, force_rollback}
use file_syncer.Transaction.Frame.{Kept, run-Kept}
use file_syncer.Transaction.Verdict.{start, prepared_world, with_tid, run-create_session}
use file_syncer.Transaction.FileChange.{
  Committed, RolledBack, stored, update_commits, update_rolls_back,
}

update_commits_example :
    (w : World) × (((run config >>= λ _. commit config)
        (start (Payload.file_change user filename false content) (pos 5) disk state))
      ≡ returned true w)
    × Committed config user filename content (pos 5) disk state w
update_commits_example =
    update_commits config user filename content (pos 5) disk state room no_temp_tid no_temp_file

update_rolls_back_example :
    (w : World) × (((run config >>= λ _. force_rollback config)
        (start (Payload.file_change user filename false content) (pos 5) disk state))
      ≡ returned tt w)
    × RolledBack config user filename content (pos 5) disk state w
update_rolls_back_example =
    update_rolls_back config user filename content (pos 5) disk state room no_temp_tid no_temp_file

abbrev upload : World
upload = start (Payload.file_change user filename false content) (pos 5) disk state

-- The world in which the upload returns.
abbrev prepared : World
prepared =
    prepared_world (Payload.file_change user filename false content) (pos 5)
      (written (get_tid_path config) (get_file_path config user filename) (show_int (pos 5)) content
        disk)
      state (stored config user filename content (pos 5) disk state)

run-Kept_example : Kept upload prepared
unfolding run is_valid
run-Kept_example = run-Kept config upload

run-create_session_example :
    run config (start (Payload.create_session (pos 6) user) (pos 5) disk state) ≡ (
      if is_session_valid state (pos 6) || not (has_user state user)
      then undefined
      else returned true (
          prepared_world
            (Payload.create_session (pos 6) user)
            (pos 5)
            (with_tid config (pos 5) disk)
            state
            (set_user_last_tid user
              (pos 5)
              (add_session (pos 6) user (set_last_tid (pos 5) state)))))
run-create_session_example = run-create_session config (pos 5) disk state tid_ready (pos 6) user
