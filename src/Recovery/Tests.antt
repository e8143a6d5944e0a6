-- ===== src/Recovery/Tests.antt =====
-- A start from the small disk, and from what a stopped upload leaves on it.
use file_syncer.Prelude.{◌≡◌, refl, true, false, arith, some, ap, length}
use file_syncer.Prelude.Int.{pos}
use file_syncer.Prelude.Text.{Text, bytes, text_eq, text_eq_iff, text_lt, is_empty}
use file_syncer.Prelude.Map.{find, text_key}
use file_syncer.Config.{get_servers_dir, get_tid_path}
use file_syncer.Disk.{Disk, is_directory, strip_slash, has_children, lies_below}
use file_syncer.ServerState.{ServerState, has_user, check_password}
use file_syncer.ServerState.Startup.{is_temp, init}
use file_syncer.ServerState.Startup.Sweep.{NoTempDirectory}
use file_syncer.ServerState.Startup.Restored.{CanStart, IsRestored, init-IsRestored}
use file_syncer.Transaction.Monad.{Payload, World, returned, ◌>>=◌}
use file_syncer.Transaction.{run, commit}
use file_syncer.Transaction.Verdict.{start}
use file_syncer.Recovery.{commit_steps, interrupted}
use file_syncer.Recovery.Points.{tid_moved}
use file_syncer.Recovery.Crash.{IsRecovered, restart_after_crash}
use file_syncer.Config.{get_user_dir}
use file_syncer.Disk.{has_parent}
use file_syncer.Transaction.NewUser.{IsFresh}
use file_syncer.ServerState.Startup.{first_word}
use file_syncer.Recovery.Created.{restart_after_create_user}
use file_syncer.Prelude.{[]}
use file_syncer.Samples.{tid_ready, config, disk, user, filename, content, state, room}

disk-NoTempDirectory : NoTempDirectory disk
unfolding is_directory find is_temp
disk-NoTempDirectory q t =
    let s : is_temp (bytes "/h/s") ≡ false = refl in
    let u : is_temp (bytes "/h/s/u") ≡ false = refl in
    ground (arith, s, u, text_eq_iff (bytes "/h/s") q, text_eq_iff (bytes "/h/s/u") q)

disk-CanStart : CanStart config disk
unfolding strip_slash get_servers_dir is_directory find text_eq text_lt
disk-CanStart = record {
  ends_in_slash = refl;
  is_there = refl;
  sorted = ((refl, (refl, (refl, tt))), ((refl, (refl, tt)), ((refl, tt), (tt, tt))));
  no_temp_directory = disk-NoTempDirectory;
}

init-IsRestored_example :
    (e : Disk) × (s : ServerState) × (init config disk ≡ some (e, s))
    × IsRestored config disk user filename (bytes "/h/s/u/f") e s
unfolding is_temp
init-IsRestored_example =
    init-IsRestored config disk disk-CanStart user filename (bytes "/h/s/u/f") (omega arith)
      (omega arith) refl

restart_after_crash_example :
    (w : World) × (x : World) × (e : Disk) × (e' : Disk) × (s' : ServerState) × (run config
        (start (Payload.file_change user filename false content) (pos 5) disk state)
      ≡ returned true w)
    × (commit config w ≡ returned true x)
    × (interrupted 3 (commit_steps config user filename) w.disk ≡ some x.disk)
    × (interrupted 2 (commit_steps config user filename) w.disk ≡ some e)
    × (init config e ≡ some (e', s'))
    × IsRecovered config user filename content
        (pos 5)
        disk
        room
        disk-CanStart
        tid_moved
        user
        filename
        s'
unfolding is_temp text_eq
restart_after_crash_example =
    restart_after_crash config user filename content (pos 5) disk room disk-CanStart state tid_moved
      user filename (omega arith) (omega arith) (omega arith) refl refl refl (omega arith)

abbrev newcomer : Text
newcomer = bytes "v"

newcomer-IsFresh : IsFresh config newcomer (bytes "pw") (pos 5) disk state
unfolding get_user_dir get_tid_path get_servers_dir has_parent find text_eq
newcomer-IsFresh = record {
  parent = refl;
  no_dir = refl;
  no_password = refl;
  not_tid = λ e. omega (arith, ap (length {0}) e);
}

restart_after_create_user_example :
    (w : World) × (e : Disk) × (s' : ServerState) × (((run config >>= λ _. commit config)
        (start (Payload.create_user newcomer (bytes "pw")) (pos 5) disk state))
      ≡ returned true w)
    × (init config w.disk ≡ some (e, s'))
    × (has_user s' newcomer ≡ true)
    × (check_password s' newcomer (bytes "pw") ≡ text_eq (first_word (bytes "pw")) (bytes "pw"))
    × (s'.last_tid ≡ pos 5)
    × (s'.logged_user_sessions ≡ [])
unfolding get_user_dir get_tid_path get_servers_dir has_parent has_children lies_below find text_eq
    is_empty has_user is_temp
restart_after_create_user_example =
    restart_after_create_user config newcomer (bytes "pw") (pos 5) disk state tid_ready
      newcomer-IsFresh refl refl refl disk-CanStart (omega arith) refl refl (omega arith)
