-- ===== src/Client/Main.antt =====
-- src/client/mainClient.cpp: `main` up to the start of its threads, and `thread_monitoramento`.
use file_syncer.Prelude.{Bool, Option, none, some, List, [], ◌∷◌, ◌++◌, if◌then◌else◌}
use file_syncer.Prelude.Int.{ℤ, pos, negsuc}
use file_syncer.Prelude.Text.{Text, bytes}
use file_syncer.Utils.{Xxh64}
use file_syncer.Utils.Decimal.{read_int}
use file_syncer.Disk.{Disk, create_directory}
use file_syncer.ServerState.Startup.{first_word}
use file_syncer.Connection.{Attempt}
use file_syncer.Messages.{Request, Response}
use file_syncer.Client.{has_sync_dir}
use file_syncer.Client.Session.{ClientConnection, new_client_connection, starts}
use file_syncer.Client.Watch.{Event, Found, Watched, handled, looping, failed, watch_events}

-- `DAEMON_PORT`
abbrev pub daemon_port : ℤ
daemon_port = pos 6666

-- `ss << getenv("HOME") << "/sync_dir_" << username; ss >> syncDirPath`
unfoldable pub sync_dir_path : Text → Text → Text
unfolding first_word
sync_dir_path home username = first_word (home ++ (bytes "/sync_dir_" ++ username))

-- The program ends with its usage or with an error, or its threads are started.
pub data Begun : Type 0 where
  usage : Begun
  exits : Begun
  runs : Text → ClientConnection → Begun

-- `main`: the connections that can be made and the answers are given, and what `port` has before it is
-- read, since it is not initialised.
unfoldable pub begin_client :
    List Text
    → Text
    → Text
    → ℤ
    → Option (List Attempt)
    → Option (List Attempt)
    → Option Response
    → Option Response
    → Begun
unfolding sync_dir_path new_client_connection starts
begin_client (program ∷ username ∷ hostname ∷ port ∷ local ∷ []) password home port_before found
      login_found login_answer answer =
    let main : ClientConnection =
      new_client_connection
        (record {
          hostname = hostname;
          port = read_int port_before port;
          username = username;
          password = password;
          session_id = negsuc 0;
        })
        found login_found login_answer in
    if starts answer main then runs (sync_dir_path home username) main else exits
begin_client other password home port_before found login_found login_answer answer = usage

-- One `read` of the watcher: the looks at `muteUpdate`, and the events.
abbrev pub Read : Type 0
Read = List Bool × List (Event × Found)

-- The reads, each of which may leave events that are not looked at any more.
unfoldable pub watch_reads : Xxh64 → Text → List Read → List Request → Watched
unfolding watch_events
watch_reads xxh dir [] out = handled out []
watch_reads xxh dir ((looks, events) ∷ reads) out = elim (watch_events xxh dir looks events out) [
  | handled out' dropped ↦ watch_reads xxh dir reads out'
  | looping ↦ looping
  | failed ↦ failed
]

-- `thread_monitoramento`: the directory is made where it is not there, then watched. `none` is the
-- exception of `create_directory`.
unfoldable pub monitor : Xxh64 → Text → List Read → Disk → Option (Disk × Watched)
unfolding has_sync_dir watch_reads
monitor xxh dir reads d =
    if has_sync_dir d dir
    then some (d, watch_reads xxh dir reads [])
    else elim (create_directory dir d) [
      | none ↦ none
      | some d' ↦ some (d', watch_reads xxh dir reads [])
    ]
