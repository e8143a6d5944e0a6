-- ===== src/Client/Tests.antt =====
-- Runs of mainClient.cpp and ClientConnection.cpp.
use file_syncer.ServerState.Startup.{first_word}
use file_syncer.Manager.{new_manager}
use file_syncer.Prelude.Map.{find}
use file_syncer.ServerState.{get_user_from_session, is_session_valid}
use file_syncer.Prelude.{
  ltb, length, ◌≡◌, refl, ◌&&◌, true, false, none, some, [], ◌∷◌, ◌++◌, arith,
}
use file_syncer.Prelude.Int.{pos, negsuc}
use file_syncer.Prelude.Text.{bytes, text_eq}
use file_syncer.Disk.{Disk, file, directory, has_parent}
use file_syncer.Messages.{Request, FileUpdate, login_ok, send_file_data, file_updated}
use file_syncer.Service.Dispatch.{Outside, handle_request}
use file_syncer.Samples.{
  config, user, filename, content, coordinator, room, no_temp_tid, no_temp_file,
}
use file_syncer.Connection.{ConnectionArgs, accepted, connected, connects}
use file_syncer.Replica.{new_coordinator}
use file_syncer.Client.{asks, upload_request}
use file_syncer.Client.Session.{ClientConnection, is_logged, handle_admin_request}
use file_syncer.Client.Logged.{reaches, granted, Moved, handle_admin_request-Moved}
use file_syncer.Client.Watch.{Event, Found, watch_events}
use file_syncer.Client.Ends.{is_looping, watch_events-ends}
use file_syncer.Client.Terminal.{Buffers, c_string, front_end_turn}
use file_syncer.Client.Bounds.{TurnEnds, scanned, front_end_turn-TurnEnds}
use file_syncer.Client.RoundTrip.{Arrives, upload_request-Arrives}
use file_syncer.Client.Commands.{front_end}
use file_syncer.Client.LogsOut.{LogsOut, front_end-LogsOut}
use file_syncer.Client.Main.{begin_client}
use file_syncer.Client.Begins.{Begins, is_word, accepted_by, begin_client-Begins}
use file_syncer.Client.Follows.{Follows, followed_by, announced, is_current, send_modified-Follows}
use file_syncer.Manager.Voting.{decide}

abbrev outside : Outside
outside = record {
  rands = [];
  others = λ n m. m;
  user_round = record { servers = []; told = []; during = []; later = []; after = [] };
  round = record { servers = []; told = []; during = []; later = []; after = [] };
  next = none;
  states = [];
  sends = 0;
}

-- The files of a client: its directory, with one file.
abbrev local : Disk
local = (bytes "d", directory) ∷ (bytes "d/f", file (bytes "mine")) ∷ (bytes "f", file content) ∷ []

abbrev update : FileUpdate
update = record { filename = filename; deleted = false; hash = bytes "1" }

upload_request-Arrives_example :
    (r : Request) × (upload_request config.xxh64 local filename ≡ asks r)
    × Arrives config user filename content
        (handle_request config outside (some (r, pos 5)) coordinator)
        (bytes "d/g")
        local
unfolding find text_eq is_session_valid new_manager get_user_from_session has_parent
upload_request-Arrives_example =
    upload_request-Arrives config outside (pos 5) coordinator user filename content (bytes "d/g")
      local local refl (λ n. refl) refl refl room no_temp_tid no_temp_file
      (record { coordinates = refl; idle = refl; few = omega arith }) refl refl refl refl

-- A file that was written, with what is found then.
abbrev written : Event × Found
written = (
  record { close_write = true; is_delete = false; name = some filename },
  record { files = local; first = some send_file_data; second = some file_updated },
)

watch_events-ends_example :
    is_looping (
      watch_events config.xxh64
        (bytes "d")
        (true ∷ false ∷ true ∷ false ∷ [])
        (written ∷ written ∷ [])
        [])
    ≡ false
watch_events-ends_example =
    watch_events-ends config.xxh64 (bytes "d") (true ∷ false ∷ true ∷ false ∷ [])
      (written ∷ written ∷ []) [] (omega arith)

abbrev empty_buffers : Buffers
empty_buffers = record { buffer = []; command = []; file_path = [] }

front_end_turn-TurnEnds_example :
    TurnEnds
      (ltb (length (first_word (c_string (scanned (some (bytes "upload d/f")) empty_buffers)))) 50)
      empty_buffers
      (front_end_turn (some (bytes "upload d/f")) empty_buffers)
front_end_turn-TurnEnds_example =
    front_end_turn-TurnEnds (some (bytes "upload d/f")) empty_buffers
      (record { buffer = omega arith; command = omega arith; file_path = omega arith })

abbrev args : ConnectionArgs
args = record {
  hostname = bytes "h";
  port = pos 1;
  username = user;
  password = bytes "pw";
  session_id = negsuc 0;
}

abbrev main : ClientConnection
main = record {
  base = record { args = args; state = connected; session = pos 5 };
  hostname = bytes "h";
  port = pos 1;
}

handle_admin_request-Moved_example :
    Moved
      (bytes "k")
      (pos 2)
      true
      main
      (handle_admin_request user
        (bytes "pw")
        (some (accepted ∷ []))
        none
        none
        (some (new_coordinator, bytes "k", pos 2))
        main).1
unfolding is_logged connects
handle_admin_request-Moved_example =
    handle_admin_request-Moved user (bytes "pw") (bytes "k") (pos 2) (some (accepted ∷ [])) none
      none main refl

-- A line of the terminal that is not known, and the end.
front_end-LogsOut_example : LogsOut [] (
    front_end config.xxh64
      (record { sync_dir = bytes "d"; hostname = bytes "h"; port = pos 1 })
      ((some (bytes "ping\n"), none) ∷ (some (bytes "exit\n"), some (login_ok none)) ∷ [])
      empty_buffers
      local
      []
      [])
front_end-LogsOut_example =
    front_end-LogsOut config.xxh64
      (record { sync_dir = bytes "d"; hostname = bytes "h"; port = pos 1 })
      ((some (bytes "ping\n"), none) ∷ (some (bytes "exit\n"), some (login_ok none)) ∷ [])
      empty_buffers local [] []

begin_client-Begins_example :
    Begins
      ((reaches (some (accepted ∷ []))
          && (reaches (some (accepted ∷ [])) && granted (some (login_ok (some (pos 5))))))
        && accepted_by (some (login_ok none)))
      (bytes "/h" ++ (bytes "/sync_dir_" ++ user))
      (begin_client
        (bytes "c" ∷ user ∷ bytes "h" ∷ bytes "9988" ∷ bytes "l" ∷ [])
        (bytes "pw")
        (bytes "/h")
        (pos 0)
        (some (accepted ∷ []))
        (some (accepted ∷ []))
        (some (login_ok (some (pos 5))))
        (some (login_ok none)))
unfolding is_word
begin_client-Begins_example =
    begin_client-Begins (bytes "c") user (bytes "h") (bytes "9988") (bytes "l") (bytes "pw")
      (bytes "/h") (pos 0) (some (accepted ∷ [])) (some (accepted ∷ []))
      (some (login_ok (some (pos 5)))) (some (login_ok none)) refl refl

-- The server has another content of the file.
abbrev asking : Outside
asking = record outside {
  next = some (followed_by config user filename (bytes "mine") coordinator (bytes "d") local);
}

send_modified-Follows_example :
    Follows config user filename
      (bytes "mine")
      coordinator
      (bytes "d")
      local
      (is_current config user filename (bytes "mine") coordinator (bytes "d") local)
      (decide (pos 5) 1 ((true, pos 5) ∷ []))
      (handle_request config asking
        (some (announced config user filename (bytes "mine") coordinator (bytes "d") local, pos 5))
        coordinator)
unfolding find text_eq is_session_valid new_manager get_user_from_session
send_modified-Follows_example =
    send_modified-Follows config user filename (bytes "mine") coordinator (bytes "d") local refl
      asking (pos 5) refl (λ n. refl) refl refl room no_temp_tid no_temp_file
      (record { coordinates = refl; idle = refl; few = omega arith }) (omega arith)
