-- ===== src/Client/Commands.antt =====
-- src/client/mainClient.cpp: the commands as `terminal_Interaction` runs them, with what each tells
-- the user, and the loop of `thread_front_end`.
use file_syncer.Prelude.{
  true, false, not, ◌&&◌, Option, none, some, List, [], ◌∷◌, ◌++◌, if◌then◌else◌,
}
use file_syncer.Prelude.Int.{ℤ}
use file_syncer.Prelude.Text.{Text}
use file_syncer.Disk.{Disk, has_parent, is_directory}
use file_syncer.Messages.{
  RequestType, Request, Response, login_ok, file_list, pong, file_updated, file_data_r,
}
use file_syncer.Utils.{Xxh64}
use file_syncer.Client.{
  new_request, delete_request, download_request, upload_request, asks, no_request, threw,
  save_download, get_sync_dir, list_client, list_server,
}
use file_syncer.Client.Terminal.{Command, keeps_running, Buffers, front_end_turn}

-- What is printed. `nothing` stands for an answer of a type that the command does not look for.
pub data Told : Type 0 where
  no_answer nothing done not_opened commands unknown_command server_error : Told
  server_error_msg : Text → Told
  names : List Text → Told
  folder : Text → Told
  address : Text → ℤ → Told

-- `sendLogout`: the `printf` of the error has no place for its message.
unfoldable pub logout_told : Option Response → Told
logout_told none = no_answer
logout_told (some (Response.error msg)) = server_error
logout_told (some (login_ok i)) = done
logout_told (some other) = nothing

unfoldable pub send_logout : Option Response → Request × Told
unfolding logout_told new_request
send_logout answer = (new_request RequestType.logout, logout_told answer)

unfoldable pub delete_told : Option Response → Told
delete_told none = no_answer
delete_told (some (Response.error msg)) = server_error
delete_told (some file_updated) = done
delete_told (some other) = nothing

unfoldable pub delete_file : Text → Option Response → Request × Told
unfolding delete_request delete_told
delete_file path answer = (delete_request path, delete_told answer)

unfoldable pub upload_told : Option Response → Told
upload_told none = no_answer
upload_told (some (Response.error msg)) = server_error
upload_told (some file_updated) = done
upload_told (some other) = nothing

-- `download`, which opens the file before it writes.
unfoldable pub download_told : Text → Disk → Option Response → Told
unfolding has_parent is_directory
download_told path d none = no_answer
download_told path d (some (Response.error msg)) = server_error_msg msg
download_told path d (some (file_data_r filename hash content)) =
    if has_parent d path && not (is_directory d path) then done else not_opened
download_told path d (some other) = nothing

unfoldable pub ping_told : Option Response → Told
ping_told none = no_answer
ping_told (some (Response.error msg)) = server_error
ping_told (some pong) = done
ping_told (some other) = nothing

unfoldable pub ping : Option Response → Request × Told
unfolding ping_told new_request
ping answer = (new_request RequestType.ping, ping_told answer)

unfoldable pub list_told : Option Response → Told
unfolding list_server
list_told none = no_answer
list_told (some (Response.error msg)) = server_error
list_told (some (file_list files)) = names (list_server (some (file_list files)))
list_told (some other) = nothing

-- What a command comes to: the requests sent, the files after it, and what is printed.
pub record Ran : Type 0 where
  pub requests : List Request
  pub files : Disk
  pub told : Told

-- The client that runs a command: the directory that it syncs and the address of the main connection.
pub record Client : Type 0 where
  pub sync_dir : Text
  pub hostname : Text
  pub port : ℤ

unfoldable pub show_host_ip : Client → Told
show_host_ip client = address client.hostname client.port

abbrev asked : Request × Told → Disk → Option Ran
asked (request, told) d = some (record { requests = request ∷ []; files = d; told = told })

abbrev shown : Told → Disk → Option Ran
shown told d = some (record { requests = []; files = d; told = told })

-- The loop, over the lines of the terminal with the server's answers: it has ended at an `exit`, or
-- waits for the next line; or a word went behind its buffer; or an exception.
pub data FrontEnd : Type 0 where
  ended : List Request → Disk → List Told → FrontEnd
  at_prompt : List Request → Disk → List Told → FrontEnd
  overran : List Request → FrontEnd
  crashed : List Request → FrontEnd

module _ (xxh : Xxh64) (client : Client) where
  -- `none` is an exception, which ends the program.
  unfoldable pub run_command : Command → Option Response → Disk → Option Ran
  unfolding send_logout delete_file upload_told download_told ping list_told show_host_ip
      download_request upload_request save_download get_sync_dir list_client new_request
  run_command Command.help answer d = shown commands d
  run_command Command.get_sync_dir answer d = elim (get_sync_dir client.sync_dir d) [
    | none ↦ none
    | some d' ↦ shown (folder client.sync_dir) d'
  ]
  run_command Command.list_client answer d = elim (list_client client.sync_dir d) [
    | none ↦ none
    | some files ↦ shown (names files) d
  ]
  run_command Command.list_server answer d =
      asked (new_request RequestType.list, list_told answer) d
  run_command Command.exit answer d = asked (send_logout answer) d
  run_command Command.ping answer d = asked (ping answer) d
  run_command Command.show_host_ip answer d = shown (show_host_ip client) d
  run_command Command.unknown answer d = shown unknown_command d
  run_command (Command.download path) answer d =
      asked (download_request path, download_told path d answer) (save_download path answer d)
  run_command (Command.upload path) answer d = elim (upload_request xxh d path) [
    | asks request ↦ asked (request, upload_told answer) d
    | no_request ↦ shown not_opened d
    | threw ↦ none
  ]
  run_command (Command.delete path) answer d = asked (delete_file path answer) d

  unfoldable pub front_end :
      List (Option Text × Option Response) → Buffers → Disk → List Request → List Told → FrontEnd
  unfolding front_end_turn keeps_running run_command
  front_end [] b d sent told = at_prompt sent d told
  front_end ((input, answer) ∷ turns) b d sent told = elim (front_end_turn input b) [
    | none ↦ overran sent
    | some (command, b') ↦ elim (run_command command answer d) [
      | none ↦ crashed sent
      | some r ↦ elim (keeps_running command) [
        | true ↦ front_end turns b' r.files (sent ++ r.requests) (told ++ (r.told ∷ []))
        | false ↦ ended (sent ++ r.requests) r.files (told ++ (r.told ∷ []))
      ]
    ]
  ]
