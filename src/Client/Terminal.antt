-- ===== src/Client/Terminal.antt =====
-- src/client/mainClient.cpp: `thread_front_end` and `terminal_Interaction`, the commands of the terminal.
use file_syncer.Prelude.{
  ℕ, zero, suc, Bool, true, false, Option, none, some, [], ◌∷◌, length, if◌then◌else◌, ltb, ◌==◌,
}
use file_syncer.Prelude.Text.{Text, bytes, text_eq}
use file_syncer.ServerState.Startup.{first_word, after_first_word}

-- What a command does; a command that is not known is answered by a line alone.
pub data Command : Type 0 where
  help get_sync_dir list_client list_server exit ping show_host_ip unknown : Command
  download upload delete : Text → Command

unfoldable pub terminal_interaction : Text → Text → Command
terminal_interaction command path =
    if text_eq command (bytes "help")
    then help
    else if text_eq command (bytes "get_sync_dir")
    then get_sync_dir
    else if text_eq command (bytes "list_client")
    then list_client
    else if text_eq command (bytes "list_server")
    then list_server
    else if text_eq command (bytes "exit")
    then exit
    else if text_eq command (bytes "download")
    then download path
    else if text_eq command (bytes "upload")
    then upload path
    else if text_eq command (bytes "delete")
    then delete path
    else if text_eq command (bytes "ping")
    then ping
    else if text_eq command (bytes "show_host_ip")
    then show_host_ip
    else unknown

-- Whether `notExit` is still set after it: only `exit` gives EXIT_SUCCESS.
unfoldable pub keeps_running : Command → Bool
keeps_running exit = false
keeps_running other = true

-- `fgets(buffer, 64, stdin)`: at most 63 bytes, up to a newline and with it.
unfoldable pub get_line : ℕ → Text → Text
get_line n [] = []
get_line zero (b ∷ input) = []
get_line (suc k) (b ∷ input) = let rest = get_line k input in if b == 10 then b ∷ [] else b ∷ rest

-- The three buffers: `buffer`, and the strings in `command` and `file_path`.
pub record Buffers : Type 0 where
  pub buffer : Text
  pub command : Text
  pub file_path : Text

-- A word that is not there leaves its buffer as it was.
abbrev pub scan : Text → Text → Text
scan [] old = old
scan (b ∷ word) old = b ∷ word

-- The string in a buffer, up to its zero byte.
unfoldable pub c_string : Text → Text
c_string [] = []
c_string (b ∷ s) = let rest = c_string s in if b == 0 then [] else b ∷ rest

-- `sscanf(buffer, "%s %s", command, file_path)`; `none` where a word with its zero byte does not fit into
-- its buffer of 50 or 150 bytes.
unfoldable pub scan_command : Text → Buffers → Option Buffers
unfolding c_string first_word after_first_word
scan_command buffer b =
    let line = c_string buffer in
    let command = first_word line in
    let path = first_word (after_first_word line) in
    if ltb (length command) 50
    then (if ltb (length path) 150
        then some (record {
          buffer = buffer;
          command = scan command b.command;
          file_path = scan path b.file_path;
        })
        else none)
    else none

-- One turn of `thread_front_end`: the command, and the buffers after it. `input` is `none` at the end of
-- the input, where the buffer stays as it was.
unfoldable pub front_end_turn : Option Text → Buffers → Option (Command × Buffers)
unfolding get_line scan_command terminal_interaction
front_end_turn input b =
    let buffer : Text = elim input [ none ↦ b.buffer | some text ↦ get_line 63 text ] in
    elim (scan_command buffer b) [
      | none ↦ none
      | some b' ↦ some (terminal_interaction b'.command b'.file_path, b')
    ]
