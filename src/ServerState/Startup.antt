-- ===== src/ServerState/Startup.antt =====
-- `ServerState::init`: the state that a server reads from its disk when it starts. The entries of a
-- directory come in the order of the table. `file_size` is an `int`.
pub mod Entries
pub mod Sweep
pub mod Files
pub mod Users
pub mod Restored
use file_syncer.Prelude.{
  ℕ, suc, Bool, true, false, Option, none, some, List, [], ◌∷◌, ◌++◌, length, if◌then◌else◌, ◌==◌,
  drop,
}
use file_syncer.Prelude.Int.{pos, to_int}
use file_syncer.Prelude.Text.{Text, bytes, text_eq}
use file_syncer.Prelude.Map.{emplace, modify, text_key}
use file_syncer.Config.{Config, get_servers_dir}
use file_syncer.Disk.{
  Disk, Node, file, directory, create_directory, remove, strip_slash, cut_last_slash,
}
use file_syncer.Utils.{get_file_digest, digest_to_string}
use file_syncer.Utils.Decimal.{is_space, read_int}
use file_syncer.ServerState.{ServerState, UserFile, empty_state}

-- `s.back() == '~'`; a name is not empty.
unfoldable pub is_temp : Text → Bool
is_temp [] = false
is_temp (c ∷ s) = let rest = is_temp s in elim s [ [] ↦ c == b'~' | _ ∷ _ ↦ rest ]

unfoldable pub until_space : Text → Text
unfolding is_space
until_space [] = []
until_space (c ∷ s) = let rest = until_space s in if is_space c then [] else c ∷ rest

-- `password_file >> password`: the first word.
unfoldable pub first_word : Text → Text
unfolding until_space
first_word [] = []
first_word (c ∷ s) = let rest = first_word s in if is_space c then rest else until_space (c ∷ s)

-- What stands behind the first word.
unfoldable pub from_space : Text → Text
unfolding is_space
from_space [] = []
from_space (b ∷ s) = let rest = from_space s in if is_space b then b ∷ s else rest

unfoldable pub after_first_word : Text → Text
unfolding from_space
after_first_word [] = []
after_first_word (b ∷ s) =
    let rest = after_first_word s in if is_space b then rest else from_space (b ∷ s)

-- The entries of a directory: their names, with what they are.
unfoldable pub entries : Text → Disk → List (Text × Node)
entries dir [] = []
entries dir ((p, n) ∷ d) =
    let rest = entries dir d in
    elim (cut_last_slash p) [
      | none ↦ rest
      | some q ↦ if text_eq q dir then (drop (suc (length dir)) p, n) ∷ rest else rest
    ]

-- What a start keeps: the disk and the state, or an exception.
abbrev pub Started : Type 0
Started = Option (Disk × ServerState)

module _ (c : Config) where
  unfoldable pub file_entry : Text → Text → Text → UserFile
  file_entry username filename content = record {
    filename = filename;
    hash = digest_to_string (get_file_digest c.xxh64 (some content));
    last_tid = pos 0;
    size = to_int (pos (length content));
    deleted = false;
  }

  -- `this->user_files[username].emplace(...)`
  unfoldable pub found_file : Text → Text → Text → ServerState → ServerState
  unfolding file_entry
  found_file username filename content s = record s {
    user_files =
        modify username (emplace filename (file_entry username filename content))
          (emplace username [] s.user_files);
  }

  -- One entry of a user's directory.
  unfoldable pub init_file : Text → Text → Text → Node → Disk → ServerState → Started
  unfolding is_temp first_word found_file
  init_file username user_dir filename directory d s = some (d, s)
  init_file username user_dir filename (file content) d s =
      if is_temp filename
      then elim (remove (user_dir ++ b'/' ∷ filename) d) [ none ↦ none | some d' ↦ some (d', s) ]
      else if text_eq filename (bytes ".password")
      then some (d, record s { senhas = emplace username (first_word content) s.senhas })
      else some (d, found_file username filename content s)

  unfoldable pub init_files : Text → Text → List (Text × Node) → Disk → ServerState → Started
  unfolding init_file
  init_files username user_dir [] d s = some (d, s)
  init_files username user_dir ((filename, n) ∷ es) d s =
      elim (init_file username user_dir filename n d s) [
        | none ↦ none
        | some (d', s') ↦ init_files username user_dir es d' s'
      ]

  -- One entry of the server's directory.
  unfoldable pub init_entry : Text → Text → Node → Disk → ServerState → Started
  unfolding init_files entries
  init_entry dir username n d s =
      let user_dir = dir ++ b'/' ∷ username in
      if is_temp username
      then elim (remove user_dir d) [ none ↦ none | some d' ↦ some (d', s) ]
      else elim n [
        | directory ↦ init_files username user_dir (entries user_dir d) d s
        | file content ↦
            if text_eq username (bytes "tid")
            then some (d, record s { last_tid = read_int s.last_tid content })
            else some (d, s)
      ]

  unfoldable pub init_entries : Text → List (Text × Node) → Disk → ServerState → Started
  unfolding init_entry
  init_entries dir [] d s = some (d, s)
  init_entries dir ((username, n) ∷ es) d s = elim (init_entry dir username n d s) [
    | none ↦ none
    | some (d', s') ↦ init_entries dir es d' s'
  ]

  unfoldable pub init : Disk → Started
  unfolding init_entries
  init d = elim (create_directory (get_servers_dir c) d) [
    | none ↦ none
    | some d' ↦
        let dir = strip_slash (get_servers_dir c) in
        init_entries dir (entries dir d') d' empty_state
  ]
