-- ===== src/ServerState.antt =====
-- src/server/ServerState.h and ServerState.cpp: the replicated state of a server in memory.
-- Maps are `std::map`; the records that `getUserFiles` points to are given as values.
-- The constructors' scan of the disk is in Startup.
pub mod Files
pub mod Startup
mod Tests
use file_syncer.Prelude.{
  Bool, true, false, Option, none, some, List, [], ◌∷◌, ◌++◌, if◌then◌else◌, is_some,
}
use file_syncer.Prelude.Int.{ℤ, pos, int_lt, to_int}
use file_syncer.Prelude.Text.{Text, text_eq}
use file_syncer.Prelude.Map.{Map, find, emplace, erase, modify, text_key, int_key}

pub record UserFile : Type 0 where
  pub filename : Text
  pub hash : Text
  pub last_tid : ℤ
  pub size : ℤ
  pub deleted : Bool

pub record FrontendConnection : Type 0 where
  pub hostname : Text
  pub port : ℤ

abbrev pub UserFileList : Type 0
UserFileList = Map Text UserFile

-- `SessionId` is `int`.
pub record ServerState : Type 0 where
  pub senhas : Map Text Text
  pub logged_user_sessions : Map ℤ Text
  pub users_last_tid : Map Text ℤ
  pub user_files : Map Text UserFileList
  pub frontend_connections : List FrontendConnection
  pub last_tid : ℤ

-- The members' initialisers, before `init`.
unfoldable pub empty_state : ServerState
empty_state = record {
  senhas = [];
  logged_user_sessions = [];
  users_last_tid = [];
  user_files = [];
  frontend_connections = [];
  last_tid = pos 0;
}

unfoldable pub is_valid : ServerState → Bool
is_valid s = true

unfoldable pub has_user : ServerState → Text → Bool
has_user s username = is_some (find username s.senhas)

unfoldable pub check_password : ServerState → Text → Text → Bool
check_password s username password = elim (find username s.senhas) [
  | none ↦ false
  | some senha ↦ text_eq senha password
]

unfoldable pub is_session_valid : ServerState → ℤ → Bool
is_session_valid s session_id = is_some (find session_id s.logged_user_sessions)

-- The argument is a `long`, and the key an `int`.
unfoldable pub get_user_from_session : ServerState → ℤ → Text
get_user_from_session s session = elim (find (to_int session) s.logged_user_sessions) [
  | none ↦ []
  | some user ↦ user
]

unfoldable pub get_last_tid : ServerState → ℤ
get_last_tid s = s.last_tid

unfoldable pub get_user_last_tid : ServerState → Text → ℤ
get_user_last_tid s username = elim (find username s.users_last_tid) [
  | none ↦ pos 0
  | some tid ↦ tid
]

unfoldable pub add_session : ℤ → Text → ServerState → ServerState
add_session session_id username s = record s {
  logged_user_sessions = emplace session_id username s.logged_user_sessions;
}

unfoldable pub add_user : Text → Text → ServerState → ServerState
add_user username password s = record s { senhas = emplace username password s.senhas }

unfoldable pub remove_session : ℤ → ServerState → ServerState
remove_session session_id s = record s {
  logged_user_sessions = erase session_id s.logged_user_sessions;
}

unfoldable pub set_user_last_tid : Text → ℤ → ServerState → ServerState
set_user_last_tid username tid s = record s {
  users_last_tid = emplace username tid s.users_last_tid;
}

unfoldable pub set_last_tid : ℤ → ServerState → ServerState
set_last_tid tid s = record s { last_tid = tid }

-- The values of a map in the order of iteration.
unfoldable pub files_of : UserFileList → List UserFile
files_of [] = []
files_of ((filename, file) ∷ m) = file ∷ files_of m

unfoldable pub files_since : ℤ → UserFileList → List UserFile
files_since tid [] = []
files_since tid ((filename, file) ∷ m) =
    let rest = files_since tid m in if int_lt tid file.last_tid then file ∷ rest else rest

unfoldable pub get_user_files_since : ServerState → Text → ℤ → List UserFile
unfolding files_since
get_user_files_since s user tid = elim (find user s.user_files) [
  | none ↦ []
  | some files ↦ files_since tid files
]

unfoldable pub get_user_files : ServerState → Text → List UserFile
unfolding files_of
get_user_files s user = elim (find user s.user_files) [ none ↦ [] | some files ↦ files_of files ]

-- `user_files.at(user).find(filename)`, where both keys are there.
unfoldable pub find_file : ServerState → Text → Text → Option UserFile
find_file s user filename = elim (find user s.user_files) [
  | none ↦ none
  | some files ↦ find filename files
]

unfoldable pub has_file : ServerState → Text → Text → Bool
unfolding find_file
has_file s username filename = is_some (find_file s username filename)

unfoldable pub get_file_hash : ServerState → Text → Text → Text
unfolding find_file
get_file_hash s user filename = elim (find_file s user filename) [
  | none ↦ []
  | some file ↦ file.hash
]

unfoldable pub remove_file : Text → Text → ServerState → ServerState
unfolding has_file
remove_file user filename s =
    if has_file s user filename
    then record s { user_files = modify user (erase filename) s.user_files }
    else s

unfoldable pub update_file : Text → Text → UserFile → ServerState → ServerState
unfolding has_file
update_file user filename file s =
    if has_file s user filename
    then record s { user_files = modify user (modify filename (λ _. file)) s.user_files }
    else s

unfoldable pub add_file : Text → Text → UserFile → ServerState → ServerState
add_file user filename file s = record s {
  user_files = modify user (emplace filename file) (emplace user [] s.user_files);
}

unfoldable pub sessions_of : Text → Map ℤ Text → List ℤ
sessions_of username [] = []
sessions_of username ((session, user) ∷ m) =
    let rest = sessions_of username m in if text_eq user username then session ∷ rest else rest

unfoldable pub get_user_sessions : ServerState → Text → List ℤ
unfolding sessions_of
get_user_sessions s username = sessions_of username s.logged_user_sessions

unfoldable pub add_frontend : Text → ℤ → ServerState → ServerState
add_frontend hostname port s = record s {
  frontend_connections = s.frontend_connections ++ record { hostname = hostname; port = port } ∷ [];
}

unfoldable pub get_frontends : ServerState → List FrontendConnection
get_frontends s = s.frontend_connections
