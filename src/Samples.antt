-- ===== src/Samples.antt =====
-- A server's configuration, disk and state, for the tests.
use file_syncer.Prelude.{true, false, none, [], ◌∷◌, length, ◌≡◌, refl}
use file_syncer.Prelude.Int.{pos}
use file_syncer.Prelude.Text.{Text, bytes, text_eq}
use file_syncer.Prelude.Map.{find, text_key}
use file_syncer.Config.{Config, get_tid_path, get_file_path, get_user_dir, get_servers_dir}
use file_syncer.Disk.{Disk, file, directory, has_parent}
use file_syncer.Disk.Paths.{temp}
use file_syncer.Disk.Replace.{Room}
use file_syncer.ServerState.{ServerState, UserFile}
use file_syncer.Manager.{Manager, new_manager}
use file_syncer.Transaction.Verdict.{TidReady}

-- The length stands for the hash.
abbrev pub config : Config
config = record { home = bytes "/h"; server_dir = bytes "s/"; xxh64 = λ s. length s }

abbrev pub user : Text
user = bytes "u"

abbrev pub filename : Text
filename = bytes "f"

abbrev pub content : Text
content = bytes "new"

-- The user has a directory with one file.
abbrev pub disk : Disk
disk =
    (bytes "/h/s", directory)
    ∷ (bytes "/h/s/tid", file (bytes "4"))
    ∷ (bytes "/h/s/u", directory)
    ∷ (bytes "/h/s/u/f", file (bytes "old"))
    ∷ []

abbrev pub old_file : UserFile
old_file = record {
  filename = filename;
  hash = bytes "0";
  last_tid = pos 3;
  size = pos 3;
  deleted = false;
}

-- One user, with one file and one session.
abbrev pub state : ServerState
state = record {
  senhas = (user, bytes "pw") ∷ [];
  logged_user_sessions = (pos 5, user) ∷ [];
  users_last_tid = (user, pos 3) ∷ [];
  user_files = (user, (filename, old_file) ∷ []) ∷ [];
  frontend_connections = [];
  last_tid = pos 4;
}

abbrev pub coordinator : Manager
coordinator = new_manager true disk state

abbrev pub replica : Manager
replica = new_manager false disk state

pub room : Room (get_tid_path config) (get_file_path config user filename) disk
unfolding get_tid_path get_file_path has_parent find text_eq get_user_dir get_servers_dir
room = record {
  t_parent = refl;
  t_free = refl;
  temp_t_free = refl;
  p_parent = refl;
  p_free = refl;
  temp_p_free = refl;
}

pub tid_ready : TidReady config disk
unfolding get_tid_path get_servers_dir has_parent find text_eq
tid_ready = record { parent = refl; temp_free = refl; tid_free = refl }

pub no_temp_tid : find (temp (get_tid_path config)) disk ≡ none
unfolding get_tid_path get_servers_dir has_parent find text_eq
no_temp_tid = refl

pub no_temp_file : find (temp (get_file_path config user filename)) disk ≡ none
unfolding get_file_path get_user_dir get_servers_dir find text_eq
no_temp_file = refl
