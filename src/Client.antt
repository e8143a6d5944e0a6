-- ===== src/Client.antt =====
-- src/client/mainClient.cpp: the client's commands. What the server answers to a request is an argument,
-- `none` where nothing is received; the terminal's output is left out. The children are the session
-- (ClientConnection.cpp), the watcher's events, the updates of a subscription and the terminal.
mod Tests
pub mod Session
pub mod Watch
pub mod Updates
pub mod Terminal
pub mod Commands
pub mod Main
pub mod LogsOut
pub mod Begins
pub mod Follows
pub mod Bounds
pub mod Ends
pub mod Synced
pub mod Logged
pub mod RoundTrip
use file_syncer.Prelude.{
  Bool, true, false, Option, none, some, List, [], ◌∷◌, ◌++◌, map, if◌then◌else◌, ◌&&◌,
}
use file_syncer.Prelude.Int.{ℤ, pos}
use file_syncer.Prelude.Text.{Text}
use file_syncer.Prelude.Map.{find, text_key}
use file_syncer.Disk.{
  Disk, Node, file, directory, exists, is_directory, read_file, write_file, create_directory,
  strip_slash,
}
use file_syncer.Messages.{RequestType, Request, FileUpdate, Response, file_data_r, file_list}
use file_syncer.Utils.{Xxh64, get_file_digest, digest_to_string}
use file_syncer.ServerState.Startup.{entries}

-- A request with its type, and the defaults of its fields.
unfoldable pub new_request : RequestType → Request
new_request type = record {
  request_type = type;
  username = [];
  password = [];
  filename = [];
  file_update = record { filename = []; deleted = false; hash = [] };
  file_data_update = record {
    file_update = record { filename = []; deleted = false; hash = [] };
    data_bytes = [];
  };
  frontend_subscription = record { hostname = []; port = pos 0 };
}

-- The requests of `deleteFile` and of a file's hash.
unfoldable pub file_update_request : Text → Bool → Text → Request
unfolding new_request
file_update_request filename deleted hash = record (new_request RequestType.file_update) {
  file_update = record { filename = filename; deleted = deleted; hash = hash };
}

unfoldable pub delete_request : Text → Request
unfolding file_update_request
delete_request filename = file_update_request filename true []

-- A file's name, hash and bytes, as UPLOAD or as FILE_DATA.
unfoldable pub data_request : RequestType → Text → Text → Text → Request
unfolding new_request
data_request type filename hash content = record (new_request type) {
  file_data_update = record {
    file_update = record { filename = filename; deleted = false; hash = hash };
    data_bytes = content;
  };
}

-- `digest_to_string(getFileDigest(path))`
unfoldable pub file_hash : Xxh64 → Disk → Text → Text
file_hash xxh d path = digest_to_string (get_file_digest xxh (read_file d path))

-- A stream over a file, read to its end. The read of a directory throws.
pub data Reading : Type 0 where
  contents : Text → Reading
  unopened : Reading
  read_failed : Reading

unfoldable pub read_all : Disk → Text → Reading
read_all d path = elim (find path d) [
  | none ↦ unopened
  | some directory ↦ read_failed
  | some (file content) ↦ contents content
]

-- What a command asks the server, if anything.
pub data Asked : Type 0 where
  asks : Request → Asked
  no_request : Asked
  threw : Asked

-- `upload`. The name of the file on the server is the path as it was given.
unfoldable pub upload_request : Xxh64 → Disk → Text → Asked
unfolding data_request file_hash read_all
upload_request xxh d path = elim (read_all d path) [
  | unopened ↦ no_request
  | read_failed ↦ threw
  | contents content ↦ asks (data_request RequestType.upload path (file_hash xxh d path) content)
]

unfoldable pub download_request : Text → Request
unfolding new_request
download_request filename = record (new_request RequestType.download) { filename = filename }

-- What `download` does with the answer.
unfoldable pub save_download : Text → Option Response → Disk → Disk
save_download path none d = d
save_download path (some (file_data_r filename hash content)) d = write_file path content d
save_download path (some other) d = d

-- `existe_sync_dir`
unfoldable pub has_sync_dir : Disk → Text → Bool
has_sync_dir d path = exists d path && is_directory d path

-- `getSyncDir`; `none` is the exception of `create_directory`.
unfoldable pub get_sync_dir : Text → Disk → Option Disk
unfolding has_sync_dir
get_sync_dir path d = if has_sync_dir d path then some d else create_directory path d

-- The names that `listClient` shows; `none` where the directory cannot be read.
unfoldable pub list_client : Text → Disk → Option (List Text)
unfolding entries
list_client path d =
    if is_directory d path then some (map (λ (e : Text × Node). e.0) (entries path d)) else none

-- The names that `listServer` shows.
unfoldable pub list_server : Option Response → List Text
list_server none = []
list_server (some (file_list files)) = map (λ (f : Text × Text). f.0) files
list_server (some other) = []
