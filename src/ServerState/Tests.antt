-- ===== src/ServerState/Tests.antt =====
-- The operations on files, on a small state.
use file_syncer.Prelude.{◌≡◌, some, if◌then◌else◌}
use file_syncer.Prelude.Text.{bytes}
use file_syncer.ServerState.{find_file}
use file_syncer.Prelude.Map.{text_key, int_key}
use file_syncer.ServerState.Files.{same_file, store, find_file-store}
use file_syncer.Samples.{user, filename, state, old_file}

find_file-store_example : find_file (store user (bytes "g") old_file state) user filename ≡ (
    if same_file user (bytes "g") user filename
    then some old_file
    else find_file state user filename)
find_file-store_example = find_file-store user (bytes "g") user filename state old_file
