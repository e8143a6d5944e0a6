-- ===== src/Config.antt =====
-- What the server takes from outside: `getenv("HOME")`, the `syncer_dir` of config.txt, the xxHash
-- library; and the paths of ServerState.cpp over them.
pub mod Apart
use file_syncer.Prelude.{◌++◌, ◌∷◌}
use file_syncer.Prelude.Text.{Text, bytes}
use file_syncer.Utils.{Xxh64}

pub record Config : Type 0 where
  pub home : Text
  pub server_dir : Text
  pub xxh64 : Xxh64

module _ (c : Config) where
  unfoldable pub get_servers_dir : Text
  get_servers_dir = c.home ++ (b'/' ∷ c.server_dir)

  unfoldable pub get_user_dir : Text → Text
  get_user_dir user = get_servers_dir ++ user

  unfoldable pub get_file_path : Text → Text → Text
  get_file_path username filename = get_user_dir username ++ (b'/' ∷ filename)

  unfoldable pub get_tid_path : Text
  get_tid_path = get_servers_dir ++ bytes "tid"
