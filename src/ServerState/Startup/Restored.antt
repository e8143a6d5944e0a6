-- ===== src/ServerState/Startup/Restored.antt =====
-- `ServerState::init` as a whole, against what the disk has at the paths of ServerState.cpp.
use file_syncer.Prelude.{
  ◌≡◌, refl, sym, ◌∙◌, ap, true, false, ◌||◌, Option, none, some, [], ◌∷◌, ◌++◌, arith,
  if◌then◌else◌, append_assoc,
}
use mathlib.Core.Option.{or_else}
use mathlib.Core.Option
use file_syncer.Prelude.Int.{ℤ, pos}
use file_syncer.Prelude.Text.{Text, bytes}
use file_syncer.Prelude.Map.{find, text_key}
use file_syncer.Prelude.Map.Order.{IsSorted}
use file_syncer.Utils.Decimal.{read_int}
use file_syncer.Config.{Config, get_servers_dir, get_user_dir, get_file_path, get_tid_path}
use file_syncer.Disk.{Disk, Node, file, directory, is_directory, strip_slash, create_directory}
use file_syncer.Disk.Paths.{NoSlash}
use file_syncer.ServerState.{ServerState, UserFile, find_file, empty_state}
use file_syncer.ServerState.Startup.{is_temp, first_word, entries, init}
use file_syncer.ServerState.Startup.Entries.{entry_path, find-entries, entries-AreListed, AreListed}
use file_syncer.ServerState.Startup.Sweep.{NoTempDirectory, all_swept, all_swept-AgreeButTemp}
use file_syncer.ServerState.Startup.Files.{is_password_file, content_at, file_of}
use file_syncer.ServerState.Startup.Users.{
  all_scanned, init_entries-scanned, find_file-all_scanned, find-all_scanned, tid-all_scanned,
  rest-all_scanned, Same,
}

-- The server's directory is there, its name ends in a slash, every path is once on the disk, and
-- no temporary name is that of a directory.
pub record CanStart (c : Config) (d : Disk) : Type 0 where
  pub ends_in_slash : strip_slash (get_servers_dir c) ++ b'/' ∷ [] ≡ get_servers_dir c
  pub is_there : is_directory d (strip_slash (get_servers_dir c)) ≡ true
  pub sorted : IsSorted d
  pub no_temp_directory : NoTempDirectory d

module _ (c : Config) where
  -- What a start makes of a user's file: no file of a temporary name or of the password file's.
  abbrev pub file_on_disk : Disk → Text → Text → Option UserFile
  file_on_disk d v g =
      if is_temp v || is_temp g || is_password_file g
      then none
      else if is_directory d (get_user_dir c v)
      then file_of c v g (content_at (find (get_file_path c v g) d))
      else none

  abbrev pub password_on_disk : Disk → Text → Option Text
  password_on_disk d v =
      if is_temp v
      then none
      else if is_directory d (get_user_dir c v)
      then Option.map first_word (content_at (find (get_file_path c v (bytes ".password")) d))
      else none

  abbrev pub id_of : Option Node → ℤ
  id_of none = pos 0
  id_of (some directory) = pos 0
  id_of (some (file x)) = read_int (pos 0) x

  -- The disk and the state after a start, at a user, a file and a path.
  abbrev pub IsRestored : Disk → Text → Text → Text → Disk → ServerState → Type 0
  IsRestored d v g q e s =
      (find_file s v g ≡ file_on_disk d v g)
      × (find v s.senhas ≡ password_on_disk d v)
      × (s.last_tid ≡ id_of (find (get_tid_path c) d))
      × (s.logged_user_sessions ≡ [])
      × (s.users_last_tid ≡ [])
      × (s.frontend_connections ≡ [])
      × (find q e ≡ find q d)

  abbrev dir : Text
  dir = strip_slash (get_servers_dir c)

  module _ (slash : strip_slash (get_servers_dir c) ++ b'/' ∷ [] ≡ get_servers_dir c) where
    below_servers_dir : (t : Text) → get_servers_dir c ++ t ≡ entry_path dir t
    below_servers_dir t = ap (λ x. x ++ t) (sym slash) ∙ append_assoc dir (b'/' ∷ []) t

    pub user_dir_path : (v : Text) → get_user_dir c v ≡ entry_path dir v
    unfolding get_user_dir
    user_dir_path v = below_servers_dir v

    file_path : (v g : Text) → get_file_path c v g ≡ entry_path (entry_path dir v) g
    unfolding get_file_path
    file_path v g = ap (λ x. entry_path x g) (user_dir_path v)

    pub tid_path : get_tid_path c ≡ entry_path dir (bytes "tid")
    unfolding get_tid_path
    tid_path = below_servers_dir (bytes "tid")

  module _ (d : Disk) (r : CanStart c d) where
    abbrev e' : Disk
    e' = all_swept dir (entries dir d) d

    abbrev s' : ServerState
    s' = all_scanned c dir (entries dir d) d empty_state

    init-scanned : init c d ≡ some (e', s')
    unfolding init create_directory is_directory
    init-scanned = ground (
      arith,
      r.is_there,
      init_entries-scanned c dir (entries dir d) d empty_state r.no_temp_directory,
    )

    at : AreListed d dir (entries dir d)
    at = entries-AreListed dir d r.sorted

    find_file-start : (v g : Text) → NoSlash v → NoSlash g → find_file s' v g ≡ file_on_disk d v g
    unfolding find_file or_else empty_state find is_directory
    find_file-start v g nv ng = ground (
      arith,
      find_file-all_scanned c dir d v g (entries dir d) d empty_state ng at (λ q k. refl) r.sorted,
      find-entries dir v d nv,
      user_dir_path r.ends_in_slash v,
      file_path r.ends_in_slash v g,
    )

    password-start : (v : Text) → NoSlash v → find v s'.senhas ≡ password_on_disk d v
    unfolding or_else empty_state find is_directory
    password-start v nv = ground (
      arith,
      find-all_scanned c dir d v (entries dir d) d empty_state at (λ q k. refl) r.sorted,
      find-entries dir v d nv,
      user_dir_path r.ends_in_slash v,
      file_path r.ends_in_slash v (bytes ".password"),
    )

    tid-start : s'.last_tid ≡ id_of (find (get_tid_path c) d)
    unfolding empty_state
    tid-start = ground (
      arith,
      tid-all_scanned c dir d (entries dir d) d empty_state at,
      find-entries dir (bytes "tid") d (omega arith),
      tid_path r.ends_in_slash,
    )

    rest-start : Same c dir s' empty_state
    rest-start = rest-all_scanned c dir (entries dir d) d empty_state

    -- A start on a disk with the server's directory, whose path ends in a slash, and without temporary directories takes from the
    -- paths at which they are kept, for names without a slash, a user's files, but for `.password` and
    -- temporary names, which it does not take, and the user's password up to white space; users of
    -- temporary names it does not take. The last id is what `>>` reads from the tid file, and 0
    -- where there is none. There are no sessions, no ids of users and no front ends, and no path
    -- but a temporary one has changed.
    pub init-IsRestored :
        (v g q : Text)
        → NoSlash v
        → NoSlash g
        → is_temp q ≡ false
        → (e : Disk) × (s : ServerState) × (init c d ≡ some (e, s)) × IsRestored d v g q e s
    unfolding empty_state
    init-IsRestored v g q nv ng t = (
      e',
      s',
      init-scanned,
      (
        find_file-start v g nv ng,
        password-start v nv,
        tid-start,
        rest-start.0,
        rest-start.1,
        rest-start.2,
        all_swept-AgreeButTemp dir (entries dir d) d q t,
      ),
    )
