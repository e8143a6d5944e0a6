-- ===== src/ServerState/Startup/Files.antt =====
-- What the scan of one user's directory finds: files and a password.
use file_syncer.Prelude.{
  ◌≡◌, refl, Bool, Option, none, some, List, [], ◌∷◌, arith, if◌then◌else◌, is_some, Bool-cases,
  inl, inr,
}
use mathlib.Core.Option.{or_else}
use mathlib.Core.Option
use file_syncer.Prelude.Text.{Text, bytes, text_eq, text_eq_iff}
use file_syncer.Prelude.Map.{find, emplace, erase, text_key}
use file_syncer.Prelude.Map.Laws.{find-emplace, kept_or}
use file_syncer.Prelude.Map.Order.{IsSorted}
use file_syncer.Config.{Config}
use file_syncer.Disk.{Disk, Node, file, directory}
use file_syncer.Disk.Paths.{NoSlash}
use file_syncer.ServerState.{ServerState, UserFile, find_file, add_file}
use file_syncer.ServerState.Files.{same_file, find_file-add_file}
use file_syncer.ServerState.Startup.{
  is_temp, first_word, entries, file_entry, found_file, init_files,
}
use file_syncer.ServerState.Startup.Entries.{entry_path, find-entries, AreListed, entries-AreListed}
use file_syncer.ServerState.Startup.Sweep.{
  NoTempDirectory, swept, erase-NoTempDirectory, remove-temp,
}

abbrev pub is_password_file : Text → Bool
is_password_file f = text_eq f (bytes ".password")

-- The bytes of a file.
abbrev pub content_at : Option Node → Option Text
content_at none = none
content_at (some directory) = none
content_at (some (file x)) = some x

module _ (c : Config) (u : Text) where
  -- What one file of the directory does to the state.
  unfoldable pub scan_file : Text → Text → ServerState → ServerState
  unfolding is_temp first_word found_file
  scan_file f x s =
      if is_temp f
      then s
      else if is_password_file f
      then record s { senhas = emplace u (first_word x) s.senhas }
      else found_file c u f x s

  unfoldable pub scanned : List (Text × Node) → ServerState → ServerState
  unfolding scan_file
  scanned [] s = s
  scanned ((f, directory) ∷ es) s = scanned es s
  scanned ((f, file x) ∷ es) s = scanned es (scan_file f x s)

  -- The scan goes through, and leaves this disk and this state.
  pub init_files-scanned :
      (dir : Text) (es : List (Text × Node)) (d : Disk) (s : ServerState)
      → NoTempDirectory d
      → init_files c u dir es d s ≡ some (swept dir es d, scanned es s)
  unfolding init_files swept scanned
  init_files-scanned dir [] d s n = refl
  init_files-scanned dir ((f, directory) ∷ es) d s n = init_files-scanned dir es d s n
  init_files-scanned dir ((f, file x) ∷ es) d s n = elim (Bool-cases (is_temp f)) [
    | inl t ↦
        let rest =
          init_files-scanned dir es (erase (entry_path dir f) d) s
            (erase-NoTempDirectory (entry_path dir f) d n) in
        ground (arith, t, remove-temp dir f d t n, rest)
    | inr t ↦ let rest = init_files-scanned dir es d (scan_file f x s) n in ground (arith, t, rest)
  ]

  -- The file that a disk has for the user under a name.
  abbrev pub file_of : Text → Option Text → Option UserFile
  file_of f none = none
  file_of f (some x) = some (file_entry c u f x)

  abbrev pub file_in : Text → Disk → Text → Option UserFile
  file_in dir d f =
      if is_temp f
      then none
      else if is_password_file f
      then none
      else file_of f (content_at (find (entry_path dir f) d))

  find_file-scan_file :
      (f x v g : Text) (s : ServerState)
      → find_file (scan_file f x s) v g ≡ (
          if is_temp f
          then find_file s v g
          else if is_password_file f
          then find_file s v g
          else if same_file u f v g
          then some (kept_or (find_file s u f) (file_entry c u f x))
          else find_file s v g)
  unfolding scan_file found_file add_file find_file
  find_file-scan_file f x v g s = elim (Bool-cases (is_temp f)) [
    | inl t ↦ rw t refl
    | inr t ↦ elim (Bool-cases (is_password_file f)) [
      | inl k ↦ rw (t, k) refl
      | inr k ↦ rw (t, k) (find_file-add_file u f v g s (file_entry c u f x))
    ]
  ]

  -- Every user's files, after the scan of the entries.
  find_file-scanned :
      (dir : Text) (d : Disk) (v g : Text) (es : List (Text × Node)) (s : ServerState)
      → AreListed d dir es
      → find_file (scanned es s) v g ≡ (
          if text_eq u v
          then or_else (find_file s v g) (if is_some (find g es) then file_in dir d g else none)
          else find_file s v g)
  unfolding scanned find or_else
  find_file-scanned dir d v g [] s a = ground arith
  find_file-scanned dir d v g ((f, directory) ∷ es) s (e, a) =
      ground (arith, e, text_eq_iff f g, find_file-scanned dir d v g es s a)
  find_file-scanned dir d v g ((f, file x) ∷ es) s (e, a) =
      let step = find_file-scan_file f x v g s in
      let rest = find_file-scanned dir d v g es (scan_file f x s) a in
      ground (arith, e, text_eq_iff f g, text_eq_iff u v, step, rest)

  abbrev pub password_in : Text → Disk → Option Text
  password_in dir d =
      Option.map first_word (content_at (find (entry_path dir (bytes ".password")) d))

  find-scan_file :
      (f x v : Text) (s : ServerState)
      → find v (scan_file f x s).senhas ≡ (
          if text_eq f (bytes ".password")
          then if text_eq u v
            then some (kept_or (find u s.senhas) (first_word x))
            else find v s.senhas
          else find v s.senhas)
  unfolding scan_file found_file
  find-scan_file f x v s =
      ground (arith, text_eq_iff f (bytes ".password"), find-emplace u v (first_word x) s.senhas)

  find-scanned :
      (dir : Text) (d : Disk) (v : Text) (es : List (Text × Node)) (s : ServerState)
      → AreListed d dir es
      → find v (scanned es s).senhas ≡ (
          if text_eq u v
          then or_else
              (find v s.senhas)
              (if is_some (find (bytes ".password") es) then password_in dir d else none)
          else find v s.senhas)
  unfolding scanned find or_else
  find-scanned dir d v [] s a = ground arith
  find-scanned dir d v ((f, directory) ∷ es) s (e, a) =
      ground (arith, e, text_eq_iff f (bytes ".password"), find-scanned dir d v es s a)
  find-scanned dir d v ((f, file x) ∷ es) s (e, a) =
      let step = find-scan_file f x v s in
      let rest = find-scanned dir d v es (scan_file f x s) a in
      ground (arith, e, text_eq_iff f (bytes ".password"), text_eq_iff u v, step, rest)

  -- What a scan of a user's directory leaves alone.
  pub scanned-rest :
      (es : List (Text × Node)) (s : ServerState)
      → ((scanned es s).last_tid ≡ s.last_tid)
        × ((scanned es s).logged_user_sessions ≡ s.logged_user_sessions)
        × ((scanned es s).users_last_tid ≡ s.users_last_tid)
        × ((scanned es s).frontend_connections ≡ s.frontend_connections)
  unfolding scanned scan_file found_file
  scanned-rest [] s = (refl, refl, refl, refl)
  scanned-rest ((f, directory) ∷ es) s = scanned-rest es s
  scanned-rest ((f, file x) ∷ es) s = ground (arith, scanned-rest es (scan_file f x s))

  -- The whole directory.
  pub find_file-scanned-entries :
      (dir v g : Text) (d : Disk) (s : ServerState)
      → IsSorted d
      → NoSlash g
      → find_file (scanned (entries dir d) s) v g
        ≡ (if text_eq u v then or_else (find_file s v g) (file_in dir d g) else find_file s v g)
  unfolding or_else
  find_file-scanned-entries dir v g d s i n = ground (
    arith,
    find-entries dir g d n,
    find_file-scanned dir d v g (entries dir d) s (entries-AreListed dir d i),
  )

  pub find-scanned-entries :
      (dir v : Text) (d : Disk) (s : ServerState)
      → IsSorted d
      → find v (scanned (entries dir d) s).senhas
        ≡ (if text_eq u v then or_else (find v s.senhas) (password_in dir d) else find v s.senhas)
  unfolding or_else
  find-scanned-entries dir v d s i = ground (
    arith,
    find-entries dir (bytes ".password") d (omega arith),
    find-scanned dir d v (entries dir d) s (entries-AreListed dir d i),
  )
