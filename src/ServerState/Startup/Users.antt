-- ===== src/ServerState/Startup/Users.antt =====
-- What the scan of the server's directory comes to: every user's directory, and the tid file.
use file_syncer.Prelude.{
  ◌≡◌, refl, ◌∙◌, ap, Bool, true, false, Option, none, some, List, [], ◌∷◌, arith, if◌then◌else◌,
  is_some, Bool-cases, inl, inr,
}
use mathlib.Core.Option.{or_else}
use file_syncer.Prelude.Int.{ℤ}
use file_syncer.Prelude.Text.{Text, bytes, text_eq, text_eq_iff}
use file_syncer.Prelude.Map.{find, text_key}
use file_syncer.Prelude.Map.Order.{IsSorted}
use file_syncer.Utils.Decimal.{read_int, read_int_twice}
use file_syncer.Config.{Config}
use file_syncer.Disk.{Disk, Node, file, directory, is_directory}
use file_syncer.Disk.Paths.{NoSlash}
use file_syncer.ServerState.{ServerState, UserFile, find_file}
use file_syncer.ServerState.Startup.{is_temp, entries, init_entry, init_entries}
use file_syncer.ServerState.Startup.Entries.{entry_path, is_temp-entry_path, AreListed}
use file_syncer.ServerState.Startup.Sweep.{
  NoTempDirectory, AgreeButTemp, entry_swept, all_swept, remove-temp, entry_swept-NoTempDirectory,
  entry_swept-IsSorted, entry_swept-AgreeButTemp,
}
use file_syncer.ServerState.Startup.Files.{
  scanned, init_files-scanned, file_in, password_in, scanned-rest, find_file-scanned-entries,
  find-scanned-entries,
}

module _ (c : Config) (dir : Text) where
  unfoldable pub entry_scanned : Text → Node → Disk → ServerState → ServerState
  unfolding is_temp entries scanned
  entry_scanned u directory d s =
      if is_temp u then s else scanned c u (entries (entry_path dir u) d) s
  entry_scanned u (file x) d s =
      if is_temp u
      then s
      else if text_eq u (bytes "tid")
      then record s { last_tid = read_int s.last_tid x }
      else s

  unfoldable pub all_scanned : List (Text × Node) → Disk → ServerState → ServerState
  unfolding entry_scanned entry_swept
  all_scanned [] d s = s
  all_scanned ((u, n) ∷ es) d s = all_scanned es (entry_swept dir u n d) (entry_scanned u n d s)

  init_entry-scanned :
      (u : Text) (n : Node) (d : Disk) (s : ServerState)
      → NoTempDirectory d
      → init_entry c dir u n d s ≡ some (entry_swept dir u n d, entry_scanned u n d s)
  unfolding init_entry entry_swept entry_scanned
  init_entry-scanned u directory d s h = elim (Bool-cases (is_temp u)) [
    | inl t ↦ ground (arith, t, remove-temp dir u d t h)
    | inr t ↦
        ground
          (arith, t, init_files-scanned c u (entry_path dir u) (entries (entry_path dir u) d) d s h)
  ]
  init_entry-scanned u (file x) d s h = elim (Bool-cases (is_temp u)) [
    | inl t ↦ ground (arith, t, remove-temp dir u d t h)
    | inr t ↦ ground (arith, t)
  ]

  -- The scan goes through, and leaves this disk and this state.
  pub init_entries-scanned :
      (es : List (Text × Node)) (d : Disk) (s : ServerState)
      → NoTempDirectory d
      → init_entries c dir es d s ≡ some (all_swept dir es d, all_scanned es d s)
  unfolding init_entries all_swept all_scanned
  init_entries-scanned [] d s h = refl
  init_entries-scanned ((u, n) ∷ es) d s h =
      let rest =
        init_entries-scanned es (entry_swept dir u n d) (entry_scanned u n d s)
          (entry_swept-NoTempDirectory dir u n d h) in
      ground (arith, init_entry-scanned u n d s h, rest)

  -- The file that a disk has for a user under a name, the user's password, and the last id.
  abbrev pub file_on : Disk → Text → Text → Option UserFile
  file_on d v g =
      if is_temp v
      then none
      else if is_directory d (entry_path dir v)
      then file_in c v (entry_path dir v) d g
      else none

  abbrev pub password_on : Disk → Text → Option Text
  password_on d v =
      if is_temp v
      then none
      else if is_directory d (entry_path dir v)
      then password_in c v (entry_path dir v) d
      else none

  abbrev node_tid : Option Node → ℤ → ℤ
  node_tid none old = old
  node_tid (some directory) old = old
  node_tid (some (file x)) old = read_int old x

  abbrev pub tid_on : Disk → ℤ → ℤ
  tid_on d old = node_tid (find (entry_path dir (bytes "tid")) d) old

  file_in-agree :
      (v g sub : Text) (d e : Disk) → AgreeButTemp d e → file_in c v sub e g ≡ file_in c v sub d g
  file_in-agree v g sub d e h = ground (arith, h (entry_path sub g), is_temp-entry_path sub g)

  -- One entry, on a disk `e` that has changed at temporary names since `d`.
  find_file-entry_scanned :
      (u v g : Text) (n : Node) (d e : Disk) (s : ServerState)
      → NoSlash g
      → find (entry_path dir u) d ≡ some n
      → AgreeButTemp d e
      → IsSorted e
      → find_file (entry_scanned u n e s) v g
        ≡ (if text_eq u v then or_else (find_file s v g) (file_on d v g) else find_file s v g)
  unfolding entry_scanned find_file is_directory or_else
  find_file-entry_scanned u v g directory d e s k here h i = ground (
    arith,
    here,
    text_eq_iff u v,
    find_file-scanned-entries c u (entry_path dir u) v g e s i k,
    file_in-agree u g (entry_path dir u) d e h,
  )
  find_file-entry_scanned u v g (file x) d e s k here h i = ground (arith, here, text_eq_iff u v)

  -- Every user's files, after the scan of the entries.
  pub find_file-all_scanned :
      (d : Disk) (v g : Text) (es : List (Text × Node)) (e : Disk) (s : ServerState)
      → NoSlash g
      → AreListed d dir es
      → AgreeButTemp d e
      → IsSorted e
      → find_file (all_scanned es e s) v g
        ≡ or_else (find_file s v g) (if is_some (find v es) then file_on d v g else none)
  unfolding all_scanned find or_else
  find_file-all_scanned d v g [] e s k a h i = ground arith
  find_file-all_scanned d v g ((u, n) ∷ es) e s k (here, a) h i =
      let step = find_file-entry_scanned u v g n d e s k here h i in
      let rest =
        find_file-all_scanned d v g es (entry_swept dir u n e) (entry_scanned u n e s) k a
          (λ q t. entry_swept-AgreeButTemp dir u n e q t ∙ h q t)
          (entry_swept-IsSorted dir u n e i) in
      ground (arith, text_eq_iff u v, step, rest)

  password_in-agree :
      (v sub : Text) (d e : Disk) → AgreeButTemp d e → password_in c v sub e ≡ password_in c v sub d
  unfolding is_temp
  password_in-agree v sub d e h =
      let t : is_temp (bytes ".password") ≡ false = refl in
      ground (
        arith,
        h (entry_path sub (bytes ".password")),
        is_temp-entry_path sub (bytes ".password"),
        t,
      )

  find-entry_scanned :
      (u v : Text) (n : Node) (d e : Disk) (s : ServerState)
      → find (entry_path dir u) d ≡ some n
      → AgreeButTemp d e
      → IsSorted e
      → find v (entry_scanned u n e s).senhas
        ≡ (if text_eq u v then or_else (find v s.senhas) (password_on d v) else find v s.senhas)
  unfolding entry_scanned is_directory or_else
  find-entry_scanned u v directory d e s here h i = ground (
    arith,
    here,
    text_eq_iff u v,
    find-scanned-entries c u (entry_path dir u) v e s i,
    password_in-agree u (entry_path dir u) d e h,
  )
  find-entry_scanned u v (file x) d e s here h i = ground (arith, here, text_eq_iff u v)

  pub find-all_scanned :
      (d : Disk) (v : Text) (es : List (Text × Node)) (e : Disk) (s : ServerState)
      → AreListed d dir es
      → AgreeButTemp d e
      → IsSorted e
      → find v (all_scanned es e s).senhas
        ≡ or_else (find v s.senhas) (if is_some (find v es) then password_on d v else none)
  unfolding all_scanned find or_else
  find-all_scanned d v [] e s a h i = ground arith
  find-all_scanned d v ((u, n) ∷ es) e s (here, a) h i =
      let step = find-entry_scanned u v n d e s here h i in
      let rest =
        find-all_scanned d v es (entry_swept dir u n e) (entry_scanned u n e s) a
          (λ q t. entry_swept-AgreeButTemp dir u n e q t ∙ h q t)
          (entry_swept-IsSorted dir u n e i) in
      ground (arith, text_eq_iff u v, step, rest)

  tid-entry_scanned :
      (u : Text) (n : Node) (d e : Disk) (s : ServerState)
      → find (entry_path dir u) d ≡ some n
      → (entry_scanned u n e s).last_tid
        ≡ (if text_eq u (bytes "tid") then tid_on d s.last_tid else s.last_tid)
  unfolding entry_scanned is_temp
  tid-entry_scanned u directory d e s here =
      ground (
        arith,
        here,
        text_eq_iff u (bytes "tid"),
        scanned-rest c u (entries (entry_path dir u) e) s,
      )
  tid-entry_scanned u (file x) d e s here = ground (arith, here, text_eq_iff u (bytes "tid"))

  tid_on_twice : (d : Disk) (old : ℤ) → tid_on d (tid_on d old) ≡ tid_on d old
  tid_on_twice d old =
      elim (find (entry_path dir (bytes "tid")) d)
        as (λ o. node_tid o (node_tid o old) ≡ node_tid o old) [
          | none ↦ refl
          | some directory ↦ refl
          | some (file x) ↦ read_int_twice old x
        ]

  whichever :
      (d : Disk) (b : Bool) (x y : ℤ) → x ≡ y → tid_on d x ≡ y → (if b then tid_on d x else x) ≡ y
  whichever d true x y e k = k
  whichever d false x y e k = e

  -- The last id, after the scan of the entries.
  pub tid-all_scanned :
      (d : Disk) (es : List (Text × Node)) (e : Disk) (s : ServerState)
      → AreListed d dir es
      → (all_scanned es e s).last_tid
        ≡ (if is_some (find (bytes "tid") es) then tid_on d s.last_tid else s.last_tid)
  unfolding all_scanned find
  tid-all_scanned d [] e s a = refl
  tid-all_scanned d ((u, n) ∷ es) e s (here, a) =
      let step = tid-entry_scanned u n d e s here in
      let rest = tid-all_scanned d es (entry_swept dir u n e) (entry_scanned u n e s) a in
      elim (Bool-cases (text_eq u (bytes "tid"))) [
        | inl t ↦
            let here_tid : (entry_scanned u n e s).last_tid ≡ tid_on d s.last_tid =
              step ∙ rw t refl in
            let again = ap (tid_on d) here_tid ∙ tid_on_twice d s.last_tid in
            rest ∙ whichever d _ _ _ here_tid again ∙ rw t refl
        | inr t ↦ ground (arith, t, step, rest)
      ]

  -- What the disk does not keep is as it was.
  abbrev pub Same : ServerState → ServerState → Type 0
  Same s t =
      (s.logged_user_sessions ≡ t.logged_user_sessions)
      × (s.users_last_tid ≡ t.users_last_tid)
      × (s.frontend_connections ≡ t.frontend_connections)

  rest-entry_scanned :
      (u : Text) (n : Node) (e : Disk) (s : ServerState) → Same (entry_scanned u n e s) s
  unfolding entry_scanned
  rest-entry_scanned u directory e s =
      ground (arith, scanned-rest c u (entries (entry_path dir u) e) s)
  rest-entry_scanned u (file x) e s = ground arith

  pub rest-all_scanned :
      (es : List (Text × Node)) (e : Disk) (s : ServerState) → Same (all_scanned es e s) s
  unfolding all_scanned
  rest-all_scanned [] e s = (refl, refl, refl)
  rest-all_scanned ((u, n) ∷ es) e s =
      let step = rest-entry_scanned u n e s in
      let rest = rest-all_scanned es (entry_swept dir u n e) (entry_scanned u n e s) in
      (rest.0 ∙ step.0, rest.1 ∙ step.1, rest.2 ∙ step.2)
