-- ===== src/Recovery/Created.antt =====
-- A start after a new user was created and committed.
use file_syncer.Prelude.{
  ◌≡◌, ◌≢◌, ◌<◌, drop, refl, sym, ap, ◌∙◌, true, false, ◌||◌, none, some, [], ◌∷◌, ◌++◌, arith,
  length, length-append, append_assoc, Bool-cases, inl, inr,
}
use file_syncer.Prelude.Int.{ℤ, pos}
use file_syncer.Prelude.Text.{Text, bytes, is_empty, text_eq, text_eq_iff}
use file_syncer.Prelude.Map.{find, erase, text_key}
use file_syncer.Prelude.Map.Laws.{find-erase}
use file_syncer.Prelude.Map.Order.{IsSorted, emplace-IsSorted, erase-IsSorted}
use file_syncer.Utils.Decimal.{show_int}
use file_syncer.Utils.Numbers.{InRange, read_int-show_int}
use file_syncer.Config.{Config, get_tid_path, get_user_dir, get_servers_dir, get_file_path}
use file_syncer.Disk.{
  Disk, file, directory, is_directory, strip_slash, has_parent, has_children, remove_all,
  lies_below,
}
use file_syncer.Disk.Paths.{NoSlash, temp}
use file_syncer.Disk.Moved.{lies_below-NoSlash, lies_below-drop}
use file_syncer.ServerState.{ServerState, has_user, check_password}
use file_syncer.ServerState.Startup.{is_temp, first_word, init}
use file_syncer.ServerState.Startup.Entries.{is_temp-entry_path, AreFound, sorted-AreFound}
use file_syncer.ServerState.Startup.Sweep.{NoTempDirectory}
use file_syncer.ServerState.Startup.Restored.{
  CanStart, init-IsRestored, user_dir_path, password_on_disk, id_of,
}
use file_syncer.Transaction.Monad.{Payload, World, returned, ◌>>=◌}
use file_syncer.Transaction.{run, commit}
use file_syncer.Transaction.Verdict.{TidReady, start}
use file_syncer.Transaction.NewUser.{IsFresh, password_path, new_dir, run-create_user}
use file_syncer.Transaction.NewUserCommit.{
  moved, new_tid, find-with_user, find-new_tid, user_there, kept_password, commit_create_user,
  committed_user, tid-ne,
}
use file_syncer.Recovery.Grafted.{
  put-IsSorted, graft-IsSorted, remove_all-IsSorted, find-remove_all, find-graft_apart, OnlyTemp,
  graft-NoTempDirectory,
}

OnlyTemp-found :
    (a : Text) (d m : Disk)
    → AreFound d m
    → ((q : Text) → is_temp q ≡ true → text_eq a q ≡ false → is_directory d q ≡ false)
    → OnlyTemp a m
unfolding is_directory
OnlyTemp-found a d [] f h = tt
OnlyTemp-found a d ((q, file x) ∷ m) (here, f) h = OnlyTemp-found a d m f h
OnlyTemp-found a d ((q, directory) ∷ m) (here, f) h =
    (ground (arith, here, h q), OnlyTemp-found a d m f h)

module _ (c : Config) (u password : Text) (tid : ℤ) (d : Disk) (s : ServerState) (r : TidReady c d)
    (h : IsFresh c u password tid d s) (place : has_parent d (get_tid_path c) ≡ true)
    (no_user : find (get_user_dir c u) d ≡ none)
    (no_child : has_children (get_user_dir c u) d ≡ false) (b : CanStart c d) (n : NoSlash u)
    (k : is_temp u ≡ false) where
  abbrev made : Text
  made = new_dir c u password tid d s

  abbrev ud : Text
  ud = get_user_dir c u

  abbrev before : Disk
  before = new_tid c u password tid d s r h place no_user no_child

  abbrev after : Disk
  after = moved c u password tid d s r h place no_user no_child

  abbrev base : Disk
  base = erase ud (remove_all made before)

  plain : is_temp ud ≡ false
  plain =
      ap is_temp (user_dir_path c b.ends_in_slash u)
      ∙ is_temp-entry_path (strip_slash (get_servers_dir c)) u
      ∙ k

  before-IsSorted : IsSorted before
  before-IsSorted = put-IsSorted _ _ _ (
      erase-IsSorted _ _ (
        erase-IsSorted _ _
          (put-IsSorted _ _ _ (emplace-IsSorted _ _ _ (put-IsSorted _ _ d b.sorted)))))

  -- The one directory of a temporary name is the user's, before it is moved.
  before-quiet :
      (q : Text) → is_temp q ≡ true → text_eq made q ≡ false → is_directory before q ≡ false
  unfolding is_directory
  before-quiet q t e = ground (
    arith,
    t,
    e,
    find-new_tid c u password tid d s r h place no_user no_child q,
    find-with_user c u password tid d s r h place no_user no_child q,
    b.no_temp_directory q t,
  )

  base-NoTempDirectory : NoTempDirectory base
  unfolding is_directory
  base-NoTempDirectory q t = ground (
    arith,
    find-erase ud q (remove_all made before),
    find-remove_all made q before,
    before-quiet q t,
  )

  after-NoTempDirectory : NoTempDirectory after
  after-NoTempDirectory =
      graft-NoTempDirectory made ud before base plain
        (OnlyTemp-found made before before (sorted-AreFound before before-IsSorted) before-quiet)
        base-NoTempDirectory

  -- A path that has to do with neither name of the user's directory, nor with the tid file.
  find-after :
      (q : Text)
      → text_eq ud q ≡ false
      → lies_below ud q ≡ false
      → text_eq made q ≡ false
      → lies_below made q ≡ false
      → find q after ≡ find q before
  find-after q e f e' f' = ground (
    arith,
    e,
    e',
    f',
    find-graft_apart made ud q before base e f,
    find-erase ud q (remove_all made before),
    find-remove_all made q before,
  )

  -- A shorter path is not below a longer one.
  longer : (p q : Text) → length q < length p → (text_eq p q ≡ false) × (lies_below p q ≡ false)
  longer p q l = (
    elim (Bool-cases (text_eq p q)) [
      | inl e ↦ absurd (omega (arith, l, ap (length {0}) ((text_eq_iff p q).0 e)))
      | inr e ↦ e
    ],
    elim (Bool-cases (lies_below p q)) [
      | inl e ↦ absurd (
          omega (
            arith,
            l,
            ap (length {0}) (lies_below-drop p q e),
            length-append {0} p (drop (length p) q),
          ))
      | inr e ↦ e
    ],
  )

  abbrev dir : Text
  dir = strip_slash (get_servers_dir c)

  ud-longer : length dir < length ud
  ud-longer =
      omega (
        arith,
        ap (length {0}) (user_dir_path c b.ends_in_slash u),
        length-append {0} dir (b'/' ∷ u),
      )

  made-longer : length dir < length made
  made-longer = omega (arith, ud-longer, length-append {0} ud (b'~' ∷ []))

  there : is_directory after dir ≡ true
  unfolding is_directory
  there = ground (
    arith,
    find-after dir (longer ud dir ud-longer).0 (longer ud dir ud-longer).1
        (longer made dir made-longer).0 (longer made dir made-longer).1,
    find-new_tid c u password tid d s r h place no_user no_child dir,
    find-with_user c u password tid d s r h place no_user no_child dir,
    b.is_there,
    r.tid_free,
    r.temp_free,
    h.no_password,
    text_eq_iff (get_tid_path c) dir,
    text_eq_iff (temp (get_tid_path c)) dir,
    text_eq_iff (new_dir c u password tid d s) dir,
    text_eq_iff (password_path c u password tid d s) dir,
  )

  differs : (p q : Text) → p ≢ q → text_eq p q ≡ false
  differs p q h = ground (arith, h, text_eq_iff p q)

  after-CanStart : CanStart c after
  after-CanStart = record {
    ends_in_slash = b.ends_in_slash;
    is_there = there;
    sorted = graft-IsSorted made ud before base (
        erase-IsSorted ud (remove_all made before)
          (remove_all-IsSorted made before before-IsSorted));
    no_temp_directory = after-NoTempDirectory;
  }

  new_id : find (get_tid_path c) after ≡ some (file (show_int tid))
  unfolding get_tid_path get_user_dir
  new_id =
      let t = get_tid_path c in
      let servers = get_servers_dir c in
      let apart = lies_below-NoSlash servers u (bytes "tid") (omega arith) in
      let apart' : lies_below made t ≡ false =
        ap (λ p. lies_below p t) (append_assoc servers u (b'~' ∷ []))
        ∙ lies_below-NoSlash servers (u ++ b'~' ∷ []) (bytes "tid") (omega arith) in
      ground (
        arith,
        find-after t (differs ud t h.not_tid) apart
            (differs made t (λ e. tid-ne c u password tid d s r h place no_user no_child (sym e)))
            apart',
        find-new_tid c u password tid d s r h place no_user no_child t,
        text_eq_iff t t,
      )

  password_kept : password_on_disk c after u ≡ some (first_word password)
  unfolding is_directory get_file_path
  password_kept = ground (
    arith,
    k,
    user_there c u password tid d s r h place no_user no_child,
    kept_password c u password tid d s r h place no_user no_child,
  )

  -- On a disk with the server's directory, whose path ends in a slash, and a place for the tid file, without directories under
  -- temporary names and with nothing at the user's directory, below it, or at the temporary names that
  -- the transaction takes, a user who is not in the state, whose name is not empty, is not that of the
  -- tid file, has no slash and does not end in ~, is created with a password that is not empty, under
  -- an id that is an `int`: run and commit return true, and the next start goes through. It
  -- has the user, accepts the password exactly where that is its own first word, so not where it
  -- has white space, and has the id of the transaction as the last id and no session.
  pub restart_after_create_user :
      is_empty u || is_empty password || has_user s u ≡ false
      → InRange tid
      → (w : World) × (e : Disk) × (s' : ServerState) × (((run c >>= λ _. commit c)
            (start (Payload.create_user u password) tid d s))
          ≡ returned true w)
        × (init c w.disk ≡ some (e, s'))
        × (has_user s' u ≡ true)
        × (check_password s' u password ≡ text_eq (first_word password) password)
        × (s'.last_tid ≡ tid)
        × (s'.logged_user_sessions ≡ [])
  unfolding has_user check_password is_temp
  restart_after_create_user free i =
      let (e, s', started, restored) = init-IsRestored c after after-CanStart u [] [] n tt refl in
      let kept = restored.1 ∙ password_kept in
      (
        committed_user c u password tid d s r h place no_user no_child,
        e,
        s',
        ground (
          arith,
          run-create_user c u password tid d s r h free,
          commit_create_user c u password tid d s r h place no_user no_child,
        ),
        started,
        ground (arith, kept),
        ground (arith, kept),
        restored.2 ∙ ap (id_of c) new_id ∙ read_int-show_int (pos 0) tid i,
        restored.3,
      )
