-- ===== src/Transaction/NewUserCommit.antt =====
-- CreateUserTransaction from run to commit: the new user's directory and password in their places.
use file_syncer.Prelude.{
  ◌≡◌, ◌≢◌, refl, sym, ap, ◌∙◌, true, false, ◌++◌, none, some, [], ◌∷◌, arith, length,
  length-append, if◌then◌else◌, Option-cases, inl, inr, append_assoc,
}
use mathlib.Core.List.{append-nil}
use file_syncer.Prelude.Int.{ℤ}
use file_syncer.Prelude.Text.{Text, bytes, text_eq, text_eq_iff}
use file_syncer.Prelude.Map.{find, erase, text_key}
use file_syncer.Prelude.Map.Laws.{find-emplace, find-erase}
use file_syncer.Config.{Config, get_tid_path, get_user_dir, get_servers_dir, get_file_path}
use file_syncer.Config.Apart.{paths-AreApart}
use file_syncer.Disk.{
  Disk, lies_below, starts_with, cut_last_slash, file, directory, has_parent, is_directory, put,
  has_children, remove, remove_all, rename, graft,
}
use file_syncer.Disk.Paths.{temp, temp-ne, text_eq-temp}
use file_syncer.Disk.Moved.{
  lies_below-entry_path, find-graft, rename_directory, has_children-put, has_children-emplace,
  has_children-erase, lies_below-append, lies_below-NoSlash,
}
use file_syncer.Disk.Laws.{
  has_parent-erase, is_directory-erase, rename_lem, remove_lem, find-put, has_parent-put,
}
use file_syncer.ServerState.{ServerState, get_last_tid, add_user, set_user_last_tid, set_last_tid}
use file_syncer.ServerState.Startup.Entries.{entry_path, is_temp-append}
use file_syncer.ServerState.Startup.{is_temp}
use file_syncer.Transaction.Monad.{Payload, World, returned}
use file_syncer.Transaction.{commit}
use file_syncer.Transaction.Verdict.{TidReady, with_tid, prepared_world}
use file_syncer.Utils.Decimal.{show_int}
use file_syncer.Transaction.NewUser.{
  IsFresh, new_dir, password_path, with_dir, with_user, find-new_dir, ne, entry_path-ne,
}

module _ (c : Config) (u password : Text) (tid : ℤ) (d : Disk) (s : ServerState) (r : TidReady c d)
    (h : IsFresh c u password tid d s) (place : has_parent d (get_tid_path c) ≡ true)
    (no_user : find (get_user_dir c u) d ≡ none)
    (no_child : has_children (get_user_dir c u) d ≡ false) where
  abbrev made_dir : Text
  made_dir = new_dir c u password tid d s

  abbrev made_file : Text
  made_file = password_path c u password tid d s

  abbrev dir_made : Disk
  dir_made = with_dir c u password tid d s

  abbrev user_made : Disk
  user_made = with_user c u password tid d s

  abbrev t : Text
  t = get_tid_path c

  abbrev no_tid : Disk
  no_tid = erase t user_made

  abbrev pub new_tid : Disk
  new_tid = put t (file (show_int tid)) (erase (temp t) no_tid)

  abbrev pub moved : Disk
  moved =
      graft made_dir (get_user_dir c u) new_tid
        (erase (get_user_dir c u) (remove_all made_dir new_tid))

  pub tid-ne : t ≢ made_dir
  unfolding get_tid_path is_temp
  tid-ne e = ground (
    arith,
    ap is_temp e,
    is_temp-append (get_servers_dir c) b't' (bytes "id"),
    is_temp-append (get_user_dir c u) b'~' [],
  )

  -- A path after the transaction has run.
  pub find-with_user :
      (q : Text)
      → find q user_made ≡ (
          if text_eq made_file q
          then some (file password)
          else if text_eq made_dir q
          then some directory
          else if text_eq (temp t) q
          then some (file (show_int tid))
          else find q d)
  find-with_user q = ground (
    arith,
    find-new_dir c u password tid d s r h,
    find-put made_file q (file password) dir_made,
    find-emplace made_dir q directory (with_tid c tid d),
    find-put (temp t) q (file (show_int tid)) d,
  )

  tid_free : is_directory user_made t ≡ false
  unfolding is_directory
  tid_free = ground (arith, find-with_user t, tid-ne, r.tid_free, text_eq_iff made_dir t)

  remove_tid : remove t user_made ≡ some no_tid
  remove_tid = remove_lem t user_made tid_free

  password-ne : made_file ≢ temp t
  unfolding is_temp
  password-ne e = ground (
    arith,
    ap is_temp e,
    is_temp-append made_dir b'/' (bytes ".password"),
    is_temp-append t b'~' [],
  )

  password-ne_tid : made_file ≢ t
  unfolding get_user_dir get_file_path
  password-ne_tid e = (paths-AreApart c (temp u) (bytes ".password")).p-ne-t (
      ap (λ x. entry_path x (bytes ".password"))
        (sym (append_assoc (get_servers_dir c) u (b'~' ∷ [])))
      ∙ e)

  find-temp_tid : find (temp t) no_tid ≡ some (file (show_int tid))
  find-temp_tid = ground (
    arith,
    find-erase t (temp t) user_made,
    find-with_user (temp t),
    ne c u password tid d s r h,
    password-ne,
    temp-ne t,
    text_eq_iff t (temp t),
    text_eq_iff (temp t) (temp t),
    text_eq_iff made_file (temp t),
    text_eq_iff made_dir (temp t),
  )

  is_directory-no_tid : (q : Text) → is_directory d q ≡ true → is_directory no_tid q ≡ true
  unfolding is_directory
  is_directory-no_tid q k = ground (
    arith,
    k,
    find-erase t q user_made,
    find-with_user q,
    h.no_password,
    r.temp_free,
    r.tid_free,
    text_eq_iff t q,
    text_eq_iff (temp t) q,
    text_eq_iff made_file q,
  )

  has_parent-no_tid : (q : Text) → has_parent d q ≡ true → has_parent no_tid q ≡ true
  unfolding has_parent
  has_parent-no_tid q k = elim (Option-cases (cut_last_slash q)) [
    | inl e ↦ rw (has_parent, e) refl
    | inr (p, e) ↦ ground (arith, e, k, is_directory-no_tid p)
  ]

  move_tid : rename (temp t) t no_tid ≡ some new_tid
  move_tid =
      rename_lem (temp t) t (show_int tid) no_tid find-temp_tid
        (is_directory-erase t t user_made tid_free) (has_parent-no_tid t place)

  -- A path after the new tid file is in place.
  pub find-new_tid :
      (q : Text)
      → find q new_tid ≡ (
          if text_eq t q
          then some (file (show_int tid))
          else if text_eq (temp t) q
          then none
          else find q user_made)
  find-new_tid q = ground (
    arith,
    find-put t q (file (show_int tid)) (erase (temp t) no_tid),
    find-erase (temp t) q no_tid,
    find-erase t q user_made,
  )

  new_dir_there : find made_dir new_tid ≡ some directory
  new_dir_there = ground (
    arith,
    find-new_tid made_dir,
    find-with_user made_dir,
    tid-ne,
    ne c u password tid d s r h,
    entry_path-ne made_dir (bytes ".password"),
    text_eq_iff t made_dir,
    text_eq_iff (temp t) made_dir,
    text_eq_iff made_file made_dir,
    text_eq_iff made_dir made_dir,
  )

  password_there : find made_file new_tid ≡ some (file password)
  password_there = ground (
    arith,
    find-new_tid made_file,
    find-with_user made_file,
    password-ne,
    password-ne_tid,
    text_eq_iff t made_file,
    text_eq_iff (temp t) made_file,
    text_eq_iff made_file made_file,
  )

  password-ne_dir : made_file ≢ get_user_dir c u
  password-ne_dir e = omega (
    arith,
    ap (length {0}) e,
    length-append {0} made_dir (b'/' ∷ bytes ".password"),
    length-append {0} (get_user_dir c u) (b'~' ∷ []),
  )

  free_name : find (get_user_dir c u) new_tid ≡ none
  free_name = ground (
    arith,
    find-new_tid (get_user_dir c u),
    find-with_user (get_user_dir c u),
    no_user,
    password-ne_dir,
    text_eq_iff t (get_user_dir c u),
    text_eq_iff (temp t) (get_user_dir c u),
    text_eq_iff made_file (get_user_dir c u),
    text_eq_iff made_dir (get_user_dir c u),
    temp-ne (get_user_dir c u),
    h.not_tid,
  )

  empty_name : has_children (get_user_dir c u) new_tid ≡ false
  unfolding get_user_dir get_tid_path starts_with
  empty_name =
      let ud = get_user_dir c u in
      has_children-put ud t (file (show_int tid)) (erase (temp t) no_tid)
        (lies_below-NoSlash (get_servers_dir c) u (bytes "tid") (omega arith))
        (has_children-erase ud (temp t) no_tid (
          has_children-erase ud t user_made (
            has_children-put ud made_file (file password) dir_made
              (ap (lies_below ud) (append_assoc ud (b'~' ∷ []) (b'/' ∷ bytes ".password"))
                ∙ lies_below-append ud (b'~' ∷ b'/' ∷ bytes ".password") refl)
              (has_children-emplace ud made_dir directory (with_tid c tid d)
                (lies_below-append ud (b'~' ∷ []) refl)
                (has_children-put ud (temp t) (file (show_int tid)) d
                  (ap (lies_below ud) (append_assoc (get_servers_dir c) (bytes "tid") (b'~' ∷ []))
                    ∙ lies_below-NoSlash (get_servers_dir c) u (bytes "tid~") (omega arith))
                  no_child)))))

  temp_tid_free : is_directory no_tid (temp t) ≡ false
  unfolding is_directory
  temp_tid_free = ground (arith, find-temp_tid)

  move_user : rename made_dir (get_user_dir c u) new_tid ≡ some moved
  move_user =
      rename_directory made_dir (get_user_dir c u) new_tid new_dir_there
        (text_eq-temp (get_user_dir c u)) free_name empty_name
        (has_parent-put (get_user_dir c u) t (show_int tid) (erase (temp t) no_tid)
          (has_parent-erase (get_user_dir c u) (temp t) no_tid
            (has_parent-no_tid (get_user_dir c u) h.parent) temp_tid_free)
          (is_directory-erase (temp t) t no_tid (is_directory-erase t t user_made tid_free)))

  pub user_there : find (get_user_dir c u) moved ≡ some directory
  user_there =
      ap (λ q. find q moved) (sym (append-nil (get_user_dir c u)))
      ∙ find-graft made_dir (get_user_dir c u) [] directory
          (erase (get_user_dir c u) (remove_all made_dir new_tid)) new_tid
          (ap (λ q. find q new_tid) (append-nil made_dir) ∙ new_dir_there)
          (inl ((text_eq_iff made_dir (made_dir ++ [])).1 (sym (append-nil made_dir))))

  pub kept_password :
      find (entry_path (get_user_dir c u) (bytes ".password")) moved ≡ some (file password)
  kept_password =
      find-graft made_dir (get_user_dir c u) (b'/' ∷ bytes ".password") (file password)
        (erase (get_user_dir c u) (remove_all made_dir new_tid)) new_tid password_there
        (inr (lies_below-entry_path made_dir (bytes ".password")))

  -- The state that is published.
  abbrev pub with_newcomer : ServerState
  with_newcomer = set_user_last_tid u tid (add_user u password (set_last_tid tid s))

  abbrev pub committed_user : World
  committed_user =
      record (prepared_world (Payload.create_user u password) tid moved with_newcomer
        with_newcomer) {
          tx = record (prepared_world (Payload.create_user u password) tid d s with_newcomer).tx {
            is_committed = true;
          };
        }

  pub commit_create_user :
      commit c (prepared_world (Payload.create_user u password) tid user_made s with_newcomer)
      ≡ returned true committed_user
  unfolding commit
  commit_create_user = ground (arith, remove_tid, move_tid, move_user)

  pub newcomer_tid : get_last_tid with_newcomer ≡ tid
  unfolding get_last_tid add_user set_user_last_tid set_last_tid
  newcomer_tid = refl
