-- ===== src/Transaction/NewUser.antt =====
-- CreateUserTransaction where the name is free: the directory `u~` with the password file in it.
use file_syncer.Prelude.{
  ◌≡◌, ◌≢◌, refl, sym, ap, ◌∙◌, true, false, ◌||◌, none, some, [], ◌∷◌, arith, length,
  length-append,
}
use mathlib.Core.List.{append_cancel_right}
use file_syncer.Prelude.Int.{ℤ}
use file_syncer.Prelude.Text.{Text, bytes, is_empty, text_eq_iff}
use file_syncer.Prelude.Map.{find, emplace, text_key}
use file_syncer.Prelude.Map.Laws.{find-emplace}
use file_syncer.Config.{Config, get_tid_path, get_user_dir}
use file_syncer.Disk.{
  Disk, file, directory, strip_slash, has_parent, is_directory, put, create_directory, write_file,
}
use file_syncer.Disk.Paths.{temp, has_parent-temp}
use file_syncer.Disk.Laws.{find-put, has_parent-put, write_file_lem}
use file_syncer.ServerState.{
  ServerState, has_user, add_user, set_user_last_tid, set_last_tid, is_valid,
}
use file_syncer.ServerState.Startup.Entries.{entry_path, cut_last_slash-entry_path}
use file_syncer.Transaction.Monad.{Payload, returned}
use file_syncer.Transaction.{run}
use file_syncer.Transaction.Verdict.{TidReady, start, with_tid, prepared_world, opened}
use file_syncer.Utils.Decimal.{show_int}

strip_slash-temp : (p : Text) → strip_slash (temp p) ≡ temp p
unfolding strip_slash
strip_slash-temp [] = refl
strip_slash-temp (b ∷ []) = refl
strip_slash-temp (b ∷ a ∷ p) = ap (λ q. b ∷ q) (strip_slash-temp (a ∷ p))

pub entry_path-ne : (p f : Text) → p ≢ entry_path p f
entry_path-ne p f e = omega (arith, ap (length {0}) e, length-append {0} p (b'/' ∷ f))

module _ (c : Config) (u password : Text) (tid : ℤ) (d : Disk) (s : ServerState) where
  abbrev pub new_dir : Text
  new_dir = temp (get_user_dir c u)

  abbrev pub password_path : Text
  password_path = entry_path new_dir (bytes ".password")

  -- After `begin`, with the directory, and with the password.
  abbrev pub with_dir : Disk
  with_dir = emplace new_dir directory (with_tid c tid d)

  abbrev pub with_user : Disk
  with_user = put password_path (file password) with_dir

  -- The user's directory can be made: its own is there, and nothing has its temporary name.
  pub record IsFresh : Type 0 where
    pub parent : has_parent d (get_user_dir c u) ≡ true
    pub no_dir : find new_dir d ≡ none
    pub no_password : find password_path d ≡ none
    pub not_tid : get_user_dir c u ≢ get_tid_path c

  module _ (r : TidReady c d) (h : IsFresh) where
    pub ne : temp (get_tid_path c) ≢ new_dir
    ne e = h.not_tid (sym (append_cancel_right (get_tid_path c) (get_user_dir c u) (b'~' ∷ []) e))

    pub find-new_dir : find new_dir (with_tid c tid d) ≡ none
    find-new_dir = ground (
      arith,
      ne,
      h.no_dir,
      find-put (temp (get_tid_path c)) new_dir (file (show_int tid)) d,
      text_eq_iff (temp (get_tid_path c)) new_dir,
    )

    make : create_directory new_dir (with_tid c tid d) ≡ some with_dir
    unfolding create_directory
    make =
        let place : has_parent (with_tid c tid d) new_dir ≡ true =
          has_parent-put new_dir (temp (get_tid_path c)) (show_int tid) d
            (has_parent-temp d (get_user_dir c u) ∙ h.parent) r.temp_free in
        ground (arith, strip_slash-temp (get_user_dir c u), find-new_dir, place)

    write : write_file password_path password with_dir ≡ with_user
    unfolding has_parent is_directory
    write =
        let made = find-emplace new_dir new_dir directory (with_tid c tid d) in
        let other = find-emplace new_dir password_path directory (with_tid c tid d) in
        let tid_there = find-put (temp (get_tid_path c)) password_path (file (show_int tid)) d in
        let up = cut_last_slash-entry_path new_dir (bytes ".password") (omega arith) in
        write_file_lem password_path password with_dir
          (ground (arith, made, up, find-new_dir, text_eq_iff new_dir new_dir))
          (ground (
            arith,
            other,
            tid_there,
            h.no_password,
            find-new_dir,
            text_eq_iff new_dir password_path,
            entry_path-ne new_dir (bytes ".password"),
          ))

    pub run-create_user :
        is_empty u || is_empty password || has_user s u ≡ false
        → run c (start (Payload.create_user u password) tid d s)
          ≡ returned true (
              prepared_world
                (Payload.create_user u password)
                tid
                with_user
                s
                (set_user_last_tid u tid (add_user u password (set_last_tid tid s))))
    unfolding run is_valid has_user set_last_tid
    run-create_user k = ground (arith, opened c tid d s r, make, write, k)
