-- ===== src/ServerState/Files.antt =====
-- The files of a user after each operation on them.
use file_syncer.Prelude.{
  ◌≡◌, Bool, true, false, ◌&&◌, none, some, [], arith, if◌then◌else◌, Option-cases, Bool-cases, inl,
  inr, ap, ◌∙◌,
}
use file_syncer.Prelude.Text.{Text, text_eq, text_eq_iff}
use file_syncer.Prelude.Map.{find, erase, emplace, modify, text_key}
use file_syncer.Prelude.Map.Laws.{find-emplace, find-erase, find-modify, find-nil, kept_or}
use file_syncer.ServerState.{
  ServerState, UserFile, UserFileList, find_file, has_file, add_file, update_file, remove_file,
}

-- One file, by the user's and the file's name.
abbrev pub same_file : Text → Text → Text → Text → Bool
same_file u f v g = text_eq u v && text_eq f g

-- What a transaction does to record new content.
abbrev pub store : Text → Text → UserFile → ServerState → ServerState
store u f r s = if has_file s u f then update_file u f r s else add_file u f r s

module _ (u f v g : Text) (s : ServerState) where
  -- `addFile` makes the list of a new user and leaves a file that is there.
  pub find_file-add_file :
      (r : UserFile)
      → find_file (add_file u f r s) v g
        ≡ (if same_file u f v g then some (kept_or (find_file s u f) r) else find_file s v g)
  unfolding find_file add_file
  find_file-add_file r = elim (Option-cases (find u s.user_files)) [
    | inl e ↦ ground (
      arith,
      e,
      find-modify {V = UserFileList} u v (emplace f r) (emplace u [] s.user_files),
      find-emplace {V = UserFileList} u v [] s.user_files,
      find-emplace {V = UserFile} f g r [],
      find-nil {V = UserFile} f,
      find-nil {V = UserFile} g,
      text_eq_iff u v,
    )
    | inr (m, e) ↦ ground (
      arith,
      e,
      find-modify {V = UserFileList} u v (emplace f r) (emplace u [] s.user_files),
      find-emplace {V = UserFileList} u v [] s.user_files,
      find-emplace {V = UserFile} f g r m,
      text_eq_iff u v,
      text_eq_iff f g,
    )
  ]

  -- `updateFile` replaces a file that is there.
  pub find_file-update_file :
      (r : UserFile)
      → has_file s u f ≡ true
      → find_file (update_file u f r s) v g
        ≡ (if same_file u f v g then some r else find_file s v g)
  unfolding find_file update_file has_file
  find_file-update_file r h = elim (Option-cases (find u s.user_files)) [
    | inl e ↦ ground (arith, e)
    | inr (m, e) ↦ ground (
      arith,
      e,
      find-modify {V = UserFileList} u v (modify f (λ _. r)) s.user_files,
      find-modify {V = UserFile} f g (λ _. r) m,
      text_eq_iff u v,
      text_eq_iff f g,
    )
  ]

  -- `removeFile` removes the file, if there is one, and no other.
  pub find_file-remove_file :
      find_file (remove_file u f s) v g ≡ (if same_file u f v g then none else find_file s v g)
  unfolding find_file remove_file has_file
  find_file-remove_file = elim (Option-cases (find u s.user_files)) [
    | inl e ↦ ground (arith, e, text_eq_iff u v)
    | inr (m, e) ↦ ground (
      arith,
      e,
      find-modify {V = UserFileList} u v (erase f) s.user_files,
      find-erase {V = UserFile} f g m,
      text_eq_iff u v,
      text_eq_iff f g,
    )
  ]

  absent : has_file s u f ≡ false → find_file s u f ≡ none
  unfolding has_file
  absent h = ground arith

  pub find_file-store :
      (r : UserFile)
      → find_file (store u f r s) v g ≡ (if same_file u f v g then some r else find_file s v g)
  find_file-store r = elim (Bool-cases (has_file s u f)) [
    | inl old ↦ rw old (find_file-update_file r old)
    | inr new ↦ rw new (
        find_file-add_file r
        ∙ ap (λ o. if same_file u f v g then some (kept_or o r) else find_file s v g) (absent new))
  ]
