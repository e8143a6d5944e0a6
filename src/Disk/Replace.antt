-- ===== src/Disk/Replace.antt =====
-- The disk in the course of a change of the file `p`, with the tid file `t`: the four paths are
-- variables here, and only that they are different counts.
use file_syncer.Prelude.{◌≡◌, true, false, none, some, arith, if◌then◌else◌}
use file_syncer.Prelude.Text.{Text, text_eq, text_eq_iff}
use file_syncer.Prelude.Map.{find, erase, text_key}
use file_syncer.Prelude.Map.Laws.{find-erase}
use file_syncer.Config.Apart.{AreApart}
use file_syncer.Disk.{
  Disk, file, put, remove, rename, write_file, is_directory, has_parent, read_file,
}
use file_syncer.Disk.Paths.{temp, has_parent-temp}
use file_syncer.Disk.Laws.{
  find-put, write_file_lem, remove_lem, rename_lem, has_parent-put, has_parent-erase,
  is_directory-put, is_directory-erase, read_file-put,
}

-- A disk has room for the tid file `t` and the file `p` where the directories of both and of their
-- temporary names are there, and none of the four is a directory.
pub record Room (t p : Text) (d : Disk) : Type 0 where
  pub t_parent : has_parent d t ≡ true
  pub t_free : is_directory d t ≡ false
  pub temp_t_free : is_directory d (temp t) ≡ false
  pub p_parent : has_parent d p ≡ true
  pub p_free : is_directory d p ≡ false
  pub temp_p_free : is_directory d (temp p) ≡ false

module _ (t p tid content : Text) (d : Disk) where
  -- After `begin`, and after the write of the new content.
  abbrev pub begun : Disk
  begun = put (temp t) (file tid) d

  abbrev pub written : Disk
  written = put (temp p) (file content) begun

  -- In `commit`: the old tid file is removed, the new one moved in, then the file.
  abbrev pub no_tid : Disk
  no_tid = erase t written

  abbrev pub new_tid : Disk
  new_tid = put t (file tid) (erase (temp t) no_tid)

  abbrev pub replaced : Disk
  replaced = put p (file content) (erase (temp p) new_tid)

  -- In a rollback: the new tid file is removed, then the new content.
  abbrev pub restored : Disk
  restored = erase (temp p) (erase (temp t) written)

module _ (t p tid content : Text) (d : Disk) (a : AreApart t p) (r : Room t p d) where
  open a use {p-ne-t, p-ne-temp_t, temp_p-ne-t, temp_p-ne-temp_t, temp_p-ne-p, temp_t-ne-t}

  pub write_tid : write_file (temp t) tid d ≡ begun t p tid content d
  write_tid =
      write_file_lem (temp t) tid d (ground (arith, has_parent-temp d t, r.t_parent)) r.temp_t_free

  pub write_content :
      write_file (temp p) content (begun t p tid content d) ≡ written t p tid content d
  write_content =
      write_file_lem (temp p) content (begun t p tid content d)
        (has_parent-put (temp p) (temp t) tid d (ground (arith, has_parent-temp d p, r.p_parent))
          r.temp_t_free)
        (is_directory-put (temp t) (temp p) tid d r.temp_p_free)

  pub read_content : read_file (written t p tid content d) (temp p) ≡ some content
  read_content = read_file-put (temp p) content (begun t p tid content d)

  -- A path that is no directory at the start is none in between.
  pub written_free :
      (q : Text) → is_directory d q ≡ false → is_directory (written t p tid content d) q ≡ false
  written_free q h =
      is_directory-put (temp p) q content (begun t p tid content d)
        (is_directory-put (temp t) q tid d h)

  written_parent :
      (q : Text) → has_parent d q ≡ true → has_parent (written t p tid content d) q ≡ true
  written_parent q h =
      has_parent-put q (temp p) content (begun t p tid content d)
        (has_parent-put q (temp t) tid d h r.temp_t_free)
        (is_directory-put (temp t) (temp p) tid d r.temp_p_free)

  pub remove_tid : remove t (written t p tid content d) ≡ some (no_tid t p tid content d)
  remove_tid = remove_lem t (written t p tid content d) (written_free t r.t_free)

  find-temp_tid : find (temp t) (no_tid t p tid content d) ≡ some (file tid)
  find-temp_tid = ground (
    arith,
    find-erase t (temp t) (written t p tid content d),
    find-put (temp p) (temp t) (file content) (begun t p tid content d),
    find-put (temp t) (temp t) (file tid) d,
    text_eq_iff (temp t) (temp t),
    text_eq_iff t (temp t),
    text_eq_iff (temp p) (temp t),
  )

  pub move_tid : rename (temp t) t (no_tid t p tid content d) ≡ some (new_tid t p tid content d)
  move_tid =
      rename_lem (temp t) t tid (no_tid t p tid content d) find-temp_tid
        (is_directory-erase t t (written t p tid content d) (written_free t r.t_free))
        (has_parent-erase t t (written t p tid content d) (written_parent t r.t_parent)
          (written_free t r.t_free))

  find-temp-content : find (temp p) (new_tid t p tid content d) ≡ some (file content)
  find-temp-content = ground (
    arith,
    find-put t (temp p) (file tid) (erase (temp t) (no_tid t p tid content d)),
    find-erase (temp t) (temp p) (no_tid t p tid content d),
    find-erase t (temp p) (written t p tid content d),
    find-put (temp p) (temp p) (file content) (begun t p tid content d),
    text_eq_iff (temp p) (temp p),
    text_eq_iff t (temp p),
    text_eq_iff (temp t) (temp p),
  )

  pub new_tid_free :
      (q : Text) → is_directory d q ≡ false → is_directory (new_tid t p tid content d) q ≡ false
  new_tid_free q h = is_directory-put t q tid _ (
      is_directory-erase (temp t) q _
        (is_directory-erase t q (written t p tid content d) (written_free q h)))

  new_tid_parent :
      (q : Text) → has_parent d q ≡ true → has_parent (new_tid t p tid content d) q ≡ true
  new_tid_parent q h =
      has_parent-put q t tid (erase (temp t) (no_tid t p tid content d))
        (has_parent-erase q (temp t) (no_tid t p tid content d)
          (has_parent-erase q t (written t p tid content d) (written_parent q h)
            (written_free t r.t_free))
          (is_directory-erase t (temp t) (written t p tid content d)
            (written_free (temp t) r.temp_t_free)))
        (is_directory-erase (temp t) t (no_tid t p tid content d)
          (is_directory-erase t t (written t p tid content d) (written_free t r.t_free)))

  pub move_content :
      rename (temp p) p (new_tid t p tid content d) ≡ some (replaced t p tid content d)
  move_content =
      rename_lem (temp p) p content (new_tid t p tid content d) find-temp-content
        (new_tid_free p r.p_free) (new_tid_parent p r.p_parent)

  -- Where the temporary names were unused, only the two files have changed.
  pub find-replaced :
      (q : Text)
      → find (temp t) d ≡ none
      → find (temp p) d ≡ none
      → find q (replaced t p tid content d) ≡ (
          if text_eq p q
          then some (file content)
          else if text_eq t q
          then some (file tid)
          else find q d)
  find-replaced q ht hp = ground (
    arith,
    find-put p q (file content) (erase (temp p) (new_tid t p tid content d)),
    find-erase (temp p) q (new_tid t p tid content d),
    find-put t q (file tid) (erase (temp t) (no_tid t p tid content d)),
    find-erase (temp t) q (no_tid t p tid content d),
    find-erase t q (written t p tid content d),
    find-put (temp p) q (file content) (begun t p tid content d),
    find-put (temp t) q (file tid) d,
    text_eq_iff p q,
    text_eq_iff t q,
    text_eq_iff (temp p) q,
    text_eq_iff (temp t) q,
  )

  -- In a rollback both temporary files are removed.
  pub remove-temp_tid :
      remove (temp t) (written t p tid content d)
      ≡ some (erase (temp t) (written t p tid content d))
  remove-temp_tid =
      remove_lem (temp t) (written t p tid content d) (written_free (temp t) r.temp_t_free)

  pub find-temp-p : find (temp p) (erase (temp t) (written t p tid content d)) ≡ some (file content)
  find-temp-p = ground (
    arith,
    find-erase (temp t) (temp p) (written t p tid content d),
    find-put (temp p) (temp p) (file content) (begun t p tid content d),
    text_eq_iff (temp p) (temp p),
    text_eq_iff (temp t) (temp p),
  )

  pub remove-temp-p :
      remove (temp p) (erase (temp t) (written t p tid content d))
      ≡ some (restored t p tid content d)
  remove-temp-p = remove_lem (temp p) (erase (temp t) (written t p tid content d)) (
      is_directory-erase (temp t) (temp p) (written t p tid content d)
        (written_free (temp p) r.temp_p_free))

  -- Nothing of the new content is left.
  pub find-restored :
      (q : Text)
      → find (temp t) d ≡ none
      → find (temp p) d ≡ none
      → find q (restored t p tid content d) ≡ find q d
  find-restored q ht hp = ground (
    arith,
    find-erase (temp p) q (erase (temp t) (written t p tid content d)),
    find-erase (temp t) q (written t p tid content d),
    find-put (temp p) q (file content) (begun t p tid content d),
    find-put (temp t) q (file tid) d,
    text_eq_iff (temp p) q,
    text_eq_iff (temp t) q,
  )
