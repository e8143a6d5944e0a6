-- ===== src/Recovery/Points.antt =====
-- The disk at each point of an upload at which the server may stop.
use file_syncer.Prelude.{
  ◌≡◌, refl, ℕ, Bool, true, false, ◌&&◌, Option, none, some, ◌++◌, arith, if◌then◌else◌,
}
use file_syncer.Prelude.Int.{ℤ}
use file_syncer.Prelude.Text.{Text, text_eq, text_eq_iff}
use file_syncer.Prelude.Map.{find, erase, text_key}
use file_syncer.Prelude.Map.Laws.{find-erase}
use file_syncer.Utils.Decimal.{show_int}
use file_syncer.Config.{Config, get_servers_dir, get_user_dir, get_file_path, get_tid_path}
use file_syncer.Config.Apart.{paths-AreApart}
use file_syncer.Disk.{Disk, Node, file, is_directory}
use file_syncer.Disk.Paths.{temp, NoSlash}
use file_syncer.Disk.Laws.{find-put, is_directory-put, is_directory-erase}
use file_syncer.Disk.Replace.{
  Room, begun, written, no_tid, new_tid, replaced, written_free, new_tid_free, remove_tid, move_tid,
  move_content,
}
use file_syncer.ServerState.Files.{same_file}
use file_syncer.ServerState.Startup.{is_temp}
use file_syncer.ServerState.Startup.Entries.{entry_path-inj}
use mathlib.Core.List.{append_cancel_left}
use file_syncer.ServerState.Startup.Restored.{CanStart}
use file_syncer.Recovery.{commit_steps, interrupted}
use file_syncer.Recovery.Ready.{is_temp-temp, put-CanStart, erase-CanStart}

-- Two files have the same path only where they are the same file of the same user.
pub text_eq-file_path :
    (c : Config) (u f v g : Text)
    → NoSlash f
    → NoSlash g
    → text_eq (get_file_path c u f) (get_file_path c v g) ≡ same_file u f v g
unfolding get_file_path get_user_dir
text_eq-file_path c u f v g nf ng =
    let inj = entry_path-inj (get_servers_dir c ++ u) (get_servers_dir c ++ v) f g nf ng in
    ground (
      arith,
      text_eq_iff u v,
      text_eq_iff f g,
      text_eq_iff (get_file_path c u f) (get_file_path c v g),
      append_cancel_left (get_servers_dir c) u v,
      inj,
    )

-- Where the server stops in `commit`.
pub data Point : Type 0 where
  prepared : Point
  tid_removed : Point
  tid_moved : Point
  content_moved : Point

abbrev pub steps_done : Point → ℕ
steps_done prepared = 0
steps_done tid_removed = 1
steps_done tid_moved = 2
steps_done content_moved = 3

abbrev pub is_moved : Point → Bool
is_moved prepared = false
is_moved tid_removed = false
is_moved tid_moved = false
is_moved content_moved = true

module _ (c : Config) (u f content : Text) (tid : ℤ) (d : Disk) where
  abbrev t : Text
  t = get_tid_path c

  abbrev p : Text
  p = get_file_path c u f

  abbrev shown : Text
  shown = show_int tid

  abbrev pub disk_after : Point → Disk
  disk_after prepared = written t p shown content d
  disk_after tid_removed = no_tid t p shown content d
  disk_after tid_moved = new_tid t p shown content d
  disk_after content_moved = replaced t p shown content d

  abbrev pub tid_after : Point → Option Node
  tid_after prepared = find t d
  tid_after tid_removed = none
  tid_after tid_moved = some (file shown)
  tid_after content_moved = some (file shown)

  find-written : (q : Text) → is_temp q ≡ false → find q (written t p shown content d) ≡ find q d
  find-written q k = ground (
    arith,
    find-put (temp p) q (file content) (begun t p shown content d),
    find-put (temp t) q (file shown) d,
    text_eq_iff (temp p) q,
    text_eq_iff (temp t) q,
    is_temp-temp p,
    is_temp-temp t,
  )

  find-new_tid :
      (q : Text)
      → is_temp q ≡ false
      → find q (new_tid t p shown content d) ≡ (if text_eq t q then some (file shown) else find q d)
  find-new_tid q k = ground (
    arith,
    find-put t q (file shown) (erase (temp t) (no_tid t p shown content d)),
    find-erase (temp t) q (no_tid t p shown content d),
    find-erase t q (written t p shown content d),
    find-written q k,
    text_eq_iff (temp t) q,
    is_temp-temp t,
  )

  -- A path that is not temporary, where the server stops.
  pub find-disk_after :
      (n : Point) (q : Text)
      → is_temp q ≡ false
      → find q (disk_after n) ≡ (
          if is_moved n && text_eq p q
          then some (file content)
          else if text_eq t q
          then tid_after n
          else find q d)
  find-disk_after prepared q k = ground (arith, find-written q k, text_eq_iff t q)
  find-disk_after tid_removed q k =
      ground (arith, find-erase t q (written t p shown content d), find-written q k)
  find-disk_after tid_moved q k = find-new_tid q k
  find-disk_after content_moved q k = ground (
    arith,
    find-put p q (file content) (erase (temp p) (new_tid t p shown content d)),
    find-erase (temp p) q (new_tid t p shown content d),
    find-new_tid q k,
    text_eq_iff (temp p) q,
    is_temp-temp p,
  )

  module _ (r : Room (get_tid_path c) (get_file_path c u f) d) (b : CanStart c d) where
    free :
        (q : Text) → is_directory d q ≡ false → is_directory (written t p shown content d) q ≡ false
    free = written_free t p shown content d (paths-AreApart c u f) r

    free_later :
        (q : Text) → is_directory d q ≡ false → is_directory (new_tid t p shown content d) q ≡ false
    free_later = new_tid_free t p shown content d (paths-AreApart c u f) r

    written-CanStart : CanStart c (written t p shown content d)
    written-CanStart =
        put-CanStart c (temp p) (begun t p shown content d)
          (put-CanStart c (temp t) d b r.temp_t_free shown)
          (is_directory-put (temp t) (temp p) shown d r.temp_p_free) content

    no_tid-CanStart : CanStart c (no_tid t p shown content d)
    no_tid-CanStart =
        erase-CanStart c t (written t p shown content d) written-CanStart (free t r.t_free)

    new_tid-CanStart : CanStart c (new_tid t p shown content d)
    new_tid-CanStart =
        put-CanStart c t (erase (temp t) (no_tid t p shown content d))
          (erase-CanStart c (temp t) (no_tid t p shown content d) no_tid-CanStart (
            is_directory-erase t (temp t) (written t p shown content d)
              (free (temp t) r.temp_t_free)))
          (is_directory-erase (temp t) t (no_tid t p shown content d)
            (is_directory-erase t t (written t p shown content d) (free t r.t_free)))
          shown

    replaced-CanStart : CanStart c (replaced t p shown content d)
    replaced-CanStart =
        put-CanStart c p (erase (temp p) (new_tid t p shown content d))
          (erase-CanStart c (temp p) (new_tid t p shown content d) new_tid-CanStart
            (free_later (temp p) r.temp_p_free))
          (is_directory-erase (temp p) p (new_tid t p shown content d) (free_later p r.p_free))
          content

    -- A server can start from each of these disks.
    pub disk_after-CanStart : (n : Point) → CanStart c (disk_after n)
    disk_after-CanStart prepared = written-CanStart
    disk_after-CanStart tid_removed = no_tid-CanStart
    disk_after-CanStart tid_moved = new_tid-CanStart
    disk_after-CanStart content_moved = replaced-CanStart

    -- The steps of `commit` go through, each to the next of these disks.
    pub interrupted-disk_after :
        (n : Point)
        → interrupted (steps_done n) (commit_steps c u f) (disk_after prepared)
          ≡ some (disk_after n)
    unfolding interrupted commit_steps
    interrupted-disk_after prepared = refl
    interrupted-disk_after tid_removed =
        ground (arith, remove_tid t p shown content d (paths-AreApart c u f) r)
    interrupted-disk_after tid_moved = ground (
      arith,
      remove_tid t p shown content d (paths-AreApart c u f) r,
      move_tid t p shown content d (paths-AreApart c u f) r,
    )
    interrupted-disk_after content_moved = ground (
      arith,
      remove_tid t p shown content d (paths-AreApart c u f) r,
      move_tid t p shown content d (paths-AreApart c u f) r,
      move_content t p shown content d (paths-AreApart c u f) r,
    )
