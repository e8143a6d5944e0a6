-- ===== src/Transaction/FileChange.antt =====
-- FileChangeTransaction through its life, with new content: `run`, then `commit` or a rollback.
use file_syncer.Prelude.{◌≡◌, refl, true, false, none, some, arith, if◌then◌else◌, length}
use file_syncer.Prelude.Int.{ℤ, pos, to_int}
use file_syncer.Prelude.Text.{Text, text_eq}
use file_syncer.Prelude.Map.{find, text_key}
use file_syncer.Utils.{get_file_digest, digest_to_string}
use file_syncer.Utils.Decimal.{show_int}
use file_syncer.Config.{Config, get_file_path, get_tid_path}
use file_syncer.Config.Apart.{paths-AreApart}
use file_syncer.Disk.{Disk, file, exists}
use file_syncer.Disk.Paths.{temp}
use file_syncer.Disk.Replace.{
  Room, written, replaced, restored, write_tid, write_content, read_content, remove_tid, move_tid,
  move_content, find-replaced, remove-temp_tid, find-temp-p, remove-temp-p, find-restored,
}
use file_syncer.ServerState.{
  ServerState, UserFile, is_valid, set_last_tid, find_file, update_file, add_file,
}
use file_syncer.ServerState.Files.{same_file, store, find_file-store}
use file_syncer.Transaction.Monad.{Payload, World, returned, ◌>>=◌}
use file_syncer.Transaction.{run, commit, force_rollback, get_status, committed, rollback_done}
use file_syncer.Transaction.Verdict.{start, prepared_world, rolled_world}

-- The record of a file with this content.
abbrev pub record_of : Config → Text → ℤ → Text → UserFile
record_of c f tid content = record {
  filename = f;
  hash = digest_to_string (get_file_digest c.xxh64 (some content));
  last_tid = tid;
  size = to_int (pos (length content));
  deleted = false;
}

module _ (c : Config) (u f content : Text) (tid : ℤ) (d : Disk) (s : ServerState) where
  abbrev pub t : Text
  t = get_tid_path c

  abbrev pub p : Text
  p = get_file_path c u f

  abbrev pub change : Payload
  change = Payload.file_change u f false content

  abbrev pub stored : ServerState
  stored = store u f (record_of c f tid content) (set_last_tid tid s)

  -- The world after the commit, and the world after the rollback.
  abbrev pub committed_world : World
  committed_world =
      record (prepared_world change tid (replaced t p (show_int tid) content d) stored stored) {
        tx = record (prepared_world change tid d s stored).tx { is_committed = true };
      }

  abbrev pub undone_world : World
  undone_world = record (rolled_world change tid (restored t p (show_int tid) content d) s) {
    tx = record (rolled_world change tid d s).tx { is_prepared = true };
  }

  module _ (r : Room (get_tid_path c) (get_file_path c u f) d) where
    pub run-update :
        run c (start change tid d s)
        ≡ returned true (prepared_world change tid (written t p (show_int tid) content d) s stored)
    unfolding run is_valid
    run-update = ground (
      arith,
      write_tid t p (show_int tid) content d (paths-AreApart c u f) r,
      write_content t p (show_int tid) content d (paths-AreApart c u f) r,
      read_content t p (show_int tid) content d (paths-AreApart c u f) r,
    )

    pub commit_update :
        commit c (prepared_world change tid (written t p (show_int tid) content d) s stored)
        ≡ returned true committed_world
    unfolding commit
    commit_update = ground (
      arith,
      remove_tid t p (show_int tid) content d (paths-AreApart c u f) r,
      move_tid t p (show_int tid) content d (paths-AreApart c u f) r,
      move_content t p (show_int tid) content d (paths-AreApart c u f) r,
    )

    pub rollback_update :
        force_rollback c (prepared_world change tid (written t p (show_int tid) content d) s stored)
        ≡ returned tt undone_world
    unfolding force_rollback exists
    rollback_update = ground (
      arith,
      remove-temp_tid t p (show_int tid) content d (paths-AreApart c u f) r,
      find-temp-p t p (show_int tid) content d (paths-AreApart c u f) r,
      remove-temp-p t p (show_int tid) content d (paths-AreApart c u f) r,
    )

  pub find_file-stored :
      (v g : Text)
      → find_file stored v g
        ≡ (if same_file u f v g then some (record_of c f tid content) else find_file s v g)
  unfolding set_last_tid find_file
  find_file-stored v g = find_file-store u f v g (set_last_tid tid s) (record_of c f tid content)

  -- A state that is `s` but for the files and the last id, which is the transaction's: users and
  -- passwords, sessions, ids of users and front ends are those of `s`.
  abbrev pub OnlyFiles : ServerState → Type 0
  OnlyFiles s' = s' ≡ record s { user_files = s'.user_files; last_tid = tid }

  stored-OnlyFiles : OnlyFiles stored
  unfolding set_last_tid update_file add_file
  stored-OnlyFiles = ground arith

  -- The content, the record and the id of the transaction, once it is committed, with all else in
  -- the state and on the disk as it was.
  abbrev pub Committed : World → Type 0
  Committed w =
      ((v g : Text)
        → find_file w.shared v g
          ≡ (if same_file u f v g then some (record_of c f tid content) else find_file s v g))
      × OnlyFiles w.shared
      × ((q : Text)
          → find q w.disk ≡ (
              if text_eq p q
              then some (file content)
              else if text_eq t q
              then some (file (show_int tid))
              else find q d))
      × (get_status w.tx ≡ committed)

  -- Nothing is left of the transaction.
  abbrev pub RolledBack : World → Type 0
  RolledBack w =
      (w.shared ≡ s)
      × ((q : Text) → find q w.disk ≡ find q d)
      × (get_status w.tx ≡ rollback_done)
      × (w.tx.work_state ≡ none)

  module _ (r : Room (get_tid_path c) (get_file_path c u f) d)
      (no_temp_tid : find (temp (get_tid_path c)) d ≡ none)
      (no_temp_file : find (temp (get_file_path c u f)) d ≡ none) where
    pub committed_world-Committed : Committed committed_world
    unfolding get_status
    committed_world-Committed = (
      find_file-stored,
      stored-OnlyFiles,
      λ q.
          find-replaced t p (show_int tid) content d (paths-AreApart c u f) r q no_temp_tid
            no_temp_file,
      refl,
    )

    pub undone_world-RolledBack : RolledBack undone_world
    unfolding get_status
    undone_world-RolledBack = (
      refl,
      λ q.
          find-restored t p (show_int tid) content d (paths-AreApart c u f) r q no_temp_tid
            no_temp_file,
      refl,
      refl,
    )

    -- Where the disk has room for the file and no temporary file is left over, new content runs and
    -- commits without an exception: the state then has its record under the transaction's id, that
    -- id as the last one, and every other file, the users and passwords, the sessions, the ids of
    -- users and the front ends as before; and the disk has the content, the id in the tid file,
    -- and every other path as before.
    pub update_commits :
        (w : World) × (((run c >>= λ _. commit c)
            (start (Payload.file_change u f false content) tid d s))
          ≡ returned true w)
        × Committed w
    update_commits =
        (committed_world, ground (arith, run-update r, commit_update r), committed_world-Committed)

    -- Where the disk has room for the file and neither the tid file nor the file has a temporary file
    -- beside it, new content that is rolled back after it has run leaves the state and every path
    -- of the disk as before.
    pub update_rolls_back :
        (w : World) × (((run c >>= λ _. force_rollback c)
            (start (Payload.file_change u f false content) tid d s))
          ≡ returned tt w)
        × RolledBack w
    update_rolls_back =
        (undone_world, ground (arith, run-update r, rollback_update r), undone_world-RolledBack)
