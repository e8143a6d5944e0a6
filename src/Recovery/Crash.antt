-- ===== src/Recovery/Crash.antt =====
-- A start from each of these disks.
use file_syncer.Prelude.{
  ◌≡◌, refl, ◌∙◌, ap, true, false, ◌&&◌, ◌||◌, Option, some, [], arith, if◌then◌else◌, Bool-cases,
  inl, inr,
}
use file_syncer.Prelude.Int.{ℤ, pos}
use file_syncer.Prelude.Text.{Text, bytes, text_eq_iff}
use file_syncer.Prelude.Map.{find, text_key}
use file_syncer.Utils.Numbers.{InRange, read_int-show_int}
use file_syncer.Config.{Config, get_servers_dir, get_user_dir, get_file_path, get_tid_path}
use file_syncer.Config.Apart.{paths-AreApart}
use file_syncer.Disk.{Disk, file, is_directory, strip_slash, has_parent}
use file_syncer.Disk.Paths.{NoSlash}
use file_syncer.Disk.Replace.{Room}
use file_syncer.ServerState.{ServerState, UserFile, find_file}
use file_syncer.ServerState.Files.{same_file}
use file_syncer.ServerState.Startup.{is_temp, file_entry, init}
use file_syncer.ServerState.Startup.Entries.{cut_last_slash-entry_path, is_temp-entry_path}
use file_syncer.ServerState.Startup.Files.{is_password_file}
use file_syncer.ServerState.Startup.Restored.{
  CanStart, password_on_disk, user_dir_path, tid_path, file_on_disk, id_of, init-IsRestored,
}
use file_syncer.Transaction.Monad.{Payload, World, returned}
use file_syncer.Transaction.{run, commit}
use file_syncer.Transaction.Verdict.{start, prepared_world}
use file_syncer.Transaction.FileChange.{
  record_of, stored, committed_world, run-update, commit_update,
}
use file_syncer.Recovery.{commit_steps, interrupted}
use file_syncer.Recovery.Points.{
  Point, prepared, tid_removed, tid_moved, content_moved, steps_done, is_moved, disk_after,
  text_eq-file_path, find-disk_after, disk_after-CanStart, interrupted-disk_after,
}

module _ (c : Config) (u f content : Text) (tid : ℤ) (d : Disk)
    (r : Room (get_tid_path c) (get_file_path c u f) d) (b : CanStart c d) where
  abbrev t : Text
  t = get_tid_path c

  abbrev p : Text
  p = get_file_path c u f

  -- A user's directory is one after so many steps where it was one before.
  is_directory-disk_after :
      (n : Point) (q : Text)
      → is_temp q ≡ false
      → is_directory (disk_after c u f content tid d n) q ≡ is_directory d q
  unfolding is_directory
  is_directory-disk_after n q k = ground (
    arith,
    find-disk_after c u f content tid d n q k,
    text_eq_iff p q,
    text_eq_iff t q,
    r.t_free,
    r.p_free,
  )

  abbrev pub tid_restored : Point → ℤ
  tid_restored prepared = id_of c (find t d)
  tid_restored tid_removed = pos 0
  tid_restored tid_moved = tid
  tid_restored content_moved = tid

  abbrev pub file_restored : Point → Text → Text → Option UserFile
  file_restored n v g =
      if is_moved n && same_file u f v g
      then some (record (record_of c f tid content) { last_tid = pos 0 })
      else file_on_disk c d v g

  -- What a start reads after so many steps.
  tid_read :
      (n : Point)
      → InRange tid
      → id_of c (find t (disk_after c u f content tid d n)) ≡ tid_restored n
  unfolding is_temp
  tid_read n k' =
      let k : is_temp t ≡ false =
        ap is_temp (tid_path c b.ends_in_slash)
        ∙ is_temp-entry_path (strip_slash (get_servers_dir c)) (bytes "tid") in
      let ne = (paths-AreApart c u f).p-ne-t in
      elim n as (λ m. id_of c (find t (disk_after c u f content tid d m)) ≡ tid_restored m) [
        | prepared ↦
            ground (arith, find-disk_after c u f content tid d prepared t k, text_eq_iff t t)
        | tid_removed ↦
            ground (arith, find-disk_after c u f content tid d tid_removed t k, text_eq_iff t t)
        | tid_moved ↦ ground (
          arith,
          find-disk_after c u f content tid d tid_moved t k,
          text_eq_iff t t,
          read_int-show_int (pos 0) tid k',
        )
        | content_moved ↦ ground (
          arith,
          ne,
          find-disk_after c u f content tid d content_moved t k,
          text_eq_iff t t,
          text_eq_iff p t,
          read_int-show_int (pos 0) tid k',
        )
      ]

  user_dir-disk_after :
      (n : Point) (v : Text)
      → is_temp v ≡ false
      → is_directory (disk_after c u f content tid d n) (get_user_dir c v)
        ≡ is_directory d (get_user_dir c v)
  user_dir-disk_after n v k = is_directory-disk_after n (get_user_dir c v) (
      ap is_temp (user_dir_path c b.ends_in_slash v)
      ∙ is_temp-entry_path (strip_slash (get_servers_dir c)) v
      ∙ k)

  is_temp-file_path : (v g : Text) → is_temp g ≡ false → is_temp (get_file_path c v g) ≡ false
  unfolding get_file_path
  is_temp-file_path v g k = is_temp-entry_path (get_user_dir c v) g ∙ k

  file_path-disk_after :
      (n : Point) (v g : Text)
      → NoSlash f
      → NoSlash g
      → is_temp g ≡ false
      → find (get_file_path c v g) (disk_after c u f content tid d n) ≡ (
          if is_moved n && same_file u f v g
          then some (file content)
          else find (get_file_path c v g) d)
  file_path-disk_after n v g nf ng k =
      let ne = (paths-AreApart c v g).p-ne-t in
      let t-temp : is_temp (get_file_path c v g) ≡ false = is_temp-file_path v g k in
      ground (
        arith,
        ne,
        find-disk_after c u f content tid d n (get_file_path c v g) t-temp,
        text_eq-file_path c u f v g nf ng,
        text_eq_iff t (get_file_path c v g),
      )

  user_dir_there : NoSlash f → is_directory d (get_user_dir c u) ≡ true
  unfolding has_parent get_file_path
  user_dir_there nf = ground (arith, r.p_parent, cut_last_slash-entry_path (get_user_dir c u) f nf)

  file_read :
      (n : Point) (v g : Text)
      → NoSlash f
      → NoSlash g
      → is_temp u ≡ false
      → is_temp f ≡ false
      → is_password_file f ≡ false
      → file_on_disk c (disk_after c u f content tid d n) v g ≡ file_restored n v g
  unfolding file_entry
  file_read n v g nf ng ku kf kp = elim (Bool-cases (is_temp v || is_temp g)) [
    | inl k ↦ ground (arith, k, text_eq_iff u v, text_eq_iff f g)
    | inr k ↦
        let kv : is_temp v ≡ false = ground (arith, k) in
        let kg : is_temp g ≡ false = ground (arith, k) in
        rw (k, user_dir-disk_after n v kv, file_path-disk_after n v g nf ng kg)
          (ground (arith, user_dir_there nf, text_eq_iff u v, text_eq_iff f g))
  ]

  password_read :
      (n : Point) (v : Text)
      → NoSlash f
      → is_password_file f ≡ false
      → password_on_disk c (disk_after c u f content tid d n) v ≡ password_on_disk c d v
  unfolding is_temp
  password_read n v nf kp = elim (Bool-cases (is_temp v)) [
    | inl k ↦ rw k refl
    | inr k ↦
        let node = file_path-disk_after n v (bytes ".password") nf (omega arith) refl in
        rw (k, user_dir-disk_after n v k) (ground (arith, node))
  ]

  -- The files, the passwords and the last id of the state after a start.
  abbrev pub IsRecovered : Point → Text → Text → ServerState → Type 0
  IsRecovered n v g s' =
      (find_file s' v g ≡ file_restored n v g)
      × (find v s'.senhas ≡ password_on_disk c d v)
      × (s'.last_tid ≡ tid_restored n)
      × (s'.logged_user_sessions ≡ [])

  -- Where the disk has room for the file and the server's directory, whose path ends in a slash, and no
  -- directory under a temporary name, the new file is called neither `.password` nor by a temporary name, its user has no
  -- temporary name, no name has a slash and the id is an `int`: however far `commit` of new
  -- content has come when the server stops, the next start goes through. It has the new content
  -- once that was moved in, under the id 0, and every other file as a start has it from the disk
  -- before; so are the passwords, and no session is left. The last id is the old one before `commit`,
  -- the new one once the tid file was moved in, and 0 in between.
  pub restart_after_crash :
      (s : ServerState) (n : Point) (v g : Text)
      → NoSlash f
      → NoSlash v
      → NoSlash g
      → is_temp u ≡ false
      → is_temp f ≡ false
      → is_password_file f ≡ false
      → InRange tid
      → (w : World) × (x : World) × (e : Disk) × (e' : Disk) × (s' : ServerState) × (run c
            (start (Payload.file_change u f false content) tid d s)
          ≡ returned true w)
        × (commit c w ≡ returned true x)
        × (interrupted 3 (commit_steps c u f) w.disk ≡ some x.disk)
        × (interrupted (steps_done n) (commit_steps c u f) w.disk ≡ some e)
        × (init c e ≡ some (e', s'))
        × IsRecovered n v g s'
  unfolding is_temp
  restart_after_crash s n v g nf nv ng ku kf kp ki =
      let (e', s', started, restored) =
        init-IsRestored c (disk_after c u f content tid d n)
          (disk_after-CanStart c u f content tid d r b n) v g [] nv ng refl in
      (
        prepared_world (Payload.file_change u f false content) tid
            (disk_after c u f content tid d prepared) s (stored c u f content tid d s),
        committed_world c u f content tid d s,
        disk_after c u f content tid d n,
        e',
        s',
        run-update c u f content tid d s r,
        commit_update c u f content tid d s r,
        interrupted-disk_after c u f content tid d r b content_moved,
        interrupted-disk_after c u f content tid d r b n,
        started,
        (
          restored.0 ∙ file_read n v g nf ng ku kf kp,
          restored.1 ∙ password_read n v nf kp,
          restored.2 ∙ tid_read n ki,
          restored.3,
        ),
      )
