-- ===== src/Client/RoundTrip.antt =====
-- A file from one client (mainClient.cpp) through a coordinator without other servers to another client.
use file_syncer.Prelude.{
  ℕ, suc, ◌≤◌, ◌≡◌, refl, sym, subst, ap, Bool, true, false, Option, none, some, List, [], ◌∷◌,
  ◌++◌, length, arith,
}
use file_syncer.Prelude.Int.{ℤ, to_int, int_eq_iff}
use file_syncer.Prelude.Text.{Text}
use file_syncer.Prelude.Map.{find, text_key}
use file_syncer.Config.{Config, get_file_path, get_tid_path}
use file_syncer.Disk.{Disk, file, has_parent, is_directory, read_file}
use file_syncer.Disk.Paths.{temp}
use file_syncer.Disk.Replace.{Room}
use file_syncer.Messages.{RequestType, Request, file_updated}
use file_syncer.ServerState.{is_session_valid, get_user_from_session}
use file_syncer.Manager.{Manager, Ballot, Call, done, Sent}
use file_syncer.Manager.TwoPhase.{IsFree, next_tid}
use file_syncer.Manager.Voting.{decide, yes_count}
use file_syncer.Service.{Reply, sent, closed, handle_download}
use file_syncer.Service.Dispatch.{Outside, handle_request}
use file_syncer.Service.Answers.{UploadAnswers, upload_answers, download-upload}
use file_syncer.Utils.{Xxh64}
use file_syncer.Client.{
  Asked, asks, no_request, threw, unopened, read_failed, contents, file_hash, upload_request,
  read_all, download_request, new_request, data_request, save_download,
}
use file_syncer.Client.Synced.{answer_of, write_file-read_file}

decide-alone : (tid : ℤ) (later : List Ballot) → decide tid 1 ((true, tid) ∷ later) ≡ some true
unfolding decide
decide-alone tid later = ground (arith, int_eq_iff tid tid)

pub read_all-contents :
    (f content : Text) (mine : Disk)
    → find f mine ≡ some (file content)
    → read_all mine f ≡ contents content
unfolding read_all
read_all-contents f content mine h = ground arith

-- What comes of an upload that is committed, for another client with the files `d`.
pub record Arrives (c : Config) (u f content : Text) (call : Call (List Reply)) (path : Text)
    (d : Disk) : Type 0 where
  pub server : Manager
  pub messages : List Sent
  pub answered : call ≡ done (sent file_updated ∷ closed ∷ []) server messages
  pub arrives :
      read_file
        (save_download path (answer_of (handle_download c (download_request f) u server)) d)
        path
      ≡ some content

UploadAnswers-Arrives :
    (c : Config) (u f content path : Text) (m : Manager) (call : Call (List Reply)) (d : Disk)
    → UploadAnswers c u f content m (some true) call
    → has_parent d path ≡ true
    → is_directory d path ≡ false
    → Arrives c u f content call path d
unfolding save_download download_request
UploadAnswers-Arrives c u f content path m call d (m', out, answer, committed) parent no_dir =
    record {
      server = m';
      messages = out;
      answered = answer;
      arrives =
          rw
            (download-upload c u f content (next_tid m) m.world.disk m.world.shared m' committed
              (download_request f) refl)
            (write_file-read_file path content d parent no_dir);
    }

zero_least : (n : ℕ) → 0 ≤ n
zero_least n = omega arith

upload_request-asks :
    (xxh : Xxh64) (f content : Text) (mine : Disk)
    → find f mine ≡ some (file content)
    → upload_request xxh mine f
      ≡ asks (data_request RequestType.upload f (file_hash xxh mine f) content)
unfolding upload_request
upload_request-asks xxh f content mine h =
    ap
      (λ x. elim x as (λ _. Asked) [
        | unopened ↦ no_request
        | read_failed ↦ threw
        | contents content ↦ asks (data_request RequestType.upload f (file_hash xxh mine f) content)
      ])
      (read_all-contents f content mine h)

-- The `upload` command of a client, with a session that is there, to a free coordinator without active
-- servers on which no other thread is at work and whose disk has room for a file at the client's
-- path below the user's directory, with no temporary file there or at the tid file: a file of
-- the client is sent, with its bytes, the request is answered with FILE_UPDATED, and a download of
-- the same user then leaves those bytes in the file of another client, whose path is not a
-- directory and is in one that is there.
pub upload_request-Arrives :
    (c : Config) (o : Outside) (session : ℤ) (m : Manager) (u f content path : Text) (mine d : Disk)
    → find f mine ≡ some (file content)
    → ((n : ℕ) → o.others n m ≡ m)
    → is_session_valid m.world.shared (to_int session) ≡ true
    → get_user_from_session m.world.shared session ≡ u
    → Room (get_tid_path c) (get_file_path c u f) m.world.disk
    → find (temp (get_tid_path c)) m.world.disk ≡ none
    → find (temp (get_file_path c u f)) m.world.disk ≡ none
    → IsFree m []
    → o.round.servers ≡ []
    → o.round.during ≡ []
    → has_parent d path ≡ true
    → is_directory d path ≡ false
    → (r : Request) × (upload_request c.xxh64 mine f ≡ asks r)
      × Arrives c u f content (handle_request c o (some (r, session)) m) path d
unfolding data_request new_request
upload_request-Arrives c o session m u f content path mine d local alone valid owner room no_tid
      no_file free none_else none_before parent no_dir =
    let r = data_request RequestType.upload f (file_hash c.xxh64 mine f) content in
    let servers = o.round.servers in
    let votes = o.round.during ++ (true, next_tid m) ∷ o.round.later in
    let few =
      subst (λ vs. yes_count (next_tid m) vs ≤ length servers) (sym none_before)
        (zero_least (length servers)) in
    let answers =
      upload_answers c o r session m u f content refl refl refl alone valid owner room no_tid
        no_file (subst (IsFree m) (sym none_else) free) few in
    let decided : decide (next_tid m) (suc (length servers)) votes ≡ some true =
      rw (none_else, none_before) (decide-alone (next_tid m) o.round.later) in
    (
      r,
      upload_request-asks c.xxh64 f content mine local,
      UploadAnswers-Arrives c u f content path m _ d
          (subst
            (λ (b : Option Bool).
              UploadAnswers c u f content m b (handle_request c o (some (r, session)) m))
            decided answers)
          parent no_dir,
    )
