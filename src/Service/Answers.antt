-- ===== src/Service/Answers.antt =====
-- What the handlers answer, and what an answer says of the server.
use file_syncer.Prelude.{
  ℕ, suc, ◌≤◌, ◌≡◌, refl, Bool, true, false, Option, none, some, List, [], ◌∷◌, ◌++◌, length, arith,
}
use file_syncer.Prelude.Int.{ℤ, to_int}
use file_syncer.Prelude.Text.{Text, bytes, text_eq_refl}
use file_syncer.Prelude.Map.{find, text_key}
use file_syncer.Config.{Config, get_file_path, get_tid_path}
use file_syncer.Disk.{Disk}
use file_syncer.Disk.Paths.{temp}
use file_syncer.Disk.Replace.{Room}
use file_syncer.Messages.{RequestType, Request, file_updated, file_data_r}
use file_syncer.ServerState.{
  ServerState, is_session_valid, get_user_from_session, find_file, has_file, get_file_hash,
  get_user_files,
}
use file_syncer.Transaction.FileChange.{Committed, RolledBack, record_of}
use file_syncer.Transaction.Monad.{Payload}
use file_syncer.Manager.{Manager, Sent, Call, done, waits, crashes, undefined_call}
use file_syncer.Manager.Voting.{decide, yes_count}
use file_syncer.Manager.TwoPhase.{UploadEnds, IsFree, next_tid, upload_ends}
use file_syncer.Service.{
  Reply, sent, closed, refuse, Round, Others, handle_upload, handle_list, handle_download,
  handle_file_update, transact,
}
use file_syncer.Service.Dispatch.{Outside, handle_request, with_session, handle_user_request}

-- What an upload is answered.
abbrev pub UploadAnswers :
    Config → Text → Text → Text → Manager → Option Bool → Call (List Reply) → Type 0
UploadAnswers c u f content m none call = call ≡ waits
UploadAnswers c u f content m (some true) call =
    (m' : Manager) × (out : List Sent) × (call ≡ done (sent file_updated ∷ closed ∷ []) m' out)
    × Committed c u f content (next_tid m) m.world.disk m.world.shared m'.world
UploadAnswers c u f content m (some false) call =
    (m' : Manager) × (out : List Sent) × (call ≡ done (refuse (bytes "Error updating file")) m' out)
    × RolledBack c u f content (next_tid m) m.world.disk m.world.shared m'.world

-- The messages of an answer.
abbrev pub replies_of : Call (List Reply) → Option (List Reply)
replies_of (done replies m out) = some replies
replies_of waits = none
replies_of crashes = none
replies_of undefined_call = none

module _ (c : Config) (user : Text) where
  -- The answers to a list and to a download depend on the user's own files, and on the disk at the
  -- path of the file alone.
  pub answers-own :
      (request : Request) (m m' : Manager)
      → find user m.world.shared.user_files ≡ find user m'.world.shared.user_files
      → find (get_file_path c user request.filename) m.world.disk
        ≡ find (get_file_path c user request.filename) m'.world.disk
      → (handle_list user m ≡ handle_list user m')
        × (replies_of (handle_download c request user m)
            ≡ replies_of (handle_download c request user m'))
  unfolding handle_list handle_download get_user_files has_file get_file_hash find_file
  answers-own request m m' e d = (ground (arith, e), ground (arith, e, d))

  module _ (f content : Text) (tid : ℤ) (d : Disk) (s : ServerState) (m : Manager) where
    -- Where an upload was committed, a download of the file is answered with its content.
    pub download-upload :
        Committed c user f content tid d s m.world
        → (request : Request) → request.filename ≡ f
        → handle_download c request user m
          ≡ done (sent (file_data_r f (record_of c f tid content).hash content) ∷ closed ∷ []) m []
    unfolding handle_download has_file get_file_hash
    download-upload h request e = ground (
      arith,
      h.0 user f,
      h.2 (get_file_path c user f),
      text_eq_refl user,
      text_eq_refl f,
      text_eq_refl (get_file_path c user f),
    )

    -- Where an upload was committed, the same content announced again, by its name and the digest
    -- that the record has, is not asked for: the answer is that the file is up to date, and
    -- nothing of the server changes.
    pub file_update-upload :
        Committed c user f content tid d s m.world
        → (request : Request) (next : Option Request) (others : Others) (r : Round)
        → request.file_update.filename ≡ f
        → request.file_update.hash ≡ (record_of c f tid content).hash
        → request.file_update.deleted ≡ false
        → others 1 m ≡ m
        → handle_file_update c request user next others r m
          ≡ done (sent file_updated ∷ closed ∷ []) m []
    unfolding handle_file_update has_file get_file_hash
    file_update-upload h request next others r e k n same = ground (
      arith,
      h.0 user f,
      text_eq_refl user,
      text_eq_refl f,
      text_eq_refl (record_of c f tid content).hash,
    )

-- What the answer to an upload is, from how its transaction ends.
pub UploadAnswers-UploadEnds :
    (c : Config) (u f content : Text) (m : Manager) (r : Round) (request : Request)
    (o : Option Bool)
    → request.file_data_update.file_update.filename ≡ f
    → request.file_data_update.data_bytes ≡ content
    → UploadEnds c u f content m o (transact c (Payload.file_change u f false content) r m)
    → UploadAnswers c u f content m o (handle_upload c request u r m)
unfolding handle_upload
UploadAnswers-UploadEnds c u f content m r request none e k h = rw (e, k, h) refl
UploadAnswers-UploadEnds c u f content m r request (some true) e k (m', out, call, w, _, _) =
    (m', out, rw (e, k, call) refl, w)
UploadAnswers-UploadEnds c u f content m r request (some false) e k (m', out, call, w, _, _) =
    (m', out, rw (e, k, call) refl, w)

handle_request-handle_upload :
    (c : Config) (o : Outside) (request : Request) (session : ℤ) (m : Manager)
    → request.request_type ≡ RequestType.upload
    → ((n : ℕ) → o.others n m ≡ m)
    → is_session_valid m.world.shared (to_int session) ≡ true
    → handle_request c o (some (request, session)) m
      ≡ handle_upload c request (get_user_from_session m.world.shared session) o.round m
unfolding handle_request with_session handle_user_request
handle_request-handle_upload c o request session m e alone valid =
    ground (arith, alone 0, alone 1, e, valid)

-- A request to upload, with a session that is there and no other thread at work, to a free
-- coordinator whose disk has room for the file and no temporary file, and with no more yes-votes
-- ahead of the coordinator's own than there are other servers: where the votes decide to commit,
-- the answer is that the file is updated, and the session's user has it; where they decide against
-- it, the answer is an error, and the state and the disk are as before; and where they decide
-- nothing there is no answer.
pub upload_answers :
    (c : Config) (o : Outside) (request : Request) (session : ℤ) (m : Manager) (u f content : Text)
    → request.request_type ≡ RequestType.upload
    → request.file_data_update.file_update.filename ≡ f
    → request.file_data_update.data_bytes ≡ content
    → ((n : ℕ) → o.others n m ≡ m)
    → is_session_valid m.world.shared (to_int session) ≡ true
    → get_user_from_session m.world.shared session ≡ u
    → Room (get_tid_path c) (get_file_path c u f) m.world.disk
    → find (temp (get_tid_path c)) m.world.disk ≡ none
    → find (temp (get_file_path c u f)) m.world.disk ≡ none
    → IsFree m o.round.servers
    → yes_count (next_tid m) o.round.during ≤ length o.round.servers
    → UploadAnswers c u f content m
        (decide
          (next_tid m)
          (suc (length o.round.servers))
          (o.round.during ++ (true, next_tid m) ∷ o.round.later))
        (handle_request c o (some (request, session)) m)
upload_answers c o request session m u f content e n k alone valid owner r no_tid no_file free y =
    rw (handle_request-handle_upload c o request session m e alone valid, owner)
      (UploadAnswers-UploadEnds c u f content m o.round request _ n k (
        upload_ends c u f content o.round.servers o.round.told m r no_tid no_file free
          o.round.during o.round.later o.round.after y))
