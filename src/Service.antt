-- ===== src/Service.antt =====
-- src/server/service/ServiceRequestHandler.cpp: a client's request, from the session check to the
-- answer. `others n` is what other threads do to the server before the handler takes the lock for
-- the n-th time. The terminal is left out.
pub mod Login
pub mod Dispatch
pub mod Answers
pub mod Granted
mod Tests
use file_syncer.Prelude.{
  ℕ, zero, suc, Bool, true, false, not, ◌&&◌, ◌||◌, Option, none, some, List, [], ◌∷◌, ◌++◌, length,
  map, if◌then◌else◌, leb,
}
use file_syncer.Prelude.Int.{ℤ, pos, int_lt}
use file_syncer.Prelude.Text.{Text, bytes, is_empty, text_eq}
use file_syncer.Prelude.Map.{find, text_key}
use file_syncer.Config.{Config, get_file_path}
use file_syncer.Disk.{Node, file, directory}
use file_syncer.Messages.{
  RequestType, Request, FileUpdate, FileDataUpdate, Response, login_ok, error, updated, file_list,
  pong, file_updated, file_data_r, send_file_data,
}
use file_syncer.ServerState.{
  ServerState, UserFile, has_user, check_password, is_session_valid, get_user_from_session,
  get_user_sessions, get_last_tid, get_user_files_since, get_user_files, has_file, get_file_hash,
}
use file_syncer.Transaction.Monad.{Payload}
use file_syncer.Manager.{
  Manager, Ballot, Sent, Call, done, waits, crashes, undefined_call, do_transaction, ◌>>=◌,
}

-- A message to the client, and `endConnection`.
pub data Reply : Type 0 where
  sent : Response → Reply
  closed : Reply

abbrev pub refuse : Text → List Reply
refuse msg = sent (error msg) ∷ closed ∷ []

-- What other servers do for one `doTransaction`, and the active ones when it asks for them: to count
-- them, to tell them of the transaction, and to send them the result.
pub record Round : Type 0 where
  pub servers : List ℤ
  pub told : List ℤ
  pub during : List Ballot
  pub later : List Ballot
  pub after : List ℤ

abbrev pub Others : Type 0
Others = ℕ → Manager → Manager

-- `while (state.isSessionValid(session_id = rand()));`, with the numbers that `rand` gives.
unfoldable pub fresh_session : ServerState → List ℤ → Option ℤ
fresh_session s [] = none
fresh_session s (i ∷ rands) =
    let rest = fresh_session s rands in if is_session_valid s i then rest else some i

unfoldable pub list_entries : List UserFile → List (Text × Text)
list_entries files = map (λ (f : UserFile). (f.filename, f.hash)) files

unfoldable pub handle_list : Text → Manager → List Reply
unfolding list_entries
handle_list user m =
    sent (file_list (list_entries (get_user_files m.world.shared user))) ∷ closed ∷ []

-- Messages of the subscription, as long as they can be sent.
unfoldable pub send_updates : ℕ → List UserFile → List Reply × Option ℕ
send_updates sends [] = ([], some sends)
send_updates zero (f ∷ files) = ([], none)
send_updates (suc sends) (f ∷ files) =
    let rest = send_updates sends files in
    (
      sent (updated (record { filename = f.filename; deleted = f.deleted; hash = f.hash }))
          ∷ rest.0,
      rest.1,
    )

-- The loop of `handleSubscribe`, over the states at which the wait looks; `sends` is the number of
-- messages that go out before a send fails.
unfoldable pub subscribe_loop : ℤ → Text → ℤ → ℕ → List ServerState → List Reply
unfolding send_updates
subscribe_loop session user tid sends [] = []
subscribe_loop session user tid sends (s ∷ states) =
    let waiting = subscribe_loop session user tid sends states in
    let round = send_updates sends (get_user_files_since s user tid) in
    if int_lt tid (get_last_tid s)
    then (if is_session_valid s session
        then round.0 ++ elim round.1 [
          | none ↦ []
          | some left ↦ subscribe_loop session user (get_last_tid s) left states
        ]
        else closed ∷ [])
    else waiting

unfoldable pub handle_subscribe : ℤ → Text → ℕ → List ServerState → Manager → List Reply
unfolding subscribe_loop
handle_subscribe session user sends states m =
    subscribe_loop session user (get_last_tid m.world.shared) sends states

module _ (c : Config) where
  abbrev pub transact : Payload → Round → Manager → Call Bool
  transact p r m = do_transaction c p r.servers r.told r.during r.later r.after m

  -- The answer after a transaction.
  abbrev pub reply : Call Bool → List Reply → Text → Call (List Reply)
  reply call good msg = call >>= λ ok m out. done (if ok then good else refuse msg) m out

  unfoldable pub handle_frontend_subscribe : Text → ℤ → Round → Manager → Call (List Reply)
  handle_frontend_subscribe hostname port r m =
      reply (transact (Payload.new_frontend hostname port) r m) (sent (login_ok none) ∷ closed ∷ [])
        (bytes "Error creating frontend")

  unfoldable pub handle_logout : ℤ → Round → Manager → Call (List Reply)
  handle_logout session r m =
      reply (transact (Payload.remove_session session) r m) (sent (login_ok none) ∷ closed ∷ [])
        (bytes "Error removing session")

  unfoldable pub handle_upload : Request → Text → Round → Manager → Call (List Reply)
  handle_upload request user r m =
      reply
        (transact
          (Payload.file_change user request.file_data_update.file_update.filename false
            request.file_data_update.data_bytes)
          r m)
        (sent file_updated ∷ closed ∷ []) (bytes "Error updating file")

  -- The content of the transaction is `byte_string empty = {0}`.
  unfoldable pub handle_delete : Text → Text → Round → Manager → Call (List Reply)
  handle_delete user filename r m =
      reply (transact (Payload.file_change user filename true (0 ∷ [])) r m)
        (sent file_updated ∷ closed ∷ []) (bytes "Error deleting file")

  -- What comes in after SEND_FILE_DATA; `none` where it cannot be received.
  unfoldable pub receive_file : Option Request → Text → Round → Manager → Call (List Reply)
  unfolding handle_upload
  receive_file none user r m = done (refuse (bytes "Error receiving request")) m []
  receive_file (some request) user r m = elim request.request_type [
    | RequestType.file_data ↦ handle_upload request user r m
    | _ ↦ done (refuse (bytes "Invalid request type")) m []
  ]

  unfoldable pub handle_file_update :
      Request → Text → Option Request → Others → Round → Manager → Call (List Reply)
  unfolding handle_delete receive_file
  handle_file_update request user next others r m =
      let u = request.file_update in
      if u.deleted
      then handle_delete user u.filename r (others 1 m)
      else (let m' = others 1 m in
          if has_file m'.world.shared user u.filename
            && text_eq (get_file_hash m'.world.shared user u.filename) u.hash
          then done (sent file_updated ∷ closed ∷ []) m' []
          else receive_file next user r (others 2 m') >>= λ replies m'' out.
              done (sent send_file_data ∷ replies) m'' out)

  -- A directory opens, and its read throws.
  unfoldable pub handle_download : Request → Text → Manager → Call (List Reply)
  handle_download request user m =
      if has_file m.world.shared user request.filename
      then elim (find (get_file_path c user request.filename) m.world.disk) [
        | none ↦ done (refuse (bytes "Error opening file")) m []
        | some directory ↦ crashes
        | some (file content) ↦
            done
              (sent (
                  file_data_r request.filename (get_file_hash m.world.shared user request.filename)
                    content)
                ∷ closed
                ∷ [])
              m []
      ]
      else done (refuse (bytes "File not found")) m []
