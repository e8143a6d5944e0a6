-- ===== src/Client/Follows.antt =====
-- A file that was modified in a client's directory (`verifica_modificacao` of mainClient.cpp), and the
-- coordinator to which the client announces it.
use file_syncer.Prelude.{
  ℕ, suc, ◌≤◌, ◌≡◌, refl, ap, ◌∙◌, Bool, true, false, ◌&&◌, Option, none, some, List, [], ◌∷◌, ◌++◌,
  length, arith, Bool-cases, inl, inr,
}
use file_syncer.Prelude.Int.{ℤ, to_int}
use file_syncer.Prelude.Text.{Text, bytes, text_eq}
use file_syncer.Prelude.Map.{find, text_key}
use file_syncer.Config.{Config, get_file_path, get_tid_path}
use file_syncer.Disk.{Disk, file}
use file_syncer.Disk.Paths.{temp}
use file_syncer.Disk.Replace.{Room}
use file_syncer.Messages.{RequestType, Request, Response, file_updated, send_file_data}
use file_syncer.ServerState.{is_session_valid, get_user_from_session, has_file, get_file_hash}
use file_syncer.Transaction.FileChange.{Committed, RolledBack}
use file_syncer.Manager.{Manager, Sent, Call, done, waits, crashes, undefined_call, ◌>>=◌}
use file_syncer.Manager.TwoPhase.{IsFree, next_tid, upload_ends}
use file_syncer.Manager.Voting.{decide, yes_count}
use file_syncer.Service.{
  Reply, sent, closed, refuse, handle_upload, handle_file_update, receive_file,
}
use file_syncer.Service.Dispatch.{Outside, handle_request, with_session, handle_user_request}
use file_syncer.Service.Answers.{UploadAnswers, UploadAnswers-UploadEnds}
use file_syncer.Utils.{Xxh64}
use file_syncer.Client.{file_hash, file_update_request, new_request, data_request}
use file_syncer.Client.Watch.{Turn, goes_on, leaves, send_modified}
use file_syncer.Client.Synced.{answer_of, first_sent}
use file_syncer.Client.RoundTrip.{read_all-contents}

-- The second message of an answer.
abbrev pub second_sent : List Reply → Option Response
second_sent [] = none
second_sent (closed ∷ replies) = none
second_sent (sent r ∷ replies) = first_sent replies

abbrev pub second_of : Call (List Reply) → Option Response
second_of (done replies m out) = second_sent replies
second_of waits = none
second_of crashes = none
second_of undefined_call = none

-- The client's turn on what the server answers.
abbrev pub turn_on : Xxh64 → Text → Text → Disk → Call (List Reply) → Turn
turn_on xxh dir name mine call =
    send_modified xxh dir name
      (record { files = mine; first = answer_of call; second = second_of call })

module _ (c : Config) (u name content : Text) (m : Manager) (dir : Text) (mine : Disk) where
  abbrev hash : Text
  hash = file_hash c.xxh64 mine (dir ++ b'/' ∷ name)

  -- The announcement of the file, and its bytes.
  abbrev pub announced : Request
  announced = file_update_request name false hash

  abbrev pub followed_by : Request
  followed_by = data_request RequestType.file_data name hash content

  -- What the exchange comes to, by whether the server has the content and by what the votes decide.
  abbrev pub Follows : Bool → Option Bool → Call (List Reply) → Type 0
  Follows true votes call =
      (call ≡ done (sent file_updated ∷ closed ∷ []) m [])
      × (turn_on c.xxh64 dir name mine call ≡ leaves (announced ∷ []))
  Follows false none call = call ≡ waits
  Follows false (some true) call =
      (m' : Manager) × (out : List Sent) × (call
        ≡ done (sent send_file_data ∷ sent file_updated ∷ closed ∷ []) m' out)
      × Committed c u name content (next_tid m) m.world.disk m.world.shared m'.world
      × (turn_on c.xxh64 dir name mine call ≡ goes_on (announced ∷ followed_by ∷ []))
  Follows false (some false) call =
      (m' : Manager) × (out : List Sent) × (call
        ≡ done (sent send_file_data ∷ refuse (bytes "Error updating file")) m' out)
      × RolledBack c u name content (next_tid m) m.world.disk m.world.shared m'.world
      × (turn_on c.xxh64 dir name mine call ≡ leaves (announced ∷ followed_by ∷ []))

  -- Whether the server has the content, by the digest of its record.
  abbrev pub is_current : Bool
  is_current = has_file m.world.shared u name && text_eq (get_file_hash m.world.shared u name) hash

  module _ (local : find (dir ++ b'/' ∷ name) mine ≡ some (file content)) where
    turn_on-updated :
        (call : Call (List Reply))
        → answer_of call ≡ some file_updated
        → turn_on c.xxh64 dir name mine call ≡ leaves (announced ∷ [])
    unfolding send_modified
    turn_on-updated call e = rw e refl

    turn_on-sent :
        (call : Call (List Reply))
        → answer_of call ≡ some send_file_data
        → second_of call ≡ some file_updated
        → turn_on c.xxh64 dir name mine call ≡ goes_on (announced ∷ followed_by ∷ [])
    unfolding send_modified
    turn_on-sent call e k =
        rw (e, k, read_all-contents (dir ++ b'/' ∷ name) content mine local) refl

    turn_on-refused :
        (call : Call (List Reply)) (msg : Text)
        → answer_of call ≡ some send_file_data
        → second_of call ≡ some (Response.error msg)
        → turn_on c.xxh64 dir name mine call ≡ leaves (announced ∷ followed_by ∷ [])
    unfolding send_modified
    turn_on-refused call msg e k =
        rw (e, k, read_all-contents (dir ++ b'/' ∷ name) content mine local) refl

    -- How the answer to the bytes goes on from SEND_FILE_DATA.
    abbrev asked_first : Call (List Reply) → Call (List Reply)
    asked_first call = call >>= λ replies m' out. done (sent send_file_data ∷ replies) m' out

    Follows-UploadAnswers :
        (votes : Option Bool) (call : Call (List Reply))
        → UploadAnswers c u name content m votes call
        → Follows false votes (asked_first call)
    Follows-UploadAnswers none call h = rw h refl
    Follows-UploadAnswers (some true) call (m', out, e, w) =
        let asked = ap asked_first e in
        (m', out, asked, w, turn_on-sent _ (ap answer_of asked) (ap second_of asked))
    Follows-UploadAnswers (some false) call (m', out, e, w) =
        let asked = ap asked_first e in
        (
          m',
          out,
          asked,
          w,
          turn_on-refused _ (bytes "Error updating file") (ap answer_of asked) (ap second_of asked),
        )

    module _ (o : Outside) (session : ℤ) (next : o.next ≡ some followed_by)
        (alone : (n : ℕ) → o.others n m ≡ m)
        (valid : is_session_valid m.world.shared (to_int session) ≡ true)
        (owner : get_user_from_session m.world.shared session ≡ u) where
      abbrev answered : Call (List Reply)
      answered = handle_request c o (some (announced, session)) m

      announced-handled :
          answered ≡ handle_file_update c announced u (some followed_by) o.others o.round m
      unfolding handle_request with_session handle_user_request file_update_request new_request
      announced-handled = rw (alone 0, valid, owner, next) refl

      current-handled : is_current ≡ true → answered ≡ done (sent file_updated ∷ closed ∷ []) m []
      unfolding handle_file_update file_update_request new_request
      current-handled k = announced-handled ∙ ground (arith, alone 1, k)

      old-handled :
          is_current ≡ false → answered ≡ asked_first (handle_upload c followed_by u o.round m)
      unfolding handle_file_update file_update_request new_request receive_file data_request
      old-handled k = announced-handled ∙ ground (arith, alone 1, alone 2, k)

      -- A client announces a file that was modified, to a coordinator on which no other thread is at
      -- work, with a session that is there, and sends its bytes when it is asked. Where the server has
      -- the content, by the digest of its record, the answer is that the file is up to date, nothing of the
      -- server changes and the client leaves the events that follow. Else the bytes are asked for, and, on
      -- a free coordinator whose disk has room for the file and no temporary file, with no more
      -- yes-votes ahead of its own than there are other servers: where the votes decide to commit, the
      -- user has the content and the client goes on to the next event; where they decide against it,
      -- the state and the disk are as before and the client leaves; where they decide nothing there
      -- is no answer.
      pub send_modified-Follows :
          Room (get_tid_path c) (get_file_path c u name) m.world.disk
          → find (temp (get_tid_path c)) m.world.disk ≡ none
          → find (temp (get_file_path c u name)) m.world.disk ≡ none
          → IsFree m o.round.servers
          → yes_count (next_tid m) o.round.during ≤ length o.round.servers
          → Follows is_current
              (decide
                (next_tid m)
                (suc (length o.round.servers))
                (o.round.during ++ (true, next_tid m) ∷ o.round.later))
              (handle_request c o (some (announced, session)) m)
      unfolding data_request
      send_modified-Follows r no_tid no_file free y = elim (Bool-cases is_current) [
        | inl k ↦
            rw k (current-handled k, turn_on-updated answered (ap answer_of (current-handled k)))
        | inr k ↦
            rw (k, old-handled k)
              (Follows-UploadAnswers _ (handle_upload c followed_by u o.round m) (
                UploadAnswers-UploadEnds c u name content m o.round followed_by _ refl refl (
                  upload_ends c u name content o.round.servers o.round.told m r no_tid no_file free
                    o.round.during o.round.later o.round.after y)))
      ]
