-- ===== src/Service/Dispatch.antt =====
-- `handleRequest`: which handler a request goes to, and the check of its session. The session id
-- of a header is a `long`, and is narrowed to an `int` where a `SessionId` is taken.
use file_syncer.Prelude.{ℕ, Option, none, some, List, [], ◌∷◌, if◌then◌else◌}
use file_syncer.Prelude.Int.{ℤ, to_int}
use file_syncer.Prelude.Text.{Text, bytes}
use file_syncer.Config.{Config}
use file_syncer.Messages.{RequestType, Request, pong}
use file_syncer.ServerState.{ServerState, is_session_valid, get_user_from_session}
use file_syncer.Manager.{Manager, Call, done}
use file_syncer.Service.{
  Reply, sent, closed, refuse, Round, Others, handle_list, handle_subscribe,
  handle_frontend_subscribe, handle_logout, handle_upload, handle_file_update, handle_download,
}
use file_syncer.Service.Login.{handle_login}

-- What comes from outside while a request is handled: the numbers of `rand`, the other threads,
-- the rounds of the transactions, the message after SEND_FILE_DATA, and for a subscription the
-- states at which it looks and the messages that go out.
pub record Outside : Type 0 where
  pub rands : List ℤ
  pub others : Others
  pub user_round : Round
  pub round : Round
  pub next : Option Request
  pub states : List ServerState
  pub sends : ℕ

module _ (c : Config) (o : Outside) where
  -- The handlers that need a session.
  unfoldable pub handle_user_request :
      RequestType → Request → ℤ → Text → Manager → Call (List Reply)
  unfolding handle_list handle_subscribe handle_logout handle_upload handle_file_update
      handle_download
  handle_user_request RequestType.subscribe request session user m =
      done (handle_subscribe (to_int session) user o.sends o.states (o.others 1 m)) m []
  handle_user_request RequestType.download request session user m =
      handle_download c request user (o.others 1 m)
  handle_user_request RequestType.list request session user m =
      done (handle_list user (o.others 1 m)) (o.others 1 m) []
  handle_user_request RequestType.logout request session user m =
      handle_logout c (to_int session) o.round (o.others 1 m)
  handle_user_request RequestType.file_update request session user m =
      handle_file_update c request user o.next o.others o.round m
  handle_user_request RequestType.upload request session user m =
      handle_upload c request user o.round (o.others 1 m)
  handle_user_request other request session user m =
      done (refuse (bytes "Unknown request type")) m []

  unfoldable pub with_session : Request → ℤ → Manager → Call (List Reply)
  unfolding handle_user_request
  with_session request session m =
      let m' = o.others 0 m in
      if is_session_valid m'.world.shared (to_int session)
      then handle_user_request request.request_type request session
          (get_user_from_session m'.world.shared session) m'
      else done (refuse (bytes "Invalid session")) m' []

  -- `none` where no request can be received.
  unfoldable pub handle_request : Option (Request × ℤ) → Manager → Call (List Reply)
  unfolding handle_login handle_frontend_subscribe with_session
  handle_request none m = done (refuse (bytes "Error receiving request")) m []
  handle_request (some (request, session)) m = elim request.request_type [
    | RequestType.login ↦ handle_login c request session o.rands o.others o.user_round o.round m
    | RequestType.ping ↦ done (sent pong ∷ closed ∷ []) m []
    | RequestType.frontend_subscribe ↦
        handle_frontend_subscribe c request.frontend_subscription.hostname
          request.frontend_subscription.port o.round (o.others 0 m)
    | _ ↦ with_session request session m
  ]
