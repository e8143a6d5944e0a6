-- ===== src/Messages.antt =====
-- proto/message.proto: the requests of a client and the answers. A record has what the generated
-- getters return, the defaults where a field is not set; an answer has the fields that the server
-- sets for its type.
use file_syncer.Prelude.{Bool, Option, List}
use file_syncer.Prelude.Int.{ℤ}
use file_syncer.Prelude.Text.{Text}

pub data RequestType : Type 0 where
  ping subscribe download upload list login logout file_update file_data frontend_subscribe :
      RequestType

pub record FileUpdate : Type 0 where
  pub filename : Text
  pub deleted : Bool
  pub hash : Text

pub record FileDataUpdate : Type 0 where
  pub file_update : FileUpdate
  pub data_bytes : Text

pub record FrontendSubscription : Type 0 where
  pub hostname : Text
  pub port : ℤ

pub record Request : Type 0 where
  pub request_type : RequestType
  pub username : Text
  pub password : Text
  pub filename : Text
  pub file_update : FileUpdate
  pub file_data_update : FileDataUpdate
  pub frontend_subscription : FrontendSubscription

pub data Response : Type 0 where
  login_ok : Option ℤ → Response
  error : Text → Response
  updated : FileUpdate → Response
  file_list : List (Text × Text) → Response
  pong : Response
  file_updated : Response
  file_data_r : (filename hash data_bytes : Text) → Response
  send_file_data : Response
