-- ===== src/Manager/Wire.antt =====
-- A transaction between servers: `serialize` and `deserialize` of the five classes, over what the
-- getters of proto/message.proto's TransactionMsg return, and TransactionRequestHandler.cpp.
use file_syncer.Prelude.{
  ◌≡◌, refl, ap, Bool, true, false, Option, none, some, List, [], if◌then◌else◌,
}
use file_syncer.Prelude.Int.{ℤ, pos}
use file_syncer.Prelude.Text.{Text}
use file_syncer.Config.{Config}
use file_syncer.Transaction.Monad.{Payload, Transaction}
use file_syncer.Transaction.{new_transaction}
use file_syncer.Manager.{
  Manager, Ballot, Call, done, undefined_call, ◌>>=◌, add_vote, receive_result,
  receive_new_transaction,
}

pub data TransactionType : Type 0 where
  create_user create_session remove_session file_change new_frontend : TransactionType

-- A field that is not set has its default.
pub record TransactionMsg : Type 0 where
  pub transaction_type : TransactionType
  pub transaction_id : ℤ
  pub create_user_username : Text
  pub create_user_password : Text
  pub create_session_session_id : ℤ
  pub create_session_username : Text
  pub remove_session_session_id : ℤ
  pub file_change_filename : Text
  pub file_change_user : Text
  pub file_change_deleted : Bool
  pub file_change_data : Text
  pub new_frontend_hostname : Text
  pub new_frontend_port : ℤ

-- A message in which nothing is set.
unfoldable pub new_msg : TransactionMsg
new_msg = record {
  transaction_type = TransactionType.create_user;
  transaction_id = pos 0;
  create_user_username = [];
  create_user_password = [];
  create_session_session_id = pos 0;
  create_session_username = [];
  remove_session_session_id = pos 0;
  file_change_filename = [];
  file_change_user = [];
  file_change_deleted = false;
  file_change_data = [];
  new_frontend_hostname = [];
  new_frontend_port = pos 0;
}

unfoldable pub serialize_create_user : ℤ → Text → Text → TransactionMsg → TransactionMsg
serialize_create_user tid username password out = record out {
  transaction_id = tid;
  transaction_type = TransactionType.create_user;
  create_user_username = username;
  create_user_password = password;
}

unfoldable pub serialize_create_session : ℤ → ℤ → Text → TransactionMsg → TransactionMsg
serialize_create_session tid session_id username out = record out {
  transaction_id = tid;
  transaction_type = TransactionType.create_session;
  create_session_session_id = session_id;
  create_session_username = username;
}

unfoldable pub serialize_remove_session : ℤ → ℤ → TransactionMsg → TransactionMsg
serialize_remove_session tid session_id out = record out {
  transaction_type = TransactionType.remove_session;
  transaction_id = tid;
  remove_session_session_id = session_id;
}

unfoldable pub serialize_file_change :
    ℤ → Text → Text → Bool → Text → TransactionMsg → TransactionMsg
serialize_file_change tid username filename deleted content out = record out {
  transaction_id = tid;
  transaction_type = TransactionType.file_change;
  file_change_user = username;
  file_change_filename = filename;
  file_change_deleted = deleted;
  file_change_data = content;
}

unfoldable pub serialize_new_frontend : ℤ → Text → ℤ → TransactionMsg → TransactionMsg
serialize_new_frontend tid hostname port out = record out {
  transaction_type = TransactionType.new_frontend;
  transaction_id = tid;
  new_frontend_hostname = hostname;
  new_frontend_port = port;
}

unfoldable pub serialize : Transaction → TransactionMsg → TransactionMsg
unfolding serialize_create_user serialize_create_session serialize_remove_session
    serialize_file_change serialize_new_frontend
serialize t out = elim t.payload [
  | Payload.create_user username password ↦ serialize_create_user t.tid username password out
  | Payload.create_session session_id username ↦
      serialize_create_session t.tid session_id username out
  | Payload.remove_session session_id ↦ serialize_remove_session t.tid session_id out
  | Payload.file_change username filename deleted content ↦
      serialize_file_change t.tid username filename deleted content out
  | Payload.new_frontend hostname port ↦ serialize_new_frontend t.tid hostname port out
]

-- The members that `deserialize` of the class for this type sets.
unfoldable pub deserialize_create_user : TransactionMsg → Payload
deserialize_create_user msg = Payload.create_user msg.create_user_username msg.create_user_password

unfoldable pub deserialize_create_session : TransactionMsg → Payload
deserialize_create_session msg =
    Payload.create_session msg.create_session_session_id msg.create_session_username

unfoldable pub deserialize_remove_session : TransactionMsg → Payload
deserialize_remove_session msg = Payload.remove_session msg.remove_session_session_id

unfoldable pub deserialize_file_change : TransactionMsg → Payload
deserialize_file_change msg =
    Payload.file_change msg.file_change_user msg.file_change_filename msg.file_change_deleted
      msg.file_change_data

unfoldable pub deserialize_new_frontend : TransactionMsg → Payload
deserialize_new_frontend msg = Payload.new_frontend msg.new_frontend_hostname msg.new_frontend_port

-- The object that the handler makes for the type, and its `deserialize`.
unfoldable pub deserialize : TransactionMsg → Transaction
unfolding new_transaction deserialize_create_user deserialize_create_session
    deserialize_remove_session deserialize_file_change deserialize_new_frontend
deserialize msg =
    record (new_transaction (elim msg.transaction_type [
      | TransactionType.create_user ↦ deserialize_create_user msg
      | TransactionType.create_session ↦ deserialize_create_session msg
      | TransactionType.remove_session ↦ deserialize_remove_session msg
      | TransactionType.file_change ↦ deserialize_file_change msg
      | TransactionType.new_frontend ↦ deserialize_new_frontend msg
    ])) { tid = msg.transaction_id }

pub data TransactionOuterType : Type 0 where
  transaction transaction_vote transaction_result transaction_ok_ack : TransactionOuterType

-- A vote or a result is whether it is COMMIT, with its id.
pub record TransactionOuterMsg : Type 0 where
  pub outer_type : TransactionOuterType
  pub inner : TransactionMsg
  pub vote : Ballot
  pub result : Ballot

-- From the acknowledgement of a transaction on.
unfoldable pub handle_transaction :
    Config → Bool → Option ℤ → List Ballot → Transaction → Manager → Call Bool
handle_transaction c acked coordinator results t m = elim acked [
  | false ↦ done false m []
  | true ↦ receive_new_transaction c t.payload t.tid coordinator results m >>= λ _ m' out.
      done true m' out
]

-- The handler, and whether it has sent an acknowledgement; `acked` is whether that can be sent.
-- `none` is a message that cannot be received. A vote or a result reads the active transaction,
-- and nothing sets that pointer before the first transaction.
unfoldable pub handle_message :
    Config → Bool → Option ℤ → List Ballot → Option TransactionOuterMsg → Manager → Call Bool
unfolding deserialize handle_transaction
handle_message c acked coordinator results none m = done false m []
handle_message c acked coordinator results (some msg) m = elim msg.outer_type [
  | TransactionOuterType.transaction ↦
      handle_transaction c acked coordinator results (deserialize msg.inner) m
  | TransactionOuterType.transaction_vote ↦
      if m.has_transaction then done acked (add_vote msg.vote m) [] else undefined_call
  | TransactionOuterType.transaction_result ↦
      if m.has_transaction then done acked (receive_result msg.result m) [] else undefined_call
  | TransactionOuterType.transaction_ok_ack ↦ done false m []
]

-- The message of the coordinator for a transaction.
abbrev pub transaction_msg : Transaction → TransactionOuterMsg
transaction_msg t = record {
  outer_type = TransactionOuterType.transaction;
  inner = serialize t new_msg;
  vote = (false, pos 0);
  result = (false, pos 0);
}

-- Every transaction, whichever class it is of, is read from its message as a new transaction with
-- the same members and the same id.
pub deserialize-serialize :
    (t : Transaction) (out : TransactionMsg)
    → deserialize (serialize t out) ≡ record (new_transaction t.payload) { tid = t.tid }
unfolding deserialize serialize
deserialize-serialize t out = split t.payload t.tid
  where
    split :
        (p : Payload) (tid : ℤ)
        → deserialize (serialize (record (new_transaction p) { tid = tid }) out)
          ≡ record (new_transaction p) { tid = tid }
    split (Payload.create_user username password) tid = refl
    split (Payload.create_session session_id username) tid = refl
    split (Payload.remove_session session_id) tid = refl
    split (Payload.file_change username filename deleted content) tid = refl
    split (Payload.new_frontend hostname port) tid = refl

-- A replica that receives the coordinator's message for a transaction, and can acknowledge it,
-- takes part in that transaction: the one with the same members and the same id.
pub handle_message-transaction_msg :
    (c : Config) (coordinator : Option ℤ) (results : List Ballot) (t : Transaction) (m : Manager)
    → handle_message c true coordinator results (some (transaction_msg t)) m ≡ (
        receive_new_transaction c t.payload t.tid coordinator results m >>= λ _ m' out.
        done true m' out)
unfolding handle_message handle_transaction
handle_message-transaction_msg c coordinator results t m =
    ap (λ t'. handle_transaction c true coordinator results t' m) (deserialize-serialize t new_msg)
