-- ===== src/Client/Session.antt =====
-- src/client/ClientConnection.h and .cpp, ClientRequestHandler.cpp, and the parts of mainClient.cpp that
-- make, keep and replace the main connection.
use file_syncer.Prelude.{Bool, true, false, not, ◌&&◌, Option, none, some, List, if◌then◌else◌}
use file_syncer.Prelude.Int.{ℤ, pos, negsuc, int_eq}
use file_syncer.Prelude.Text.{Text}
use file_syncer.Connection.{
  Connection, ConnectionArgs, ConnectionState, connected, connection_failure, Attempt,
  new_connection, copy_connection,
}
use file_syncer.Messages.{RequestType, Request, Response, login_ok}
use file_syncer.Replica.{AdminMsgType, new_coordinator}
use file_syncer.Client.{new_request}

-- The fields of a ClientConnection besides those of its base: the session is the base's `session`.
pub record ClientConnection : Type 0 where
  pub base : Connection
  pub hostname : Text
  pub port : ℤ

unfoldable pub login_request : Text → Text → Request
unfolding new_request
login_request username password = record (new_request RequestType.login) {
  username = username;
  password = password;
}

-- The answer to a login, as the session id that it gives. The getter gives 0 where none is set.
unfoldable pub session_of_answer : Option Response → Option ℤ
session_of_answer none = none
session_of_answer (some (login_ok none)) = some (pos 0)
session_of_answer (some (login_ok (some i))) = some i
session_of_answer (some other) = none

abbrev pub is_connected : ConnectionState → Bool
is_connected connected = true
is_connected other = false

-- `doLogin`, on a copy that connects anew: whether it returns 0, and the connection.
unfoldable pub do_login : Option (List Attempt) → Option Response → Connection → Bool × Connection
unfolding copy_connection session_of_answer
do_login found answer conn =
    let conn' = record conn { session = negsuc 0 } in
    if is_connected conn.state && is_connected (copy_connection conn' found).state
    then elim (session_of_answer answer) [
      | none ↦ (false, conn')
      | some i ↦ (true, record conn { session = i })
    ]
    else (false, conn')

-- The constructor. The session is 0 until the login begins.
unfoldable pub new_client_connection :
    ConnectionArgs
    → Option (List Attempt)
    → Option (List Attempt)
    → Option Response
    → ClientConnection
unfolding new_connection do_login
new_client_connection args found login_found answer =
    let conn = new_connection args found in
    let login = do_login login_found answer conn in
    record {
      base =
          if int_eq args.session_id (negsuc 0)
          then (if not login.0
              then record login.1 { state = connection_failure }
              else if int_eq login.1.session (negsuc 0)
              then record login.1 { state = connection_failure }
              else login.1)
          else record conn { session = args.session_id };
      hostname = args.hostname;
      port = args.port;
    }

-- The copy constructor; it leaves `hostname` and `port` as they are by default, and `port` is not
-- read of a copy.
unfoldable pub copy_client_connection : ClientConnection → Option (List Attempt) → Connection
unfolding copy_connection
copy_client_connection other found = record (copy_connection other.base found) {
  session = other.base.session;
}

unfoldable pub is_logged : ClientConnection → Bool
is_logged conn = not (int_eq conn.base.session (negsuc 0))

-- `changeIP`; the login is not run, but where the session is -1.
unfoldable pub change_ip :
    Text
    → Text
    → Text
    → ℤ
    → Option (List Attempt)
    → Option (List Attempt)
    → Option Response
    → ClientConnection
    → ClientConnection
unfolding new_client_connection
change_ip username password hostname port found login_found answer main =
    new_client_connection
      (record {
        hostname = hostname;
        port = port;
        username = username;
        password = password;
        session_id = main.base.session;
      })
      found login_found answer

-- ClientRequestHandler's `handleRequest`: a request that cannot be received ends the connection. Its
-- result is whether the connection is still open, and the main connection.
unfoldable pub handle_admin_request :
    Text
    → Text
    → Option (List Attempt)
    → Option (List Attempt)
    → Option Response
    → Option (AdminMsgType × Text × ℤ)
    → ClientConnection
    → Bool × ClientConnection
unfolding change_ip
handle_admin_request username password found login_found answer none main = (false, main)
handle_admin_request username password found login_found answer
      (some (new_coordinator, hostname, port)) main =
    (true, change_ip username password hostname port found login_found answer main)
handle_admin_request username password found login_found answer (some (other, hostname, port))
      main =
    (true, main)

-- The request of `main` before the login is looked at.
unfoldable pub frontend_request : Text → ℤ → Request
unfolding new_request
frontend_request hostname port = record (new_request RequestType.frontend_subscribe) {
  frontend_subscription = record { hostname = hostname; port = port };
}

-- Whether `main` goes on to start its threads: the answer to that request is not missing and not an
-- error, and the main connection is connected and logged in.
unfoldable pub starts : Option Response → ClientConnection → Bool
unfolding is_logged
starts none main = false
starts (some (Response.error msg)) main = false
starts (some other) main = is_connected main.base.state && is_logged main
