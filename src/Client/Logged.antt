-- ===== src/Client/Logged.antt =====
-- ClientConnection.cpp and ClientRequestHandler.cpp with Server.cpp: when a client is logged in, and
-- how its session goes on at a new coordinator.
use file_syncer.Prelude.{
  ◌≡◌, refl, ap, ◌∙◌, Bool, true, false, not, ◌&&◌, Option, none, some, is_some, List,
  if◌then◌else◌, arith,
}
use file_syncer.Prelude.Int.{ℤ, negsuc, int_eq}
use file_syncer.Prelude.Text.{Text}
use file_syncer.Messages.{Response}
use file_syncer.Connection.{
  Connection, ConnectionArgs, Attempt, connects, new_connection, copy_connection,
}
use file_syncer.Replica.{new_coordinator}
use file_syncer.Client.Session.{
  ClientConnection, session_of_answer, do_login, new_client_connection, is_logged, change_ip,
  handle_admin_request, is_connected,
}

-- Whether an address can be reached.
abbrev pub reaches : Option (List Attempt) → Bool
reaches none = false
reaches (some attempts) = connects attempts

is_connected-new_connection :
    (args : ConnectionArgs) (found : Option (List Attempt))
    → is_connected (new_connection args found).state ≡ reaches found
unfolding new_connection
is_connected-new_connection args none = refl
is_connected-new_connection args (some attempts) = ground arith

-- A session that is an id.
abbrev pub granted : Option Response → Bool
granted answer = elim (session_of_answer answer) [
  | none ↦ false
  | some i ↦ not (int_eq i (negsuc 0))
]

-- What a login leaves, where the connection is made.
login_session : Bool → Option Response → ℤ
login_session b answer =
    if b then elim (session_of_answer answer) [ none ↦ negsuc 0 | some i ↦ i ] else negsuc 0

do_login-session :
    (found : Option (List Attempt)) (answer : Option Response) (conn : Connection)
    → (do_login found answer conn).1.session
      ≡ login_session (is_connected conn.state && reaches found) answer
unfolding do_login copy_connection login_session
do_login-session found answer conn = ground (arith, is_connected-new_connection conn.args found)

do_login-done :
    (found : Option (List Attempt)) (answer : Option Response) (conn : Connection)
    → (do_login found answer conn).0
      ≡ (is_connected conn.state && reaches found && is_some (session_of_answer answer))
unfolding do_login copy_connection
do_login-done found answer conn = ground (arith, is_connected-new_connection conn.args found)

do_login-state :
    (found : Option (List Attempt)) (answer : Option Response) (conn : Connection)
    → (do_login found answer conn).1.state ≡ conn.state
unfolding do_login
do_login-state found answer conn = ground arith

-- A connection with no session yet is logged in exactly where both its own connect and that of the
-- login succeed, and the answer is a LOGIN_OK with a session other than -1; then it is connected, and
-- it has that session, and otherwise it is a failed connection.
pub new_client_connection-login :
    (args : ConnectionArgs) (found login_found : Option (List Attempt)) (answer : Option Response)
    → args.session_id ≡ negsuc 0
    → (is_logged (new_client_connection args found login_found answer)
        ≡ (reaches found && (reaches login_found && granted answer)))
      × (is_connected (new_client_connection args found login_found answer).base.state
          ≡ (reaches found && (reaches login_found && granted answer)))
unfolding new_client_connection is_logged login_session
new_client_connection-login args found login_found answer h =
    let conn = new_connection args found in
    let own = is_connected-new_connection args found in
    (
      ground (
        arith,
        own,
        do_login-session login_found answer conn,
        do_login-done login_found answer conn,
        do_login-state login_found answer conn,
      ),
      ground (
        arith,
        own,
        do_login-session login_found answer conn,
        do_login-done login_found answer conn,
        do_login-state login_found answer conn,
      ),
    )

-- The main connection of a client that goes on with its session at another address.
pub record Moved (hostname : Text) (port : ℤ) (reached : Bool) (main main' : ClientConnection)
    : Type 0 where
  pub same_session : main'.base.session ≡ main.base.session
  pub logged : is_logged main' ≡ true
  pub at_host : main'.base.args.hostname ≡ hostname
  pub at_port : main'.base.args.port ≡ port
  pub connected_there : is_connected main'.base.state ≡ reached

session_args-Moved :
    (args : ConnectionArgs) (found login_found : Option (List Attempt)) (answer : Option Response)
    (main : ClientConnection)
    → args.session_id ≡ main.base.session
    → is_logged main ≡ true
    → Moved args.hostname args.port
        (reaches found)
        main
        (new_client_connection args found login_found answer)
unfolding new_client_connection new_connection is_logged
session_args-Moved args found login_found answer main e h =
    let session : not (int_eq args.session_id (negsuc 0)) ≡ true =
      ap (λ i. not (int_eq i (negsuc 0))) e ∙ h in
    record {
      same_session = ground (arith, session, e);
      logged = ground (arith, session);
      at_host = ground (arith, session);
      at_port = ground (arith, session);
      connected_there = ground (arith, session, is_connected-new_connection args found);
    }

-- The message of a new coordinator, which `startCoordinator` sends with its host and port, replaces the
-- main connection by one to that address, with the same session and without a login: a client that
-- was logged in still is, and is connected where the address can be reached.
pub handle_admin_request-Moved :
    (username password hostname : Text) (port : ℤ) (found login_found : Option (List Attempt))
    (answer : Option Response) (main : ClientConnection)
    → is_logged main ≡ true
    → Moved hostname port
        (reaches found)
        main
        (handle_admin_request username password found login_found answer
          (some (new_coordinator, hostname, port))
          main).1
unfolding handle_admin_request change_ip
handle_admin_request-Moved username password hostname port found login_found answer main h =
    session_args-Moved
      (record {
        hostname = hostname;
        port = port;
        username = username;
        password = password;
        session_id = main.base.session;
      })
      found login_found answer main refl h
