-- ===== src/Client/Begins.antt =====
-- When the client's threads are started, and over which directory.
use file_syncer.Prelude.{
  ◌≡◌, refl, Bool, true, false, ◌&&◌, Option, none, some, List, [], ◌∷◌, ◌++◌, if◌then◌else◌, arith,
  Bool-cases, inl, inr,
}
use file_syncer.Prelude.Int.{ℤ, negsuc}
use file_syncer.Prelude.Text.{Text, bytes}
use file_syncer.Messages.{Response}
use file_syncer.Connection.{Attempt, ConnectionArgs}
use file_syncer.Utils.Decimal.{is_space, read_int}
use file_syncer.ServerState.Startup.{until_space, first_word}
use file_syncer.Client.Session.{
  ClientConnection, new_client_connection, is_logged, is_connected, starts,
}
use file_syncer.Client.Logged.{reaches, granted, new_client_connection-login}
use file_syncer.Client.Main.{Begun, usage, exits, runs, begin_client, sync_dir_path}

-- A text with no white space.
unfoldable pub is_word : Text → Bool
unfolding is_space
is_word [] = true
is_word (b ∷ s) = let rest = is_word s in if is_space b then false else rest

until_space-word : (s : Text) → is_word s ≡ true → until_space s ≡ s
unfolding until_space is_word
until_space-word [] h = refl
until_space-word (b ∷ s) h = ground (arith, until_space-word s)

first_word-word : (s : Text) → is_word s ≡ true → first_word s ≡ s
unfolding first_word is_word
first_word-word [] h = refl
first_word-word (b ∷ s) h = ground (arith, until_space-word (b ∷ s))

is_word-append : (s t : Text) → is_word s ≡ true → is_word t ≡ true → is_word (s ++ t) ≡ true
unfolding is_word
is_word-append [] t h k = k
is_word-append (b ∷ s) t h k = ground (arith, is_word-append s t)

-- The answer to the request that gives the client's own address.
abbrev pub accepted_by : Option Response → Bool
accepted_by none = false
accepted_by (some (Response.error msg)) = false
accepted_by (some other) = true

-- What the client begins as: its threads run where `b`, over this directory and a connection that is
-- logged in and connected; and else it exits.
abbrev pub Begins : Bool → Text → Begun → Type 0
Begins true dir (runs path main) =
    (path ≡ dir) × (is_logged main ≡ true) × (is_connected main.base.state ≡ true)
Begins true dir other = true ≡ false
Begins false dir (runs path main) = true ≡ false
Begins false dir usage = true ≡ false
Begins false dir exits = exits ≡ exits

sync_dir_path-word :
    (home username : Text)
    → is_word home ≡ true
    → is_word username ≡ true
    → sync_dir_path home username ≡ home ++ (bytes "/sync_dir_" ++ username)
unfolding sync_dir_path is_word
sync_dir_path-word home username h k =
    let folder : is_word (bytes "/sync_dir_") ≡ true = refl in
    first_word-word (home ++ (bytes "/sync_dir_" ++ username)) (
      is_word-append home (bytes "/sync_dir_" ++ username) h
        (is_word-append (bytes "/sync_dir_") username folder k))

starts-accepted :
    (answer : Option Response) (main : ClientConnection)
    → starts answer main ≡ (is_connected main.base.state && (is_logged main && accepted_by answer))
unfolding starts
starts-accepted answer main = ground arith

-- What `main` makes of a connection, where `b` says whether it is logged in and connected.
begun :
    (answer : Option Response) (main : ClientConnection) (path dir : Text) (b : Bool)
    → path ≡ dir
    → is_logged main ≡ b
    → is_connected main.base.state ≡ b
    → Begins (b && accepted_by answer) dir (if starts answer main then runs path main else exits)
begun answer main path dir true e l k = elim (Bool-cases (accepted_by answer)) [
  | inl a ↦ rw (starts-accepted answer main, l, k, a) (e, l, k)
  | inr a ↦ rw (starts-accepted answer main, l, k, a) refl
]
begun answer main path dir false e l k = rw (starts-accepted answer main, k) refl

-- With four arguments and no white space in the home directory and the user's name: the threads are
-- started exactly where the connection and that of the login can be made, the login is answered with
-- a session other than -1 and the client's own address is not refused. Then the connection is
-- logged in and connected, and the directory is the one of the user's name in the home directory. Else
-- the program exits.
pub begin_client-Begins :
    (program username hostname port local password home : Text) (port_before : ℤ)
    (found login_found : Option (List Attempt)) (login_answer answer : Option Response)
    → is_word home ≡ true
    → is_word username ≡ true
    → Begins
        ((reaches found && (reaches login_found && granted login_answer)) && accepted_by answer)
        (home ++ (bytes "/sync_dir_" ++ username))
        (begin_client
          (program ∷ username ∷ hostname ∷ port ∷ local ∷ [])
          password
          home
          port_before
          found
          login_found
          login_answer
          answer)
unfolding begin_client
begin_client-Begins program username hostname port local password home port_before found login_found
      login_answer answer h k =
    let args : ConnectionArgs = record {
      hostname = hostname;
      port = read_int port_before port;
      username = username;
      password = password;
      session_id = negsuc 0;
    } in
    let login = new_client_connection-login args found login_found login_answer refl in
    begun answer (new_client_connection args found login_found login_answer)
      (sync_dir_path home username) (home ++ (bytes "/sync_dir_" ++ username))
      (reaches found && (reaches login_found && granted login_answer))
      (sync_dir_path-word home username h k) login.0 login.1
