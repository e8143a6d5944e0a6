-- ===== src/Connection.antt =====
-- src/common/Connection.h: a connection to another process, its state, and its loops. What
-- `getaddrinfo`, `connect`, `recv` and `send` return are arguments.
mod Tests
pub mod Loops
pub mod Calls
use file_syncer.Prelude.{
  ℕ, zero, suc, ◌+◌, Bool, true, false, Option, none, some, List, [], ◌∷◌, ◌++◌, length, take, drop,
  if◌then◌else◌, ltb, leb,
}
use file_syncer.Prelude.Int.{ℤ, pos, negsuc}
use file_syncer.Prelude.Text.{Text}
use file_syncer.Link.{
  Header, Arrival, chunk, connection_was_closed, recv_error, header_size, load_from_buffer,
  sealed_message,
}

pub data ConnectionState : Type 0 where
  not_initialized connected connection_closed connection_failure : ConnectionState

-- `session_id` is -1 where it is not given.
pub record ConnectionArgs : Type 0 where
  pub hostname : Text
  pub port : ℤ
  pub username : Text
  pub password : Text
  pub session_id : ℤ

unfoldable pub host_args : Text → ℤ → ConnectionArgs
host_args hostname port = record {
  hostname = hostname;
  port = port;
  username = [];
  password = [];
  session_id = negsuc 0;
}

-- `session` is what the virtual `getSessionId` gives: 0 but for a client's connection.
pub record Connection : Type 0 where
  pub args : ConnectionArgs
  pub state : ConnectionState
  pub session : ℤ

-- One address: there is no socket for it, or `connect` fails, or it succeeds.
pub data Attempt : Type 0 where
  no_socket refused accepted : Attempt

-- The loop over the addresses: whether it is left by `break`.
unfoldable pub connects : List Attempt → Bool
connects [] = false
connects (no_socket ∷ attempts) = connects attempts
connects (refused ∷ attempts) = connects attempts
connects (accepted ∷ attempts) = true

-- The constructor; `none` where `getaddrinfo` fails.
unfoldable pub new_connection : ConnectionArgs → Option (List Attempt) → Connection
unfolding connects
new_connection args found = record {
  args = args;
  state = elim found [
    | none ↦ connection_failure
    | some attempts ↦ if connects attempts then connected else connection_failure
  ];
  session = pos 0;
}

-- The copy constructor connects again.
unfoldable pub copy_connection : Connection → Option (List Attempt) → Connection
unfolding new_connection
copy_connection other found = new_connection other.args found

-- What a call leaves: a value, with what has not been read; nothing; a write behind the buffer; or
-- a wait for ever.
pub data Read (A : Type 0) : Type 0 where
  got : A → List Arrival → Connection → Read A
  lost : Connection → Read A
  overran : Read A
  waiting : Read A

-- `receiveBytes`, with the bytes that it has. Where more than `n` bytes are there, the `recv`
-- gives `n`, and the loop is done.
unfoldable pub receive_bytes : ℕ → Text → List Arrival → Connection → Read Text
receive_bytes n have [] c = if leb n (length have) then got have [] c else waiting
receive_bytes n have (a ∷ arrivals) c =
    if leb n (length have) then got have (a ∷ arrivals) c else elim a [
      | connection_was_closed ↦ lost (record c { state = connection_closed })
      | recv_error ↦ lost (record c { state = connection_failure })
      | chunk s ↦
          let rest = receive_bytes n (have ++ s) arrivals c in
          elim s [
            | [] ↦ lost (record c { state = connection_closed })
            | b ∷ bs ↦
                if ltb n (length have + length (take n (b ∷ bs)))
                then overran
                else elim (drop n (b ∷ bs)) [
                  | [] ↦ rest
                  | l ∷ ls ↦ got (have ++ take n (b ∷ bs)) (chunk (l ∷ ls) ∷ arrivals) c
                ]
          ]
    ]

unfoldable pub receive_body : Header → Read Text → Read (Header × Text)
receive_body h (got message arrivals c) = got (h, message) arrivals c
receive_body h (lost c) = lost c
receive_body h overran = overran
receive_body h waiting = waiting

unfoldable pub receive_loaded : Option Header → List Arrival → Connection → Read (Header × Text)
unfolding receive_bytes receive_body
receive_loaded none arrivals c = lost c
receive_loaded (some h) arrivals c = receive_body h (receive_bytes h.msg_size [] arrivals c)

unfoldable pub receive_after_header : Read Text → Read (Header × Text)
unfolding load_from_buffer receive_loaded
receive_after_header (got buffer arrivals c) = receive_loaded (load_from_buffer buffer) arrivals c
receive_after_header (lost c) = lost c
receive_after_header overran = overran
receive_after_header waiting = waiting

unfoldable pub receive_msg : List Arrival → Connection → Read (Header × Text)
unfolding receive_bytes receive_after_header
receive_msg arrivals c = receive_after_header (receive_bytes header_size [] arrivals c)

-- The loop of `sendMessage`: what went out, whether all of it did (`none` for a wait for ever), and
-- the state after it. `some 0` is a connection that was closed, and `none` an error.
unfoldable pub send_loop :
    Text → List (Option ℕ) → ConnectionState → Text × Option Bool × ConnectionState
send_loop [] sends st = ([], some true, st)
send_loop (b ∷ bs) [] st = ([], none, st)
send_loop (b ∷ bs) (none ∷ sends) st = ([], some false, connection_failure)
send_loop (b ∷ bs) (some zero ∷ sends) st = ([], some false, connection_closed)
send_loop (b ∷ bs) (some (suc k) ∷ sends) st =
    let rest = send_loop (drop k bs) sends st in (b ∷ take k bs ++ rest.0, rest.1, rest.2)

unfoldable pub send_message : Text → List (Option ℕ) → Connection → Text × Option Bool × Connection
unfolding sealed_message send_loop
send_message message sends c = elim c.state [
  | connected ↦
      let end = send_loop (sealed_message message c.session) sends connected in
      (end.0, end.1, record c { state = end.2 })
  | _ ↦ ([], some false, c)
]
