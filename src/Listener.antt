-- ===== src/Listener.antt =====
-- src/server/interfaces/Listener.h: the thread that accepts connections, and its end. The service's, the
-- admin's, the transactions' and the client's listener differ in the handler that they create.
pub mod Served
use file_syncer.Prelude.{
  Bool, true, false, Option, none, some, List, [], ◌∷◌, ◌++◌, map, if◌then◌else◌,
}
use file_syncer.Prelude.Int.{ℤ}
use file_syncer.Prelude.Text.{Text}

-- A handler is known by its socket, and runs until it is stopped.
pub record Handler : Type 0 where
  pub socket : ℤ
  pub running : Bool

pub record Listener : Type 0 where
  pub host : Text
  pub port : ℤ
  pub handlers : List Handler
  pub is_running : Bool
  pub is_open : Bool

unfoldable pub new_listener : Text → ℤ → Listener
new_listener host port = record {
  host = host;
  port = port;
  handlers = [];
  is_running = true;
  is_open = false;
}

-- One `accept`: whether the listener still runs when it returns, and the socket, `none` on an error.
pub record Accepted : Type 0 where
  pub still_running : Bool
  pub socket : Option ℤ

-- The loop over what `accept` returns. At the end of the list it waits in `accept`.
unfoldable pub accept_loop : List Accepted → Listener → Listener
accept_loop [] l = l
accept_loop (a ∷ as') l =
    if a.still_running
    then elim a.socket [
      | none ↦ accept_loop as' l
      | some i ↦
          accept_loop as'
            (record l { handlers = l.handlers ++ (record { socket = i; running = true } ∷ []) })
    ]
    else record l { is_running = false; is_open = false }

-- What the system grants before the loop: the socket, the address, and the binding. `none` is the end of
-- the process.
pub record Setup : Type 0 where
  pub socket : Bool
  pub address : Bool
  pub binding : Bool

unfoldable pub execute : Setup → List Accepted → Listener → Option Listener
unfolding accept_loop
execute g accepts l =
    if g.socket
    then (if g.address
        then (if g.binding then some (accept_loop accepts (record l { is_open = true })) else none)
        else none)
    else none

unfoldable pub stop_handler : Handler → Handler
stop_handler h = record h { running = false }

unfoldable pub stop : Listener → Listener
unfolding stop_handler
stop l = record l { is_running = false; is_open = false; handlers = map stop_handler l.handlers }
