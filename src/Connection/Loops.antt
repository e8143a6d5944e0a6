-- ===== src/Connection/Loops.antt =====
-- The two copies of the loops, in Connection.h and in RequestHandler.h, and a message from one end
-- to the other.
use file_syncer.Prelude.{
  ℕ, zero, suc, ◌^◌, ◌<◌, ◌≡◌, refl, ap, ◌∙◌, true, Option, none, some, List, [], ◌∷◌, ◌++◌, length,
  take, drop, arith, All, take-append-drop,
}
use file_syncer.Prelude.Text.{Text}
use file_syncer.Link
use file_syncer.Link.{
  Header, Arrival, Received, received, failed, overrun, blocked, chunk, connection_was_closed,
  recv_error, load_from_buffer, header_size, sealed_message,
}
use file_syncer.Link.Codec.{IsLong, NonEmpty, joined, arriving, receive_msg-sealed_message}
use file_syncer.Connection.{
  Connection, ConnectionState, connected, Read, got, lost, overran, waiting, receive_bytes,
  receive_body, receive_loaded, receive_after_header, receive_msg, send_loop, send_message,
}

-- The result without the connection.
abbrev pub forget : {A : Type 0} → Read A → Received A
forget (got a arrivals c) = received a arrivals
forget (lost c) = failed
forget overran = overrun
forget waiting = blocked

forget-receive_bytes :
    (arrivals : List Arrival) (n : ℕ) (have : Text) (c : Connection)
    → forget (receive_bytes n have arrivals c) ≡ Link.receive_bytes n have arrivals
unfolding receive_bytes Link.receive_bytes
forget-receive_bytes [] n have c = ground arith
forget-receive_bytes (chunk s ∷ arrivals) n have c =
    ground (arith, forget-receive_bytes arrivals n (have ++ s) c)
forget-receive_bytes (connection_was_closed ∷ arrivals) n have c = ground arith
forget-receive_bytes (recv_error ∷ arrivals) n have c = ground arith

forget-receive_body :
    (h : Header) (r : Read Text) → forget (receive_body h r) ≡ Link.receive_body h (forget r)
unfolding receive_body Link.receive_body
forget-receive_body h (got message arrivals c) = refl
forget-receive_body h (lost c) = refl
forget-receive_body h overran = refl
forget-receive_body h waiting = refl

forget-receive_loaded :
    (h : Option Header) (arrivals : List Arrival) (c : Connection)
    → forget (receive_loaded h arrivals c) ≡ Link.receive_loaded h arrivals
unfolding receive_loaded Link.receive_loaded
forget-receive_loaded none arrivals c = refl
forget-receive_loaded (some h) arrivals c =
    forget-receive_body h (receive_bytes h.msg_size [] arrivals c)
    ∙ ap (Link.receive_body h) (forget-receive_bytes arrivals h.msg_size [] c)

forget-receive_after_header :
    (r : Read Text) → forget (receive_after_header r) ≡ Link.receive_after_header (forget r)
unfolding receive_after_header Link.receive_after_header
forget-receive_after_header (got buffer arrivals c) =
    forget-receive_loaded (load_from_buffer buffer) arrivals c
forget-receive_after_header (lost c) = refl
forget-receive_after_header overran = refl
forget-receive_after_header waiting = refl

-- Whatever comes in, a `Connection` receives the message that a request handler receives from it,
-- fails where that fails, and writes behind its buffer where that does.
pub forget-receive_msg :
    (arrivals : List Arrival) (c : Connection)
    → forget (receive_msg arrivals c) ≡ Link.receive_msg arrivals
unfolding receive_msg Link.receive_msg
forget-receive_msg arrivals c =
    forget-receive_after_header (receive_bytes header_size [] arrivals c)
    ∙ ap Link.receive_after_header (forget-receive_bytes arrivals header_size [] c)

send_loop-sent :
    (buffer : Text) (sends : List (Option ℕ)) (st : ConnectionState)
    → (send_loop buffer sends st).1 ≡ some true
    → (send_loop buffer sends st).0 ≡ buffer
unfolding send_loop
send_loop-sent [] sends st h = refl
send_loop-sent (b ∷ bs) [] st h = ground arith
send_loop-sent (b ∷ bs) (none ∷ sends) st h = ground arith
send_loop-sent (b ∷ bs) (some zero ∷ sends) st h = ground arith
send_loop-sent (b ∷ bs) (some (suc k) ∷ sends) st h =
    ap (λ (s : Text). b ∷ take k bs ++ s) (send_loop-sent (drop k bs) sends st h)
    ∙ ap (◌∷◌ b) (take-append-drop k bs)

send_message-sent :
    (message : Text) (sends : List (Option ℕ)) (c : Connection)
    → (send_message message sends c).1 ≡ some true
    → (send_message message sends c).0 ≡ sealed_message message c.session
unfolding send_message
send_message-sent message sends c h =
    ground (arith, send_loop-sent (sealed_message message c.session) sends connected)

-- What a client sends with success, a message of less than 2 ^ 31 bytes, is what the server's
-- request handler receives, with the session id of the connection: where the bytes come in in
-- pieces that are not empty, one of which begins where the header ends. Nothing after them is read.
pub sent-received :
    (message : Text) (sends : List (Option ℕ)) (c : Connection) (hs ms : List Text)
    (later : List Arrival)
    → length message < 2 ^ 31
    → IsLong c.session
    → (send_message message sends c).1 ≡ some true
    → All NonEmpty hs
    → All NonEmpty ms
    → joined hs ++ joined ms ≡ (send_message message sends c).0
    → length (joined hs) ≡ header_size
    → Link.receive_msg (arriving hs (arriving ms later))
      ≡ received (record { msg_size = length message; session_id = c.session }, message) later
sent-received message sends c hs ms later p q h kh km e k =
    receive_msg-sealed_message message c.session hs ms later p q kh km
      (e ∙ send_message-sent message sends c h) k
