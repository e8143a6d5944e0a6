-- ===== src/Connection/Calls.antt =====
-- `sendRequest` and `receiveResponse` of src/common/Connection.h, and `receiveRequest` of
-- src/server/interfaces/RequestHandler.h, over the messages that protobuf writes and reads.
use file_syncer.Prelude.{
  ℕ, ◌^◌, ◌<◌, ◌≡◌, ap, ◌∙◌, Bool, true, false, Option, some, List, ◌++◌, length, arith, All,
}
use file_syncer.Prelude.Int.{ℤ, negsuc}
use file_syncer.Prelude.Text.{Text}
use file_syncer.Link
use file_syncer.Link.{
  Header, Arrival, Received, received, failed, overrun, blocked, header_size, sealed_message,
}
use file_syncer.Link.Codec.{
  IsLong, NonEmpty, joined, arriving, receive_msg-sealed_message, send_loop-sent,
}
use file_syncer.Connection.{
  Connection, Read, got, lost, overran, waiting, receive_msg, send_message,
}
use file_syncer.Connection.Loops.{forget, forget-receive_msg, sent-received}

-- A message type of protobuf: `SerializeAsString`, and `ParseFromString` with its result and what it
-- leaves in the message.
pub record Codec (T : Type 0) : Type 0 where
  pub serialize : T → Text
  pub parse : Text → Bool × T

-- What was written is read back.
abbrev pub ReadsBack : {T : Type 0} → Codec T → Type 0
ReadsBack {T} p = (m : T) → p.parse (p.serialize m) ≡ (true, m)

module _ {T : Type 0} (p : Codec T) where
  unfoldable pub send_request : T → List (Option ℕ) → Connection → Text × Option Bool × Connection
  unfolding send_message
  send_request request sends c = send_message (p.serialize request) sends c

  -- The result of `ParseFromString` is not looked at.
  abbrev pub parsed_response : Read (Header × Text) → Read (Header × T)
  parsed_response (got (h, message) arrivals c) = got (h, (p.parse message).1) arrivals c
  parsed_response (lost c) = lost c
  parsed_response overran = overran
  parsed_response waiting = waiting

  unfoldable pub receive_response : List Arrival → Connection → Read (Header × T)
  unfolding receive_msg
  receive_response arrivals c = parsed_response (receive_msg arrivals c)

  abbrev pub parsed_request : Received (Header × Text) → Received (Header × T)
  parsed_request (received (h, message) arrivals) = elim (p.parse message).0 [
    | true ↦ received (h, (p.parse message).1) arrivals
    | false ↦ failed
  ]
  parsed_request failed = failed
  parsed_request overrun = overrun
  parsed_request blocked = blocked

  unfoldable pub receive_request : List Arrival → Received (Header × T)
  unfolding Link.receive_msg
  receive_request arrivals = parsed_request (Link.receive_msg arrivals)

-- What is received of a message that went out whole: the pieces in which its bytes come in.
pub record Pieces (sent : Text) (hs ms : List Text) : Type 0 where
  pub header_pieces : All NonEmpty hs
  pub message_pieces : All NonEmpty ms
  pub whole : joined hs ++ joined ms ≡ sent
  pub cut : length (joined hs) ≡ header_size

-- The pieces, and what comes in after them.
abbrev pub coming : List Text → List Text → List Arrival → List Arrival
coming hs ms later = arriving hs (arriving ms later)

abbrev pub header_of : Text → ℤ → Header
header_of message session = record { msg_size = length message; session_id = session }

module _ {T : Type 0} (p : Codec T) (law : ReadsBack p) (m : T) (hs ms : List Text)
    (later : List Arrival) (short : length (p.serialize m) < 2 ^ 31) where
  receive_request-send_request :
      (sends : List (Option ℕ)) (c : Connection)
      → IsLong c.session
      → (send_request p m sends c).1 ≡ some true
      → Pieces (send_request p m sends c).0 hs ms
      → receive_request p (coming hs ms later)
        ≡ received (header_of (p.serialize m) c.session, m) later
  unfolding send_request receive_request
  receive_request-send_request sends c l done w =
      ap (parsed_request p) (
        sent-received (p.serialize m) sends c hs ms later short l done w.header_pieces
          w.message_pieces w.whole w.cut)
      ∙ ground (arith, law m)

  forget-parsed_response :
      (r : Read (Header × Text)) (h : Header)
      → forget r ≡ received (h, p.serialize m) later
      → forget (parsed_response p r) ≡ received (h, m) later
  forget-parsed_response (got (k, message) arrivals c) h e = ground (arith, e, law m)
  forget-parsed_response (lost c) h e = ground arith
  forget-parsed_response overran h e = ground arith
  forget-parsed_response waiting h e = ground arith

  receive_response-send_message :
      (sends : List (Option ℕ)) (c : Connection)
      → (Link.send_message (p.serialize m) (negsuc 0) sends).1 ≡ some true
      → Pieces (Link.send_message (p.serialize m) (negsuc 0) sends).0 hs ms
      → forget (receive_response p (coming hs ms later) c)
        ≡ received (header_of (p.serialize m) (negsuc 0), m) later
  unfolding receive_response Link.send_message
  receive_response-send_message sends c done w =
      forget-parsed_response (receive_msg (coming hs ms later) c)
        (header_of (p.serialize m) (negsuc 0))
        (forget-receive_msg (coming hs ms later) c
          ∙ receive_msg-sealed_message (p.serialize m) (negsuc 0) hs ms later short (omega arith)
              w.header_pieces w.message_pieces
              (w.whole ∙ send_loop-sent (sealed_message (p.serialize m) (negsuc 0)) sends done)
              w.cut)

-- A call and its answer, each written as less than 2 ^ 31 bytes and sent with success: the handler
-- receives the request that the client sends, with the session of the connection, and the client the
-- answer that the handler sends, with the session -1, and nothing after them is read. The messages
-- are read back as they were written, and their bytes come in in pieces that are not empty, one of
-- which begins where the header ends.
pub receive_response-send_request :
    {Req Res : Type 0} (p : Codec Req) (q : Codec Res) (request : Req) (answer : Res)
    (c : Connection) (sends answers : List (Option ℕ)) (hs ms hs' ms' : List Text)
    (later later' : List Arrival)
    → ReadsBack p
    → ReadsBack q
    → IsLong c.session
    → length (p.serialize request) < 2 ^ 31
    → length (q.serialize answer) < 2 ^ 31
    → (send_request p request sends c).1 ≡ some true
    → (Link.send_message (q.serialize answer) (negsuc 0) answers).1 ≡ some true
    → Pieces (send_request p request sends c).0 hs ms
    → Pieces (Link.send_message (q.serialize answer) (negsuc 0) answers).0 hs' ms'
    → (receive_request p (coming hs ms later)
        ≡ received (header_of (p.serialize request) c.session, request) later)
      × (forget (receive_response q (coming hs' ms' later') c)
          ≡ received (header_of (q.serialize answer) (negsuc 0), answer) later')
receive_response-send_request p q request answer c sends answers hs ms hs' ms' later later' lp lq
      long short short' done done' w w' =
    (
      receive_request-send_request p lp request hs ms later short sends c long done w,
      receive_response-send_message q lq answer hs' ms' later' short' answers c done' w',
    )
