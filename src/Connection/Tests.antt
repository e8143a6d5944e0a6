-- ===== src/Connection/Tests.antt =====
-- Runs of Connection.h.
use file_syncer.Utils.{le_bytes}
use file_syncer.Prelude.{◌≡◌, refl, true, some, [], ◌∷◌, take, drop, arith}
use file_syncer.Prelude.Int.{pos, negsuc}
use file_syncer.Prelude.Text.{Text, bytes}
use file_syncer.Link
use file_syncer.Link.{Arrival, chunk, received, header_size, sealed_message}
use file_syncer.Connection.{Connection, connected, receive_msg, send_message}
use file_syncer.Connection.Calls.{
  Codec, send_request, receive_request, receive_response, coming, header_of,
  receive_response-send_request,
}
use file_syncer.Connection.Loops.{forget, forget-receive_msg}

abbrev connection : Connection
connection = record {
  args = record {
    hostname = bytes "h";
    port = pos 1;
    username = [];
    password = [];
    session_id = negsuc 0;
  };
  state = connected;
  session = pos 5;
}

forget-receive_msg_example :
    forget (receive_msg (chunk (bytes "abc") ∷ chunk (bytes "d") ∷ []) connection)
    ≡ Link.receive_msg (chunk (bytes "abc") ∷ chunk (bytes "d") ∷ [])
forget-receive_msg_example =
    forget-receive_msg (chunk (bytes "abc") ∷ chunk (bytes "d") ∷ []) connection

abbrev message : Text
message = bytes "hi"

abbrev packed : Text
packed = sealed_message message (pos 5)

-- A message that is its own bytes.
abbrev plain : Codec Text
plain = record { serialize = λ m. m; parse = λ t. (true, t) }

abbrev answer : Text
answer = sealed_message (bytes "ok") (negsuc 0)

receive_response-send_request_example :
    (receive_request plain (coming (take header_size packed ∷ []) (drop header_size packed ∷ []) [])
      ≡ received (header_of message (pos 5), message) [])
    × (forget (
          receive_response plain
            (coming (take header_size answer ∷ []) (drop header_size answer ∷ []) [])
            connection)
        ≡ received (header_of (bytes "ok") (negsuc 0), bytes "ok") [])
unfolding send_message send_request le_bytes Link.send_message
receive_response-send_request_example =
    receive_response-send_request plain plain message (bytes "ok") connection (some 100 ∷ [])
      (some 100 ∷ []) (take header_size packed ∷ []) (drop header_size packed ∷ [])
      (take header_size answer ∷ []) (drop header_size answer ∷ []) [] [] (λ m. refl) (λ m. refl)
      (omega arith) (omega arith) (omega arith) refl refl
      (record {
        header_pieces = (omega arith, tt);
        message_pieces = (omega arith, tt);
        whole = refl;
        cut = refl;
      })
      (record {
        header_pieces = (omega arith, tt);
        message_pieces = (omega arith, tt);
        whole = refl;
        cut = refl;
      })
