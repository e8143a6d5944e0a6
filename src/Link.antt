-- ===== src/Link.antt =====
-- src/common/MessageComunication.h, and the sending and receiving of messages in
-- src/server/interfaces/RequestHandler.h. The sockets are what `recv` and `send` return.
pub mod Codec
mod Tests
use file_syncer.Prelude.{
  ℕ, zero, suc, ◌+◌, ◌*◌, Bool, true, false, Option, none, some, List, [], ◌∷◌, ◌++◌, length, take,
  drop, if◌then◌else◌, ltb, leb,
}
use file_syncer.Prelude.Int.{ℤ, pos, to_int, to_word, of_word}
use file_syncer.Prelude.Text.{Text, bytes, text_eq}
use file_syncer.Utils.{le_bytes, of_le_bytes}

-- `msg_size` is a `size_t`, and `session_id` a `long`, both of 64 bits; the mark is the constant
-- `header_mark`.
pub record Header : Type 0 where
  pub msg_size : ℕ
  pub session_id : ℤ

-- "VINIPROTOCOL v0.1" with its last zero.
abbrev pub header_mark : Text
header_mark = bytes "VINIPROTOCOL v0.1" ++ 0 ∷ []

abbrev pub header_size : ℕ
header_size = 34

unfoldable pub write_into_buffer : Header → Text
write_into_buffer h = header_mark ++ le_bytes 8 h.msg_size ++ le_bytes 8 (to_word 64 h.session_id)

-- `none` is the result -1.
unfoldable pub load_from_buffer : Text → Option Header
unfolding of_le_bytes
load_from_buffer buffer =
    if text_eq (take 18 buffer) header_mark
    then some (record {
      msg_size = of_le_bytes (take 8 (drop 18 buffer));
      session_id = of_word 64 (of_le_bytes (take 8 (drop 26 buffer)));
    })
    else none

-- A `SealedMessage`: `getSize` is an `int`.
unfoldable pub sealed_message : Text → ℤ → Text
unfolding write_into_buffer
sealed_message message session_id =
    write_into_buffer
      (record { msg_size = to_word 64 (to_int (pos (length message))); session_id = session_id })
    ++ message

-- What is there when `recv` is called: bytes, the end of the connection, or an error.
pub data Arrival : Type 0 where
  chunk : Text → Arrival
  connection_was_closed : Arrival
  recv_error : Arrival

-- Bytes with what has not been read yet; `false`; a write behind the buffer, which is undefined
-- behaviour; and a wait for ever.
pub data Received (A : Type 0) : Type 0 where
  received : A → List Arrival → Received A
  failed : Received A
  overrun : Received A
  blocked : Received A

-- The loop of `receiveBytes`, with the bytes that it has. Every `recv` asks for all the `n` bytes.
-- Where more than `n` are there, the `recv` gives `n`, and the loop is done.
unfoldable pub receive_bytes : ℕ → Text → List Arrival → Received Text
receive_bytes n got [] = if leb n (length got) then received got [] else blocked
receive_bytes n got (a ∷ arrivals) =
    if leb n (length got) then received got (a ∷ arrivals) else elim a [
      | connection_was_closed ↦ failed
      | recv_error ↦ failed
      | chunk c ↦
          let rest = receive_bytes n (got ++ c) arrivals in
          elim c [
            | [] ↦ failed
            | b ∷ bs ↦
                if ltb n (length got + length (take n (b ∷ bs)))
                then overrun
                else elim (drop n (b ∷ bs)) [
                  | [] ↦ rest
                  | l ∷ ls ↦ received (got ++ take n (b ∷ bs)) (chunk (l ∷ ls) ∷ arrivals)
                ]
          ]
    ]

unfoldable pub receive_body : Header → Received Text → Received (Header × Text)
receive_body h (received message arrivals) = received (h, message) arrivals
receive_body h failed = failed
receive_body h overrun = overrun
receive_body h blocked = blocked

-- From the load of the header on.
unfoldable pub receive_loaded : Option Header → List Arrival → Received (Header × Text)
unfolding receive_bytes receive_body
receive_loaded none arrivals = failed
receive_loaded (some h) arrivals = receive_body h (receive_bytes h.msg_size [] arrivals)

unfoldable pub receive_after_header : Received Text → Received (Header × Text)
unfolding load_from_buffer receive_loaded
receive_after_header (received buffer arrivals) = receive_loaded (load_from_buffer buffer) arrivals
receive_after_header failed = failed
receive_after_header overrun = overrun
receive_after_header blocked = blocked

unfoldable pub receive_msg : List Arrival → Received (Header × Text)
unfolding receive_bytes receive_after_header
receive_msg arrivals = receive_after_header (receive_bytes header_size [] arrivals)

-- The loop of `sendMessage`: what is left to send, and how much each `send` takes, at most what it
-- is given; `none` where it fails. The bytes that went out, and what is returned.
unfoldable pub send_loop : Text → List (Option ℕ) → Text × Option Bool
send_loop [] sends = ([], some true)
send_loop (b ∷ bs) [] = ([], none)
send_loop (b ∷ bs) (none ∷ sends) = ([], some false)
send_loop (b ∷ bs) (some zero ∷ sends) = ([], some false)
send_loop (b ∷ bs) (some (suc k) ∷ sends) =
    let rest = send_loop (drop k bs) sends in (b ∷ take k bs ++ rest.0, rest.1)

unfoldable pub send_message : Text → ℤ → List (Option ℕ) → Text × Option Bool
unfolding sealed_message send_loop
send_message message session_id sends = send_loop (sealed_message message session_id) sends
