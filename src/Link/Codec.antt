-- ===== src/Link/Codec.antt =====
-- The header's bytes are read back, and a message in pieces is received whole.
use file_syncer.Prelude.{
  ℕ, zero, suc, ◌+◌, ◌/◌, ◌^◌, ◌≤◌, ◌<◌, ◌≡◌, refl, sym, ap, ◌∙◌, true, Option, none, some, List,
  [], ◌∷◌, ◌++◌, length, take, drop, arith, length-append, take_all, drop_all, take-append-drop,
  length-take, append_assoc, append-nil, All,
}
use file_syncer.Prelude.Int.{ℤ, pos, negsuc, to_int, to_word, of_word}
use file_syncer.Prelude.Text.{Text, text_eq}
use file_syncer.Utils.{le_bytes, of_le_bytes}
use file_syncer.Utils.Hex.{of_le_bytes-le_bytes}
use file_syncer.Link.{
  Header, Arrival, received, overrun, chunk, header_size, receive_bytes, receive_body,
  receive_loaded, receive_after_header, receive_msg, send_loop, write_into_buffer, load_from_buffer,
  sealed_message,
}

-- A `long`.
abbrev pub IsLong : ℤ → Type 0
IsLong (pos n) = n < 2 ^ 63
IsLong (negsuc n) = n < 2 ^ 63

of_word-to_word : (i : ℤ) → IsLong i → of_word 64 (to_word 64 i) ≡ i
of_word-to_word (pos n) h = ground arith
of_word-to_word (negsuc n) h = ground arith

to_word-bound : (i : ℤ) → to_word 64 i < 2 ^ 64
to_word-bound (pos n) = omega arith
to_word-bound (negsuc n) = omega arith

length-le_bytes : (n x : ℕ) → length (le_bytes n x) ≡ n
unfolding le_bytes
length-le_bytes zero x = refl
length-le_bytes (suc n) x = ap suc (length-le_bytes n (x / 256))

-- Where the size and the session id fit in 64 bits, a header is read back from its bytes, whatever
-- follows them.
pub load_from_buffer-write_into_buffer :
    (h : Header) (rest : Text)
    → h.msg_size < 2 ^ 64
    → IsLong h.session_id
    → load_from_buffer (write_into_buffer h ++ rest) ≡ some h
unfolding load_from_buffer write_into_buffer le_bytes text_eq of_le_bytes
load_from_buffer-write_into_buffer h rest p q =
    ap
      (λ (n : ℕ). some (record {
        msg_size = n;
        session_id = of_word 64 (of_le_bytes (le_bytes 8 (to_word 64 h.session_id)));
      }))
      (of_le_bytes-le_bytes 8 h.msg_size p)
    ∙ ap (λ (i : ℤ). some (record { msg_size = h.msg_size; session_id = i }))
        (ap (of_word 64)
            (of_le_bytes-le_bytes 8 (to_word 64 h.session_id) (to_word-bound h.session_id))
          ∙ of_word-to_word h.session_id q)

-- The bytes of the pieces.
abbrev pub joined : List Text → Text
joined [] = []
joined (p ∷ ps) = p ++ joined ps

-- The pieces as they come in, and then the rest.
abbrev pub arriving : List Text → List Arrival → List Arrival
arriving [] later = later
arriving (p ∷ ps) later = chunk p ∷ arriving ps later

abbrev pub NonEmpty : Text → Type 0
NonEmpty s = 0 < length s

receive_bytes-full :
    (n : ℕ) (got : Text) (later : List Arrival)
    → n ≤ length got
    → receive_bytes n got later ≡ received got later
unfolding receive_bytes
receive_bytes-full n got [] h = ground arith
receive_bytes-full n got (a ∷ later) h = ground arith

receive_bytes-piece :
    (n b : ℕ) (bs got : Text) (later : List Arrival)
    → length got + length (b ∷ bs) ≤ n
    → receive_bytes n got (chunk (b ∷ bs) ∷ later) ≡ receive_bytes n (got ++ b ∷ bs) later
unfolding receive_bytes
receive_bytes-piece n b bs got later h =
    ground (arith, take_all n (b ∷ bs) (omega arith), drop_all n (b ∷ bs) (omega arith))

receive_bytes-behind :
    (n b : ℕ) (bs got : Text) (later : List Arrival)
    → 0 < length got
    → length got < n
    → n < length got + length (b ∷ bs)
    → receive_bytes n got (chunk (b ∷ bs) ∷ later) ≡ overrun
unfolding receive_bytes
receive_bytes-behind n b bs got later p q h = ground (arith, length-take {0} n (b ∷ bs))

receive_bytes-arriving :
    (ps : List Text) (n : ℕ) (got : Text) (later : List Arrival)
    → All NonEmpty ps
    → length got + length (joined ps) ≡ n
    → receive_bytes n got (arriving ps later) ≡ received (got ++ joined ps) later
receive_bytes-arriving [] n got later h e =
    receive_bytes-full n got later (omega arith)
    ∙ ap (λ (s : Text). received s later) (sym (append-nil got))
receive_bytes-arriving ([] ∷ ps) n got later h e = absurd (omega (arith, h.0))
receive_bytes-arriving ((b ∷ bs) ∷ ps) n got later h e =
    receive_bytes-piece n b bs got (arriving ps later)
      (omega (arith, length-append {0} (b ∷ bs) (joined ps)))
    ∙ receive_bytes-arriving ps n (got ++ b ∷ bs) later h.1
        (omega (arith, length-append {0} (b ∷ bs) (joined ps), length-append {0} got (b ∷ bs)))
    ∙ ap (λ (s : Text). received s later) (append_assoc got (b ∷ bs) (joined ps))

length-write_into_buffer : (h : Header) → length (write_into_buffer h) ≡ header_size
unfolding write_into_buffer le_bytes
length-write_into_buffer h = refl

split-append : (xs ys a b : Text) → length xs ≡ length ys → xs ++ a ≡ ys ++ b → (xs ≡ ys) × (a ≡ b)
split-append [] [] a b l e = (refl, e)
split-append [] (y ∷ ys) a b l e = absurd (omega arith)
split-append (x ∷ xs) [] a b l e = absurd (omega arith)
split-append (x ∷ xs) (y ∷ ys) a b l e = ground (arith, split-append xs ys a b)

-- The header of a message, as `sealed_message` makes it and as it is read.
abbrev sealed_header : Text → ℤ → Header
sealed_header message session_id = record {
  msg_size = to_word 64 (to_int (pos (length message)));
  session_id = session_id;
}

size-sealed_header : (n : ℕ) → n < 2 ^ 31 → to_word 64 (to_int (pos n)) ≡ n
size-sealed_header n h = ground arith

receive_after_header-write_into_buffer :
    (message : Text) (h : Header) (ms : List Text) (later : List Arrival)
    → h.msg_size ≡ length message
    → length message < 2 ^ 31
    → IsLong h.session_id
    → All NonEmpty ms
    → joined ms ≡ message
    → receive_after_header (received (write_into_buffer h) (arriving ms later))
      ≡ received (h, message) later
unfolding receive_after_header receive_loaded receive_body
receive_after_header-write_into_buffer message h ms later s p q km e =
    ap (λ (o : Option Header). receive_loaded o (arriving ms later)) loaded
    ∙ ap (receive_body h)
        (receive_bytes-arriving ms h.msg_size [] later km (omega (arith, ap (length {0}) e, s)))
    ∙ ap (λ (m : Text). received (h, m) later) e
  where
    loaded : load_from_buffer (write_into_buffer h) ≡ some h
    loaded =
        ap load_from_buffer (sym (append-nil (write_into_buffer h)))
        ∙ load_from_buffer-write_into_buffer h [] (omega arith) q

-- A message of less than 2 ^ 31 bytes that is sealed with a session id, and comes in in pieces
-- that are not empty, one of which begins where the header ends, is received with its size and its
-- session id, and no byte after it is read.
pub receive_msg-sealed_message :
    (message : Text) (session_id : ℤ) (hs ms : List Text) (later : List Arrival)
    → length message < 2 ^ 31
    → IsLong session_id
    → All NonEmpty hs
    → All NonEmpty ms
    → joined hs ++ joined ms ≡ sealed_message message session_id
    → length (joined hs) ≡ header_size
    → receive_msg (arriving hs (arriving ms later))
      ≡ received (record { msg_size = length message; session_id = session_id }, message) later
unfolding receive_msg sealed_message
receive_msg-sealed_message message session_id hs ms later p q kh km e k =
    ap receive_after_header (
      receive_bytes-arriving hs header_size [] (arriving ms later) kh (omega (arith, k))
      ∙ ap (λ (s : Text). received s (arriving ms later)) parts.0)
    ∙ receive_after_header-write_into_buffer message (sealed_header message session_id) ms later
        size p q km parts.1
    ∙ ap (λ (n : ℕ). received (record { msg_size = n; session_id = session_id }, message) later)
        size
  where
    size : to_word 64 (to_int (pos (length message))) ≡ length message
    size = size-sealed_header (length message) p

    parts :
        (joined hs ≡ write_into_buffer (sealed_header message session_id)) × (joined ms ≡ message)
    parts =
        split-append (joined hs) (write_into_buffer (sealed_header message session_id)) (joined ms)
          message (k ∙ sym (length-write_into_buffer (sealed_header message session_id))) e

-- `receiveBytes` asks every time for the whole number of bytes: where a part of a message is
-- followed by a piece that reaches past its end, the `recv` writes behind the buffer.
pub receive_bytes-overrun :
    (n : ℕ) (a b : Text) (later : List Arrival)
    → 0 < length a
    → length a < n
    → n < length a + length b
    → receive_bytes n [] (chunk a ∷ chunk b ∷ later) ≡ overrun
receive_bytes-overrun n [] b later p q h = absurd (omega arith)
receive_bytes-overrun n (x ∷ a) [] later p q h = absurd (omega arith)
receive_bytes-overrun n (x ∷ a) (y ∷ b) later p q h =
    receive_bytes-piece n x a [] (chunk (y ∷ b) ∷ later) (omega arith)
    ∙ receive_bytes-behind n y b (x ∷ a) later p q h

-- A message that is reported as sent has gone out whole, byte for byte.
pub send_loop-sent :
    (buffer : Text) (sends : List (Option ℕ))
    → (send_loop buffer sends).1 ≡ some true
    → (send_loop buffer sends).0 ≡ buffer
unfolding send_loop
send_loop-sent [] sends h = refl
send_loop-sent (b ∷ bs) [] h = ground arith
send_loop-sent (b ∷ bs) (none ∷ sends) h = ground arith
send_loop-sent (b ∷ bs) (some zero ∷ sends) h = ground arith
send_loop-sent (b ∷ bs) (some (suc k) ∷ sends) h =
    ap (λ (s : Text). b ∷ take k bs ++ s) (send_loop-sent (drop k bs) sends h)
    ∙ ap (◌∷◌ b) (take-append-drop k bs)
