-- ===== src/Link/Tests.antt =====
-- Small messages over the link.
use file_syncer.Prelude.{◌≡◌, [], ◌∷◌, arith}
use file_syncer.Prelude.Int.{negsuc}
use file_syncer.Prelude.Text.{bytes}
use file_syncer.Link.{Header, chunk, overrun, receive_bytes}
use file_syncer.Link.Codec.{receive_bytes-overrun}

-- Session -1.
abbrev header : Header
header = record { msg_size = 300; session_id = negsuc 0 }

-- Two bytes of four, and then three.
receive_bytes-overrun_example :
    receive_bytes 4 [] (chunk (bytes "ab") ∷ chunk (bytes "cde") ∷ []) ≡ overrun
receive_bytes-overrun_example =
    receive_bytes-overrun 4 (bytes "ab") (bytes "cde") [] (omega arith) (omega arith) (omega arith)
