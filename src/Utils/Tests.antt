-- ===== src/Utils/Tests.antt =====
-- The digest and the numbers of the tid file on small inputs.
use file_syncer.Prelude.{ℕ, ◌≤◌, ◌≡◌, ◌≢◌, ◌<◌, ◌+◌, ◌*◌, some, ◌++◌, arith, length, replicate, All}
use file_syncer.Prelude.Int.{pos, negsuc}
use file_syncer.Prelude.Text.{bytes}
use file_syncer.Utils.{get_file_digest, digest_to_string, le_bytes, chunk_size}
use file_syncer.Utils.Digest.{digest-append_zeros}
use file_syncer.Utils.Decimal.{show_int, read_int}
use file_syncer.Utils.Numbers.{read_int-show_int}
use file_syncer.Utils.Hex.{digest_to_string_collides}

digest-append_zeros_example :
    get_file_digest length (some (bytes "ab" ++ replicate 3 0))
    ≡ get_file_digest length (some (bytes "ab"))
unfolding chunk_size
digest-append_zeros_example = digest-append_zeros length 3 b'a' (bytes "b") (omega arith)

-- 0x2301 and 0x0312.
digest_to_string_collides_example :
    (digest_to_string (1 + 256 * (16 * 2 + 3) + 65536 * 0)
      ≡ digest_to_string (16 * 1 + 2 + 256 * 3 + 65536 * 0))
    × (1 + 256 * (16 * 2 + 3) + 65536 * 0 ≢ 16 * 1 + 2 + 256 * 3 + 65536 * 0)
digest_to_string_collides_example =
    digest_to_string_collides 1 2 3 0 (omega arith) (omega arith) (omega arith) (omega arith)
      (omega arith)

-- 0x1111111111111111
abbrev ones : ℕ
ones = 1229782938247303441

ones-TwoDigits : All (λ b. (16 ≤ b) × (b < 256)) (le_bytes 8 ones)
unfolding le_bytes
ones-TwoDigits = (ten, (ten, (ten, (ten, (ten, (ten, (ten, (ten, tt))))))))
  where
    ten : (16 ≤ 17) × (17 < 256)
    ten = (omega arith, omega arith)

read_int-show_int_example : read_int (pos 0) (show_int (negsuc 41)) ≡ negsuc 41
read_int-show_int_example = read_int-show_int (pos 0) (negsuc 41) (omega arith)
