-- ===== src/Utils.antt =====
-- src/common/utils.cpp: the digest of a file and its printed form.
pub mod Digest
pub mod Decimal
pub mod Numbers
pub mod Hex
mod Tests
use file_syncer.Prelude.{
  ℕ, zero, suc, ◌+◌, ◌-◌, ◌*◌, ◌/◌, ◌%◌, Option, none, some, List, [], ◌∷◌, ◌++◌, length, take,
  drop, replicate, if◌then◌else◌, ltb,
}
use file_syncer.Prelude.Text.{Text}

-- CHUNK_SIZE
pub chunk_size : ℕ
chunk_size = 1024 * 1024 * 2

-- The loop of `getFileDigest`: what `hashStream.update` is given, all calls together. Each `read`
-- fills the front of the buffer, and `update` is given the whole buffer.
unfoldable pub hash_input : ℕ → ℕ → Text → Text → Text
hash_input zero chunk buffer content = []
hash_input (suc fuel) chunk buffer content =
    let read_bytes = take chunk content in
    let buffer' = read_bytes ++ drop (length read_bytes) buffer in
    let rest = hash_input fuel chunk buffer' (drop chunk content) in
    elim read_bytes [ [] ↦ [] | _ ∷ _ ↦ buffer' ++ rest ]

-- A read takes at least one byte, so the length of the content bounds the rounds.
unfoldable pub hashed : ℕ → Text → Text
unfolding hash_input
hashed chunk content = hash_input (suc (length content)) chunk (replicate chunk 0) content

-- The hash of the bytes that were given to `xxh::hash_state_t<64>`, with seed 0.
abbrev pub Xxh64 : Type 0
Xxh64 = Text → ℕ

-- The argument is the content of the file, `none` where it cannot be opened.
unfoldable pub get_file_digest : Xxh64 → Option Text → ℕ
get_file_digest xxh none = 0
get_file_digest xxh (some content) = xxh (hashed chunk_size content)

-- The bytes of a number, the lowest first.
unfoldable pub le_bytes : ℕ → ℕ → Text
le_bytes zero x = []
le_bytes (suc n) x = (x % 256) ∷ le_bytes n (x / 256)

-- The number of some bytes.
unfoldable pub of_le_bytes : Text → ℕ
of_le_bytes [] = 0
of_le_bytes (b ∷ bs) = b + 256 * of_le_bytes bs

unfoldable pub hex_digit : ℕ → ℕ
hex_digit n = if ltb n 10 then n + 48 else n + 87

-- `s << std::hex << (int) byte`: no leading zero.
unfoldable pub hex_byte : ℕ → Text
unfolding hex_digit
hex_byte b = if ltb b 16 then hex_digit b ∷ [] else hex_digit (b / 16) ∷ hex_digit (b % 16) ∷ []

unfoldable pub hex_bytes : Text → Text
unfolding hex_byte
hex_bytes [] = []
hex_bytes (b ∷ bs) = hex_byte b ++ hex_bytes bs

unfoldable pub digest_to_string : ℕ → Text
unfolding le_bytes hex_bytes
digest_to_string md = hex_bytes (le_bytes 8 md)
