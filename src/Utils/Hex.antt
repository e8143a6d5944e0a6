-- ===== src/Utils/Hex.antt =====
-- The printed digest drops the leading zero of each byte.
use file_syncer.Prelude.{
  ℕ, zero, suc, ◌+◌, ◌*◌, ◌/◌, ◌%◌, ◌≤◌, ◌<◌, ◌≡◌, ◌≢◌, refl, [], ◌∷◌, arith, ap, sym, ◌∙◌, All,
  ◌^◌,
}
use native.Mathlib.Nat.{pow-suc}
use file_syncer.Prelude.Text.{Text}
use file_syncer.Utils.{le_bytes, of_le_bytes, hex_digit, hex_bytes, digest_to_string}

-- Digits of one byte are told apart.
hex_digit-inj : (a b : ℕ) → a < 16 → b < 16 → hex_digit a ≡ hex_digit b → a ≡ b
unfolding hex_digit
hex_digit-inj a b p q e = ground arith

abbrev TwoDigits : ℕ → Type 0
TwoDigits b = (16 ≤ b) × (b < 256)

hex_bytes-inj : (s t : Text) → All TwoDigits s → All TwoDigits t → hex_bytes s ≡ hex_bytes t → s ≡ t
unfolding hex_bytes
hex_bytes-inj [] [] hs ht e = refl
hex_bytes-inj [] (b ∷ t) hs ht e = ground arith
hex_bytes-inj (a ∷ s) [] hs ht e = ground arith
hex_bytes-inj (a ∷ s) (b ∷ t) hs ht e = ground (arith, hex_bytes-inj s t)

pub of_le_bytes-le_bytes : (n x : ℕ) → x < 256 ^ n → of_le_bytes (le_bytes n x) ≡ x
unfolding of_le_bytes le_bytes
of_le_bytes-le_bytes zero x h = omega arith
of_le_bytes-le_bytes (suc n) x h =
    omega (arith, of_le_bytes-le_bytes n (x / 256) (omega (arith, pow-suc 256 n)))

-- Two digests whose bytes all have two digits are printed alike only if they are the same.
pub digest_to_string-inj :
    (d e : ℕ)
    → d < 2 ^ 64
    → e < 2 ^ 64
    → All TwoDigits (le_bytes 8 d)
    → All TwoDigits (le_bytes 8 e)
    → digest_to_string d ≡ digest_to_string e
    → d ≡ e
unfolding digest_to_string
digest_to_string-inj d e p q hd he h =
    sym (of_le_bytes-le_bytes 8 d p)
    ∙ ap of_le_bytes (hex_bytes-inj (le_bytes 8 d) (le_bytes 8 e) hd he h)
    ∙ of_le_bytes-le_bytes 8 e q

le_bytes-low :
    (n a b r : ℕ)
    → a < 256
    → b < 256
    → le_bytes (suc (suc n)) (a + 256 * b + 65536 * r) ≡ a ∷ b ∷ le_bytes n r
unfolding le_bytes
le_bytes-low n a b r p q = rw (low, middle, high)
  where
    low : (a + 256 * b + 65536 * r) % 256 ≡ a
    low = omega arith

    middle : (a + 256 * b + 65536 * r) / 256 % 256 ≡ b
    middle = omega arith

    high : (a + 256 * b + 65536 * r) / 256 / 256 ≡ r
    high = omega arith

-- A byte of one digit and a byte of two digits, and the same digits the other way.
hex_bytes-move :
    (a h l : ℕ) (rest : Text)
    → a < 16
    → 0 < a
    → h < 16
    → 0 < h
    → l < 16
    → hex_bytes (a ∷ (16 * h + l) ∷ rest) ≡ hex_bytes ((16 * a + h) ∷ l ∷ rest)
unfolding hex_bytes
hex_bytes-move a h l rest p q s t u = ground (arith, digits_of h l, digits_of a h)
  where
    digits_of : (x y : ℕ) → y < 16 → ((16 * x + y) / 16 ≡ x) × ((16 * x + y) % 16 ≡ y)
    digits_of x y h = omega arith

-- Wherever the lowest byte is below 16 and not 0, and the next byte has two digits, another digest is
-- printed alike: the one with the first digit of the next byte moved over.
pub digest_to_string_collides :
    (a h l r : ℕ)
    → a < 16
    → 0 < a
    → h < 16
    → 0 < h
    → l < 16
    → (digest_to_string (a + 256 * (16 * h + l) + 65536 * r)
        ≡ digest_to_string (16 * a + h + 256 * l + 65536 * r))
      × (a + 256 * (16 * h + l) + 65536 * r ≢ 16 * a + h + 256 * l + 65536 * r)
unfolding digest_to_string
digest_to_string_collides a h l r p q s t u = (
  ap hex_bytes (le_bytes-low 6 a (16 * h + l) r (omega arith) (omega arith))
      ∙ hex_bytes-move a h l (le_bytes 6 r) p q s t u
      ∙ sym (ap hex_bytes (le_bytes-low 6 (16 * a + h) l r (omega arith) (omega arith))),
  omega arith,
)
