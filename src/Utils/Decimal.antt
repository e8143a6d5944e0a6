-- ===== src/Utils/Decimal.antt =====
-- `operator<<` and `operator>>` of an `int`, as the tid file, the configuration and the client use them.
use file_syncer.Prelude.{
  ℕ, zero, suc, ◌+◌, ◌-◌, ◌*◌, ◌/◌, ◌%◌, ◌^◌, ◌≡◌, Bool, true, false, ◌&&◌, [], ◌∷◌, arith,
  if◌then◌else◌, ltb, leb, ◌==◌,
}
use file_syncer.Prelude.Int.{ℤ, pos, negsuc}
use file_syncer.Prelude.Text.{Text}

unfoldable pub show_digits : ℕ → ℕ → Text → Text
show_digits zero n out = out
show_digits (suc fuel) n out =
    let out' = (48 + n % 10) ∷ out in
    let rest = show_digits fuel (n / 10) out' in if ltb n 10 then out' else rest

unfoldable pub show_nat : ℕ → Text
unfolding show_digits
show_nat n = show_digits (suc n) n []

unfoldable pub show_int : ℤ → Text
unfolding show_nat
show_int (pos n) = show_nat n
show_int (negsuc n) = b'-' ∷ show_nat (n + 1)

unfoldable pub is_digit : ℕ → Bool
is_digit c = leb 48 c && leb c 57

-- The white space of `>>`.
unfoldable pub is_space : ℕ → Bool
is_space c =
    if c == 32
    then true
    else if c == 9
    then true
    else if c == 10
    then true
    else if c == 11
    then true
    else if c == 12
    then true
    else c == 13

-- `>>` of an `int`: a number in range, with what follows it; a failure that sets the variable; or a
-- failure that leaves it alone, since nothing was left.
pub data Extracted : Type 0 where
  good : ℤ → Text → Extracted
  bad : ℤ → Extracted
  nothing : Extracted

unfoldable pub take_digits : ℕ → Text → ℕ × Text
unfolding is_digit
take_digits acc [] = (acc, [])
take_digits acc (b ∷ s) =
    let rest = take_digits (acc * 10 + (b - 48)) s in if is_digit b then rest else (acc, b ∷ s)

abbrev pub starts_with_digit : Text → Bool
starts_with_digit [] = false
starts_with_digit (b ∷ s) = is_digit b

unfoldable pub extract_digits : Bool → Text → Extracted
unfolding take_digits is_digit
extract_digits negative s =
    let number = take_digits 0 s in
    if starts_with_digit s
    then (if negative
        then (if leb number.0 (2 ^ 31)
            then good (if number.0 == 0 then pos 0 else negsuc (number.0 - 1)) number.1
            else bad (negsuc (2 ^ 31 - 1)))
        else if ltb number.0 (2 ^ 31)
        then good (pos number.0) number.1
        else bad (pos (2 ^ 31 - 1)))
    else bad (pos 0)

unfoldable pub extract_int : Text → Extracted
unfolding extract_digits is_space
extract_int [] = nothing
extract_int (b ∷ s) =
    let rest = extract_int s in
    if is_space b
    then rest
    else if b == b'-'
    then extract_digits true s
    else if b == b'+'
    then extract_digits false s
    else extract_digits false (b ∷ s)

-- A variable after `>>`, from its value before. A text in which nothing is left leaves it alone; one
-- without a number sets it to 0, and one out of range to the nearest `int`.
unfoldable pub read_int : ℤ → Text → ℤ
unfolding extract_int
read_int old s = elim (extract_int s) [ good i rest ↦ i | bad i ↦ i | nothing ↦ old ]

-- The same text read again leaves the variable as it is.
pub read_int_twice : (old : ℤ) (s : Text) → read_int (read_int old s) s ≡ read_int old s
unfolding read_int
read_int_twice old s = ground arith
