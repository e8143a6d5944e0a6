-- ===== src/Utils/Numbers.antt =====
-- `>>` of the numbers that `<<` prints, for the tid file and the configuration.
use file_syncer.Prelude.{
  ℕ, zero, suc, ◌+◌, ◌/◌, ◌%◌, ◌^◌, ◌<◌, ◌≡◌, refl, sym, ap, ◌∙◌, Bool, true, false, [], ◌∷◌, ◌++◌,
  ltb, arith, Bool-cases, inl, inr,
}
use mathlib.Core.List.{append-nil}
use file_syncer.Prelude.Int.{ℤ, pos, negsuc}
use file_syncer.Prelude.Text.{Text}
use file_syncer.Utils.Decimal.{
  is_digit, is_space, show_digits, show_nat, show_int, good, take_digits, extract_digits,
  extract_int, starts_with_digit, read_int,
}

-- The range of `int`.
abbrev pub InRange : ℤ → Type 0
InRange (pos n) = n < 2 ^ 31
InRange (negsuc n) = n < 2 ^ 31

-- A byte that ends a number.
abbrev pub ends_number : Text → Bool
ends_number [] = true
ends_number (b ∷ s) = is_space b

show_digits-append :
    (fuel n : ℕ) (out t : Text) → show_digits fuel n out ++ t ≡ show_digits fuel n (out ++ t)
unfolding show_digits
show_digits-append zero n out t = refl
show_digits-append (suc fuel) n out t =
    ground (arith, show_digits-append fuel (n / 10) ((48 + n % 10) ∷ out) t)

take_digits-show_digits :
    (fuel n acc : ℕ) (out : Text)
    → n < fuel
    → acc ≡ 0
    → take_digits acc (show_digits fuel n out) ≡ take_digits n out
unfolding show_digits take_digits is_digit
take_digits-show_digits zero n acc out h e = absurd (omega arith)
take_digits-show_digits (suc fuel) n acc out h e =
    ground (arith, take_digits-show_digits fuel (n / 10) acc ((48 + n % 10) ∷ out))

take_digits-ends : (n : ℕ) (t : Text) → ends_number t ≡ true → take_digits n t ≡ (n, t)
unfolding take_digits is_digit is_space
take_digits-ends n [] h = refl
take_digits-ends n (b ∷ t) h = ground arith

take_digits-show_nat :
    (n : ℕ) (t : Text) → ends_number t ≡ true → take_digits 0 (show_nat n ++ t) ≡ (n, t)
unfolding show_nat
take_digits-show_nat n t h =
    ap (take_digits 0) (show_digits-append (suc n) n [] t)
    ∙ take_digits-show_digits (suc n) n 0 t (omega arith) refl
    ∙ take_digits-ends n t h

-- A text that begins with a digit, whatever follows it.
abbrev Digits : Text → Type 0
Digits s = (d : ℕ) × (r : Text) × (s ≡ d ∷ r) × (is_digit d ≡ true)

show_digits-Digits : (fuel n : ℕ) (out : Text) → n < fuel → Digits (show_digits fuel n out)
unfolding show_digits is_digit
show_digits-Digits zero n out h = absurd (omega arith)
show_digits-Digits (suc fuel) n out h = elim (Bool-cases (ltb n 10)) [
  | inl last ↦ rw last (48 + n % 10, out, refl, ground arith)
  | inr more ↦ rw more (show_digits-Digits fuel (n / 10) ((48 + n % 10) ∷ out) (ground arith))
]

show_nat-Digits : (n : ℕ) → Digits (show_nat n)
unfolding show_nat
show_nat-Digits n = show_digits-Digits (suc n) n [] (omega arith)

extract_int-digit :
    (d : ℕ) (s : Text) → is_digit d ≡ true → extract_int (d ∷ s) ≡ extract_digits false (d ∷ s)
unfolding extract_int is_space is_digit
extract_int-digit d s h = ground arith

extract_digits-unsigned :
    (s t : Text) (n : ℕ)
    → starts_with_digit s ≡ true
    → take_digits 0 s ≡ (n, t)
    → n < 2 ^ 31
    → extract_digits false s ≡ good (pos n) t
unfolding extract_digits
extract_digits-unsigned s t n h e k = ground arith

extract_digits-negative :
    (s t : Text) (n : ℕ)
    → starts_with_digit s ≡ true
    → take_digits 0 s ≡ (n + 1, t)
    → n < 2 ^ 31
    → extract_digits true s ≡ good (negsuc n) t
unfolding extract_digits
extract_digits-negative s t n h e k = ground arith

extract_int-minus : (s : Text) → extract_int (b'-' ∷ s) ≡ extract_digits true s
unfolding extract_int is_space
extract_int-minus s = refl

-- A number in range that is printed is extracted, up to the space or the end after it.
pub extract_int-show_int :
    (i : ℤ) (t : Text) → InRange i → ends_number t ≡ true → extract_int (show_int i ++ t) ≡ good i t
unfolding show_int is_digit
extract_int-show_int (pos n) t k h =
    let (d, r, e, p) = show_nat-Digits n in
    let taken : take_digits 0 (d ∷ (r ++ t)) ≡ (n, t) =
      ap (λ (s : Text). take_digits 0 (s ++ t)) (sym e) ∙ take_digits-show_nat n t h in
    ap (λ (s : Text). extract_int (s ++ t)) e
    ∙ extract_int-digit d (r ++ t) p
    ∙ extract_digits-unsigned (d ∷ (r ++ t)) t n p taken k
extract_int-show_int (negsuc n) t k h =
    let (d, r, e, p) = show_nat-Digits (n + 1) in
    let taken : take_digits 0 (show_nat (n + 1) ++ t) ≡ (n + 1, t) =
      take_digits-show_nat (n + 1) t h in
    let digit : starts_with_digit (show_nat (n + 1) ++ t) ≡ true =
      ap (λ (s : Text). starts_with_digit (s ++ t)) e ∙ p in
    extract_int-minus (show_nat (n + 1) ++ t)
    ∙ extract_digits-negative (show_nat (n + 1) ++ t) t n digit taken k

-- An `int` that is printed to a file is read back from it as it was, negative or not, whatever the
-- variable had before.
pub read_int-show_int : (old i : ℤ) → InRange i → read_int old (show_int i) ≡ i
unfolding read_int
read_int-show_int old i k =
    ap (λ s. read_int old s) (sym (append-nil (show_int i)))
    ∙ rw (read_int, extract_int-show_int i [] k refl) refl
