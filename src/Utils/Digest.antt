-- ===== src/Utils/Digest.antt =====
-- When two contents, or two digests, are told apart.
use file_syncer.Prelude.{
  ℕ, zero, suc, ◌+◌, ◌-◌, ◌≤◌, ◌<◌, ◌≡◌, ◌⊎◌, inl, inr, refl, sym, ◌∙◌, some, [], ◌∷◌, ◌++◌, arith,
  ap, length, take, drop, replicate, length-append, take_all, drop_all, length-drop, length-take,
  take-append, take-append-drop, append_assoc, append-nil,
}
use file_syncer.Prelude.Text.{Text}
use file_syncer.Utils.{hash_input, hashed, chunk_size, Xxh64, get_file_digest}

abbrev zeros : ℕ → Text
zeros n = replicate n 0

zeros_congr : {m n : ℕ} → m ≡ n → zeros m ≡ zeros n
zeros_congr e = ap zeros e

drop-zeros : (k n : ℕ) → drop k (zeros n) ≡ zeros (n - k)
drop-zeros zero n = zeros_congr {m = n} {n = n - 0} (omega arith)
drop-zeros (suc k) zero = zeros_congr {m = 0} {n = 0 - suc k} (omega arith)
drop-zeros (suc k) (suc n) =
    drop-zeros k n ∙ zeros_congr {m = n - k} {n = suc n - suc k} (omega arith)

zeros-append : (m n : ℕ) → zeros m ++ zeros n ≡ zeros (m + n)
zeros-append zero n = zeros_congr {m = n} {n = 0 + n} (omega arith)
zeros-append (suc m) n =
    ap (◌∷◌ 0) (zeros-append m n) ∙ zeros_congr {m = suc (m + n)} {n = suc m + n} (omega arith)

length-zeros : (n : ℕ) → length (zeros n) ≡ n
length-zeros zero = refl
length-zeros (suc n) = ap suc (length-zeros n)

hash_input-nil : (fuel chunk : ℕ) (buffer : Text) → hash_input fuel chunk buffer [] ≡ []
unfolding hash_input
hash_input-nil zero chunk buffer = refl
hash_input-nil (suc fuel) zero buffer = refl
hash_input-nil (suc fuel) (suc chunk) buffer = refl

-- One round of the loop, where `read` gives something.
hash_input_step :
    (fuel chunk c : ℕ) (r buffer content : Text)
    → take chunk content ≡ c ∷ r
    → hash_input (suc fuel) chunk buffer content
      ≡ ((c ∷ r) ++ drop (length (c ∷ r)) buffer)
        ++ hash_input fuel chunk ((c ∷ r) ++ drop (length (c ∷ r)) buffer) (drop chunk content)
unfolding hash_input
hash_input_step fuel chunk c r buffer content e = rw (e, hash_input) (rw e)

-- A file that fits in one read is hashed with the zeros of the buffer behind it.
pub hashed_short :
    (chunk c : ℕ) (s : Text)
    → length (c ∷ s) ≤ chunk
    → hashed chunk (c ∷ s) ≡ (c ∷ s) ++ zeros (chunk - length (c ∷ s))
unfolding hashed
hashed_short chunk c s h =
    hash_input_step (length (c ∷ s)) chunk c s (zeros chunk) (c ∷ s) (take_all chunk (c ∷ s) h)
    ∙ rw (drop_all chunk (c ∷ s) h) (simp (hash_input-nil, drop-zeros, append-nil))

-- Bytes of value zero at the end of a file that fits in one read do not change what is hashed.
hashed-append_zeros :
    (chunk k c : ℕ) (s : Text)
    → length (c ∷ s) + k ≤ chunk
    → hashed chunk ((c ∷ s) ++ zeros k) ≡ hashed chunk (c ∷ s)
hashed-append_zeros chunk k c s h =
    hashed_short chunk c (s ++ zeros k)
      (omega (arith, length-append {0} s (zeros k), length-zeros k))
    ∙ append_assoc (c ∷ s) (zeros k) _
    ∙ ap (◌++◌ (c ∷ s)) (zeros-append k _ ∙ zeros_congr padding)
    ∙ sym (hashed_short chunk c s (omega arith))
  where
    padding : k + (chunk - length (c ∷ (s ++ zeros k))) ≡ chunk - length (c ∷ s)
    padding = omega (arith, length-append {0} s (zeros k), length-zeros k)

take-add-append : (r ys : Text) (n : ℕ) → take (length r + n) (r ++ ys) ≡ r ++ take n ys
take-add-append [] ys n = ap (λ (m : ℕ). take m ys) (zero_plus n)
  where
    zero_plus : (n : ℕ) → 0 + n ≡ n
    zero_plus n = omega arith
take-add-append (c ∷ r) ys n = rw (suc_plus (length r) n) (ap (◌∷◌ c) (take-add-append r ys n))
  where
    suc_plus : (m n : ℕ) → suc m + n ≡ suc (m + n)
    suc_plus m n = omega arith

round_whole :
    (k : ℕ) (s d rest : Text) → length s ≤ k → take (length s) ((take k s ++ d) ++ rest) ≡ s
round_whole k s d rest h = rw (take_all k s h, append_assoc s d rest) (take-append s (d ++ rest))

round_part :
    (k : ℕ) (s d rest : Text)
    → k ≤ length s
    → d ≡ []
    → take (length (drop k s)) rest ≡ drop k s
    → take (length s) ((take k s ++ d) ++ rest) ≡ s
round_part k s d rest h e ih =
    rw (e, append-nil (take k s), split)
      (take-add-append (take k s) rest (length (drop k s)) ∙ rw ih (take-append-drop k s))
  where
    split : length s ≡ length (take k s) + length (drop k s)
    split = omega (arith, length-take {0} k s, length-drop {0} k s)

leb-cases : (a b : ℕ) → (a ≤ b) ⊎ (b < a)
leb-cases a b = grind arith

-- The rounds left are enough for the content left, and the buffer keeps its size.
take-hash_input :
    (fuel chunk : ℕ) (buffer content : Text)
    → length content < fuel
    → 0 < chunk
    → length buffer ≡ chunk
    → take (length content) (hash_input fuel chunk buffer content) ≡ content
take-hash_input zero chunk buffer content h p b = absurd (omega arith)
take-hash_input (suc fuel) zero buffer content h p b = absurd (omega arith)
take-hash_input (suc fuel) (suc k) buffer [] h p b = refl
take-hash_input (suc fuel) (suc k) buffer (c ∷ s) h p b =
    rw (hash_input_step fuel (suc k) c (take k s) buffer (c ∷ s) refl) (
      ap (◌∷◌ c) (elim (leb-cases (length s) k) [
        | inl short ↦ round_whole k s _ _ short
        | inr long ↦
            round_part k s _ _ (omega arith)
              (drop_all (suc (length (take k s))) buffer (omega (arith, length-take {0} k s)))
              (take-hash_input fuel (suc k) _ (drop k s) (omega (arith, length-drop {0} k s)) p
                (buffer_kept long))
      ]))
  where
    buffer_kept :
        k < length s → suc (length (take k s ++ drop (suc (length (take k s))) buffer)) ≡ suc k
    buffer_kept long = omega (
      arith,
      length-append {0} (take k s) (drop (suc (length (take k s))) buffer),
      length-drop {0} (suc (length (take k s))) buffer,
      length-take {0} k s,
    )

-- What is hashed of a file begins with the whole file, for every content and every size of chunk
-- but zero: contents of one length are given to the hash as different inputs.
pub take-hashed :
    (chunk : ℕ) (content : Text)
    → 0 < chunk
    → take (length content) (hashed chunk content) ≡ content
unfolding hashed
take-hashed chunk content p =
    take-hash_input (suc (length content)) chunk (zeros chunk) content (omega arith) p
      (length-zeros chunk)

-- A file that is not empty has the digest that it has with any number of zero bytes behind it, as
-- long as both fit in one chunk: `update` is given the whole buffer, whatever `read` returned.
pub digest-append_zeros :
    (xxh : Xxh64) (k c : ℕ) (s : Text)
    → length (c ∷ s) + k ≤ chunk_size
    → get_file_digest xxh (some ((c ∷ s) ++ replicate k 0)) ≡ get_file_digest xxh (some (c ∷ s))
unfolding get_file_digest
digest-append_zeros xxh k c s h = ap xxh (hashed-append_zeros chunk_size k c s h)
