-- ===== src/Client/Bounds.antt =====
-- The buffers of `thread_front_end` in mainClient.cpp: which input fits into them.
use file_syncer.Prelude.{
  Bool, true, false, ltb, ℕ, zero, suc, ◌<◌, ◌≤◌, ◌≡◌, refl, Option, none, some, [], ◌∷◌, length,
  arith,
}
use file_syncer.Prelude.Text.{Text}
use file_syncer.ServerState.Startup.{from_space, after_first_word, until_space, first_word}
use file_syncer.Client.Terminal.{
  Command, Buffers, scan, terminal_interaction, get_line, c_string, scan_command, front_end_turn,
}

-- The strings in the buffers, each with its zero byte, fit into 64, 50 and 150 bytes.
pub record Fits (b : Buffers) : Type 0 where
  pub buffer : length b.buffer < 64
  pub command : length b.command < 50
  pub file_path : length b.file_path < 150

length-get_line : (n : ℕ) (input : Text) → length (get_line n input) ≤ n
unfolding get_line
length-get_line n [] = omega arith
length-get_line zero (b ∷ input) = omega arith
length-get_line (suc n) (b ∷ input) = ground (arith, length-get_line n input)

length-until_space : (s : Text) → length (until_space s) ≤ length s
unfolding until_space
length-until_space [] = omega arith
length-until_space (b ∷ s) = ground (arith, length-until_space s)

length-first_word : (s : Text) → length (first_word s) ≤ length s
unfolding first_word until_space
length-first_word [] = omega arith
length-first_word (b ∷ s) = ground (arith, length-first_word s, length-until_space s)

length-from_space : (s : Text) → length (from_space s) ≤ length s
unfolding from_space
length-from_space [] = omega arith
length-from_space (b ∷ s) = ground (arith, length-from_space s)

length-after_first_word : (s : Text) → length (after_first_word s) ≤ length s
unfolding after_first_word from_space
length-after_first_word [] = omega arith
length-after_first_word (b ∷ s) = ground (arith, length-after_first_word s, length-from_space s)

-- The buffer that a turn scans.
abbrev pub scanned : Option Text → Buffers → Text
scanned none b = b.buffer
scanned (some input) b = get_line 63 input

length-c_string : (s : Text) → length (c_string s) ≤ length s
unfolding c_string
length-c_string [] = omega arith
length-c_string (b ∷ s) = ground (arith, length-c_string s)

-- What a turn leaves where nothing is written behind a buffer.
pub record Turned (b : Buffers) (turn : Option (Command × Buffers)) : Type 0 where
  pub command : Command
  pub buffers : Buffers
  pub turned : turn ≡ some (command, buffers)
  pub fits : Fits buffers

length-scanned :
    (input : Option Text) (b : Buffers) → length b.buffer < 64 → length (scanned input b) < 64
length-scanned none b h = h
length-scanned (some input) b h = ground (arith, length-get_line 63 input)

length-scan :
    (n : ℕ) (word old : Text) → length word < n → length old < n → length (scan word old) < n
length-scan n [] old h k = k
length-scan n (b ∷ word) old h k = h

front_end_turn-scanned :
    (input : Option Text) (b : Buffers)
    → front_end_turn input b ≡ elim (scan_command (scanned input b) b) [
      | none ↦ none
      | some b' ↦ some (terminal_interaction b'.command b'.file_path, b')
    ]
unfolding front_end_turn
front_end_turn-scanned none b = refl
front_end_turn-scanned (some input) b = refl

scan_command-first_word :
    (buffer : Text) (b : Buffers)
    → length buffer < 64
    → length (first_word (c_string buffer)) < 50
    → scan_command buffer b
      ≡ some (record {
        buffer = buffer;
        command = scan (first_word (c_string buffer)) b.command;
        file_path = scan (first_word (after_first_word (c_string buffer))) b.file_path;
      })
unfolding scan_command
scan_command-first_word buffer b k l = ground (
  arith,
  length-c_string buffer,
  length-first_word (after_first_word (c_string buffer)),
  length-after_first_word (c_string buffer),
)

front_end_turn-Turned :
    (input : Option Text) (b : Buffers)
    → Fits b
    → length (first_word (c_string (scanned input b))) < 50
    → Turned b (front_end_turn input b)
front_end_turn-Turned input b h l =
    let line = c_string (scanned input b) in
    let short = length-scanned input b h.buffer in
    let path = first_word (after_first_word line) in
    let within : length path < 150 = ground (
      arith,
      length-c_string (scanned input b),
      length-first_word (after_first_word line),
      length-after_first_word line,
    ) in
    record {
      command = terminal_interaction (scan (first_word line) b.command) (scan path b.file_path);
      buffers = record {
        buffer = scanned input b;
        command = scan (first_word line) b.command;
        file_path = scan path b.file_path;
      };
      turned =
          rw (front_end_turn-scanned input b, scan_command-first_word (scanned input b) b short l)
            refl;
      fits = record {
        buffer = short;
        command = length-scan 50 (first_word line) b.command l h.command;
        file_path = length-scan 150 path b.file_path within h.file_path;
      };
    }

front_end_turn-overflow :
    (input : Option Text) (b : Buffers)
    → 50 ≤ length (first_word (c_string (scanned input b)))
    → front_end_turn input b ≡ none
unfolding scan_command
front_end_turn-overflow input b h = rw (front_end_turn-scanned input b) (ground arith)

-- What a turn comes to, by whether the first word of its line has less than 50 bytes: a command, with
-- the buffers in bounds, or a write behind a buffer.
abbrev pub TurnEnds : Bool → Buffers → Option (Command × Buffers) → Type 0
TurnEnds true b turn = Turned b turn
TurnEnds false b turn = turn ≡ none

-- From buffers that are in bounds, and whatever is typed, a turn of the front end comes to a command and
-- leaves its three buffers in bounds where the first word of its line, which ends at a zero byte, has
-- less than 50 bytes, and else writes behind one of them. The file's name never is too long.
pub front_end_turn-TurnEnds :
    (input : Option Text) (b : Buffers)
    → Fits b
    → TurnEnds
        (ltb (length (first_word (c_string (scanned input b)))) 50)
        b
        (front_end_turn input b)
front_end_turn-TurnEnds input b h =
    go (ltb (length (first_word (c_string (scanned input b)))) 50) refl
  where
    go :
        (short : Bool)
        → ltb (length (first_word (c_string (scanned input b)))) 50 ≡ short
        → TurnEnds short b (front_end_turn input b)
    go true e = front_end_turn-Turned input b h (ground arith)
    go false e = front_end_turn-overflow input b (ground arith)
