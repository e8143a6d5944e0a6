-- ===== src/Server/ServerLine.antt =====
-- The lines of config.txt for the other servers, as Server.cpp documents and reads them.
use file_syncer.Utils.Decimal.{is_space, good, extract_int}
use file_syncer.Prelude.{
  ℕ, zero, suc, ◌+◌, ◌/◌, ◌%◌, ◌≡◌, refl, ap, ◌∙◌, Bool, true, not, ◌&&◌, Option, none, some, [],
  ◌∷◌, ◌++◌, ◌==◌, arith,
}
use file_syncer.Prelude.Int.{ℤ, pos, negsuc}
use file_syncer.Prelude.Text.{Text}
use file_syncer.Utils.Decimal.{show_digits, show_nat, show_int}
use file_syncer.ServerState.Startup.{until_space, from_space, first_word, after_first_word}
use file_syncer.Replica.{Replica, new_replica}
use file_syncer.Utils.Numbers.{InRange, ends_number, extract_int-show_int}
use file_syncer.Server.ConfigFile.{cut_comment, parse_fields, entry, parse_server_line}

-- The name of a host: bytes that are neither white space nor the mark of a comment.
abbrev pub is_host : Text → Bool
is_host [] = true
is_host (b ∷ s) = not (is_space b) && (not (b == b'#') && is_host s)

until_space-host : (host t : Text) → is_host host ≡ true → until_space (host ++ b' ' ∷ t) ≡ host
unfolding until_space is_space
until_space-host [] t h = refl
until_space-host (b ∷ host) t h = ground (arith, until_space-host host t)

from_space-host : (host t : Text) → is_host host ≡ true → from_space (host ++ b' ' ∷ t) ≡ b' ' ∷ t
unfolding from_space is_space
from_space-host [] t h = refl
from_space-host (b ∷ host) t h = ground (arith, from_space-host host t)

-- The words of what follows a number.
first_word-host :
    (b : ℕ) (host t : Text)
    → is_host (b ∷ host) ≡ true
    → first_word (b' ' ∷ (b ∷ host ++ b' ' ∷ t)) ≡ b ∷ host
unfolding first_word is_space
first_word-host b host t h = ground (arith, until_space-host (b ∷ host) t)

after_first_word-host :
    (b : ℕ) (host t : Text)
    → is_host (b ∷ host) ≡ true
    → after_first_word (b' ' ∷ (b ∷ host ++ b' ' ∷ t)) ≡ b' ' ∷ t
unfolding after_first_word is_space
after_first_word-host b host t h = ground (arith, from_space-host (b ∷ host) t)

extract_int-space : (s : Text) → extract_int (b' ' ∷ s) ≡ extract_int s
unfolding extract_int is_space
extract_int-space s = refl

-- The fields of a replica's line, as config.txt documents it, with what stands behind them.
abbrev pub print_fields : Replica → Text → Text
print_fields r end =
    show_int r.id
    ++ b' '
      ∷ (r.host
          ++ b' '
            ∷ (show_int r.service_port
                ++ b' ' ∷ (show_int r.admin_port ++ b' ' ∷ (show_int r.transaction_port ++ end))))

parse_fields-print :
    (id service_port admin_port port : ℤ) (b : ℕ) (host end : Text)
    → InRange id
    → is_host (b ∷ host) ≡ true
    → InRange service_port
    → InRange admin_port
    → InRange port
    → ends_number end ≡ true
    → parse_fields (print_fields (new_replica id (b ∷ host) admin_port service_port port) end)
      ≡ entry (new_replica id (b ∷ host) admin_port service_port port)
unfolding parse_fields new_replica show_int
parse_fields-print id service_port admin_port port b host end i h s a p e =
    let t4 = show_int port ++ end in
    let t3 = show_int admin_port ++ b' ' ∷ t4 in
    let t2 = show_int service_port ++ b' ' ∷ t3 in
    let t1 = b' ' ∷ (b ∷ host ++ b' ' ∷ t2) in
    let e1 : extract_int (show_int id ++ t1) ≡ good id t1 = extract_int-show_int id t1 i refl in
    let e2 : extract_int (after_first_word t1) ≡ good service_port (b' ' ∷ t3) =
      ap extract_int (after_first_word-host b host t2 h)
      ∙ extract_int-space t2
      ∙ extract_int-show_int service_port (b' ' ∷ t3) s refl in
    let e3 : extract_int (b' ' ∷ t3) ≡ good admin_port (b' ' ∷ t4) =
      extract_int-space t3 ∙ extract_int-show_int admin_port (b' ' ∷ t4) a refl in
    let e4 : extract_int (b' ' ∷ t4) ≡ good port end =
      extract_int-space t4 ∙ extract_int-show_int port end p e in
    rw (e1, e2, e3, e4, first_word-host b host t2 h) refl

abbrev no_mark : Text → Bool
no_mark [] = true
no_mark (b ∷ s) = not (b == b'#') && no_mark s

no_mark-append : (s t : Text) → no_mark s ≡ true → no_mark t ≡ true → no_mark (s ++ t) ≡ true
no_mark-append [] t h k = k
no_mark-append (b ∷ s) t h k = ground (arith, no_mark-append s t)

no_mark-show_digits :
    (fuel n : ℕ) (out : Text) → no_mark out ≡ true → no_mark (show_digits fuel n out) ≡ true
unfolding show_digits
no_mark-show_digits zero n out h = h
no_mark-show_digits (suc fuel) n out h =
    ground (arith, no_mark-show_digits fuel (n / 10) ((48 + n % 10) ∷ out))

no_mark-show_int : (i : ℤ) → no_mark (show_int i) ≡ true
unfolding show_int show_nat
no_mark-show_int (pos n) = no_mark-show_digits (suc n) n [] refl
no_mark-show_int (negsuc n) = no_mark-show_digits (suc (n + 1)) (n + 1) [] refl

no_mark-host : (host : Text) → is_host host ≡ true → no_mark host ≡ true
no_mark-host [] h = refl
no_mark-host (b ∷ host) h = ground (arith, no_mark-host host)

cut_comment-mark : (s t : Text) → no_mark s ≡ true → cut_comment (s ++ b'#' ∷ t) ≡ s
unfolding cut_comment
cut_comment-mark [] t h = refl
cut_comment-mark (b ∷ s) t h = ground (arith, cut_comment-mark s t)

cut_comment-none : (s : Text) → no_mark s ≡ true → cut_comment s ≡ s
unfolding cut_comment
cut_comment-none [] h = refl
cut_comment-none (b ∷ s) h = ground (arith, cut_comment-none s)

no_mark-print :
    (r : Replica) (end : Text)
    → is_host r.host ≡ true
    → no_mark end ≡ true
    → no_mark (print_fields r end) ≡ true
no_mark-print r end h k = no_mark-append (show_int r.id) _ (no_mark-show_int r.id) (
    no_mark-append r.host _ (no_mark-host r.host h) (
      no_mark-append (show_int r.service_port) _ (no_mark-show_int r.service_port) (
        no_mark-append (show_int r.admin_port) _ (no_mark-show_int r.admin_port) (
          no_mark-append (show_int r.transaction_port) end (no_mark-show_int r.transaction_port)
            k))))

-- A comment at the end of a line, after a space.
abbrev pub with_comment : Option Text → Text → Text
with_comment none line = line
with_comment (some c) line = line ++ b'#' ∷ c

abbrev pub end_of : Option Text → Text
end_of none = []
end_of (some c) = b' ' ∷ []

parse_server_line-cut :
    (s : Text) (comment : Option Text)
    → no_mark s ≡ true
    → parse_server_line (with_comment comment (b'-' ∷ b' ' ∷ s)) ≡ parse_fields s
unfolding parse_server_line cut_comment
parse_server_line-cut s none h = ground (arith, cut_comment-none s)
parse_server_line-cut s (some c) h = ground (arith, cut_comment-mark s c)

-- A line `- id host service_port admin_port transaction_port`, with or without a comment behind it, is read
-- as that replica, alive and no coordinator: with numbers in the range of `int` and a host that has a
-- byte and neither white space nor `#`.
pub parse_server_line-print :
    (id service_port admin_port port : ℤ) (b : ℕ) (host : Text) (comment : Option Text)
    → InRange id
    → is_host (b ∷ host) ≡ true
    → InRange service_port
    → InRange admin_port
    → InRange port
    → parse_server_line (
        with_comment comment (
          b'-'
          ∷ b' '
          ∷ print_fields (new_replica id (b ∷ host) admin_port service_port port) (end_of comment)))
      ≡ entry (new_replica id (b ∷ host) admin_port service_port port)
unfolding new_replica is_space
parse_server_line-print id service_port admin_port port b host comment i h s a p =
    let r = new_replica id (b ∷ host) admin_port service_port port in
    parse_server_line-cut (print_fields r (end_of comment)) comment
      (no_mark-print r (end_of comment) h (blank comment))
    ∙ parse_fields-print id service_port admin_port port b host (end_of comment) i h s a p
        (ends comment)
  where
    blank : (comment : Option Text) → no_mark (end_of comment) ≡ true
    blank none = refl
    blank (some c) = refl

    ends : (comment : Option Text) → ends_number (end_of comment) ≡ true
    ends none = refl
    ends (some c) = refl
