-- ===== src/Server/ConfigFile.antt =====
-- `loadConfig` and `getSyncerDirFromConfig` of src/server/Server.cpp: what a server reads from config.txt.
use file_syncer.Prelude.{
  ℕ, Bool, true, false, Option, none, some, List, [], ◌∷◌, length, drop, if◌then◌else◌, ltb, ◌==◌,
}
use file_syncer.Prelude.Int.{ℤ, pos, to_word}
use file_syncer.Prelude.Text.{Text, bytes, text_eq}
use file_syncer.Prelude.Map.{Map, emplace, int_key}
use file_syncer.Utils.Decimal.{good, bad, nothing, extract_int}
use file_syncer.ServerState.Startup.{first_word, after_first_word}
use file_syncer.Replica.{Replica, new_replica}

-- `std::getline`, to the end of the file.
unfoldable pub get_lines : Text → List Text
get_lines [] = []
get_lines (b ∷ s) =
    let rest = get_lines s in
    if b == 10 then [] ∷ rest else elim rest [ [] ↦ (b ∷ []) ∷ [] | l ∷ ls ↦ (b ∷ l) ∷ ls ]

-- `std::stoi`; `none` is its exception.
unfoldable pub stoi : Text → Option ℤ
unfolding extract_int
stoi s = elim (extract_int s) [ good i rest ↦ some i | bad i ↦ none | nothing ↦ none ]

-- A line of the other servers: a replica; an exception of `substr`; or a replica one of whose ports was
-- not set.
pub data Line : Type 0 where
  entry : Replica → Line
  short_line : Line
  unset : Line

unfoldable pub cut_comment : Text → Text
cut_comment [] = []
cut_comment (b ∷ s) = if b == b'#' then [] else b ∷ cut_comment s

unfoldable pub parse_fields : Text → Line
unfolding extract_int first_word after_first_word new_replica
parse_fields s = elim (extract_int s) [
  | bad id ↦ unset
  | nothing ↦ unset
  | good id s1 ↦ elim (extract_int (after_first_word s1)) [
    | bad service_port ↦ unset
    | nothing ↦ unset
    | good service_port s2 ↦ elim (extract_int s2) [
      | bad admin_port ↦ unset
      | nothing ↦ unset
      | good admin_port s3 ↦ elim (extract_int s3) [
        | good port s4 ↦ entry (new_replica id (first_word s1) admin_port service_port port)
        | bad port ↦ entry (new_replica id (first_word s1) admin_port service_port port)
        | nothing ↦ unset
      ]
    ]
  ]
]

-- A comment at the end and the dash at the front are taken off.
unfoldable pub parse_server_line : Text → Line
unfolding cut_comment parse_fields
parse_server_line line =
    let cut = cut_comment line in
    if ltb (length cut) 2 then short_line else parse_fields (drop 2 cut)

pub record Settings : Type 0 where
  pub server_id : ℤ
  pub server_port : ℤ
  pub server_admin_port : ℤ
  pub server_transaction_port : ℤ
  pub server_host : Text
  pub warmup_time : ℕ
  pub syncer_dir : Text
  pub servers : Map ℤ Replica

-- The settings; an exception; undefined behaviour; or the end of the process, without a file.
pub data Loaded : Type 0 where
  loaded : Settings → Loaded
  threw : Loaded
  undefined_settings : Loaded
  exits : Loaded

abbrev pub is_comment : Text → Bool
is_comment [] = false
is_comment (b ∷ s) = b == b'#'

abbrev pub is_blank : Text → Bool
is_blank [] = true
is_blank (b ∷ s) = false

unfoldable pub load_servers : List Text → Settings → Loaded
unfolding parse_server_line
load_servers [] t = loaded t
load_servers (line ∷ lines) t =
    let rest = load_servers lines t in
    if is_comment line
    then rest
    else if is_blank line
    then rest
    else elim (parse_server_line line) [
      | entry r ↦ load_servers lines (record t { servers = emplace r.id r t.servers })
      | short_line ↦ threw
      | unset ↦ undefined_settings
    ]

-- A line with a number for its key.
abbrev number : Text → (ℤ → Loaded) → Loaded
number value next = elim (stoi value) [ none ↦ threw | some i ↦ next i ]

unfoldable pub load_lines : List Text → Settings → Loaded
unfolding load_servers stoi first_word after_first_word
load_lines [] t = loaded t
load_lines (line ∷ lines) t =
    let key = first_word line in
    let value = first_word (after_first_word line) in
    let rest = λ (t : Settings). load_lines lines t in
    if is_comment line
    then rest t
    else if text_eq key (bytes "server_id:")
    then number value (λ i. rest (record t { server_id = i }))
    else if text_eq key (bytes "server_port:")
    then number value (λ i. rest (record t { server_port = i }))
    else if text_eq key (bytes "server_admin_port:")
    then number value (λ i. rest (record t { server_admin_port = i }))
    else if text_eq key (bytes "server_transaction_port:")
    then number value (λ i. rest (record t { server_transaction_port = i }))
    else if text_eq key (bytes "server_host:")
    then rest (record t { server_host = value })
    else if text_eq key (bytes "warmup_time:")
    then number value (λ i. rest (record t { warmup_time = to_word 32 i }))
    else if text_eq key (bytes "syncer_dir:")
    then rest (record t { syncer_dir = value })
    else if text_eq key (bytes "other_servers_ip:")
    then load_servers lines t
    else rest t

-- The members before the file is read. `syncer_dir` is what `getSyncerDirFromConfig` has given.
unfoldable pub default_settings : Text → Settings
default_settings dir = record {
  server_id = pos 0;
  server_port = pos 0;
  server_admin_port = pos 0;
  server_transaction_port = pos 0;
  server_host = [];
  warmup_time = 15;
  syncer_dir = dir;
  servers = [];
}

unfoldable pub find_syncer_dir : List Text → Text
unfolding first_word after_first_word
find_syncer_dir [] = bytes ".syncer/"
find_syncer_dir (line ∷ lines) =
    let rest = find_syncer_dir lines in
    if is_comment line
    then rest
    else if text_eq (first_word line) (bytes "syncer_dir:")
    then first_word (after_first_word line)
    else rest

unfoldable pub load_config : Option Text → Loaded
unfolding get_lines find_syncer_dir default_settings load_lines
load_config none = exits
load_config (some content) =
    let lines = get_lines content in load_lines lines (default_settings (find_syncer_dir lines))
