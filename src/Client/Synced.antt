-- ===== src/Client/Synced.antt =====
-- A client's files (mainClient.cpp) and the server's (ServiceRequestHandler.cpp): what the one sends is
-- what the other stores and gives back.
use file_syncer.Prelude.{
  Bool, true, false, if◌then◌else◌, ◌≡◌, ap, ◌∙◌, Option, none, some, List, [], ◌∷◌,
}
use file_syncer.Prelude.Text.{Text, text_eq}
use file_syncer.Prelude.Map.{find, text_key}
use file_syncer.Config.{Config}
use file_syncer.Disk.{Disk, has_parent, is_directory, read_file, write_file}
use file_syncer.Disk.Laws.{write_file_lem, read_file-put}
use file_syncer.Messages.{Request, FileUpdate, Response}
use file_syncer.Manager.{Manager, Call, done, waits, crashes, undefined_call}
use file_syncer.Service.{Reply, sent, closed}
use file_syncer.Utils.{Xxh64}
use file_syncer.Client.{file_hash}

-- The first message of an answer.
abbrev pub first_sent : List Reply → Option Response
first_sent [] = none
first_sent (sent r ∷ replies) = some r
first_sent (closed ∷ replies) = none

abbrev pub answer_of : Call (List Reply) → Option Response
answer_of (done replies m out) = first_sent replies
answer_of waits = none
answer_of crashes = none
answer_of undefined_call = none

-- The file at a path after an update, by whether the update deletes it and whether its hash was the
-- announced one.
abbrev pub After : Bool → Bool → Text → Text → Disk → Disk → Type 0
After true current path content d d' = find path d' ≡ none
After false true path content d d' = d' ≡ d
After false false path content d d' = read_file d' path ≡ some content

-- The files `d'` are `d` after the update `u` at its path, where the server has `content`.
pub record IsSynced (xxh : Xxh64) (path : Text) (u : FileUpdate) (content : Text) (d d' : Disk)
    : Type 0 where
  pub outcome : After u.deleted (text_eq (file_hash xxh d path) u.hash) path content d d'
  pub others : (q : Text) → find q d' ≡ (if text_eq path q then find path d' else find q d)

pub write_file-read_file :
    (path content : Text) (d : Disk)
    → has_parent d path ≡ true
    → is_directory d path ≡ false
    → read_file (write_file path content d) path ≡ some content
write_file-read_file path content d h k =
    ap (λ x. read_file x path) (write_file_lem path content d h k) ∙ read_file-put path content d

-- What each branch of an update leaves, at the path and elsewhere.
abbrev branches : Bool → Bool → Disk → Disk → Disk → List Request → List Request × Disk
branches deleted current removed saved d rs =
    if deleted then ([], removed) else if current then ([], d) else (rs, saved)
