-- ===== src/Client/Watch.antt =====
-- src/client/mainClient.cpp: `verifica_modificacao`, what the client does on the events of its directory.
use file_syncer.Prelude.{Bool, true, false, Option, none, some, List, [], ◌∷◌, ◌++◌, if◌then◌else◌}
use file_syncer.Prelude.Text.{Text}
use file_syncer.Disk.{Disk}
use file_syncer.Messages.{RequestType, Request, Response, send_file_data, file_updated}
use file_syncer.Utils.{Xxh64}
use file_syncer.Client.{
  Reading, contents, unopened, read_failed, read_all, file_hash, file_update_request,
  delete_request, data_request,
}

-- The bits of the mask that the client looks at, and the name, where there is one.
pub record Event : Type 0 where
  pub close_write : Bool
  pub is_delete : Bool
  pub name : Option Text

-- What the thread finds when it looks at an event: the local files, and what the server answers.
pub record Found : Type 0 where
  pub files : Disk
  pub first : Option Response
  pub second : Option Response

-- After an event: on to the next one, or out of the function, with the requests; or an exception.
pub data Turn : Type 0 where
  goes_on : List Request → Turn
  leaves : List Request → Turn
  throws : Turn

-- The answer to the bytes of a file.
unfoldable pub after_data : Option Response → List Request → Turn
after_data none rs = leaves rs
after_data (some (Response.error msg)) rs = leaves rs
after_data (some other) rs = goes_on rs

-- A file that does not open is sent as an empty one.
unfoldable pub send_data : Text → Text → Reading → Option Response → List Request → Turn
unfolding data_request after_data
send_data name hash (contents content) second rs =
    after_data second (rs ++ (data_request RequestType.file_data name hash content ∷ []))
send_data name hash unopened second rs =
    after_data second (rs ++ (data_request RequestType.file_data name hash [] ∷ []))
send_data name hash read_failed second rs = throws

-- The answer to the hash of a file.
unfoldable pub after_hash : Option Response → Turn → List Request → Turn
after_hash none data_sent rs = leaves rs
after_hash (some (Response.error msg)) data_sent rs = leaves rs
after_hash (some file_updated) data_sent rs = leaves rs
after_hash (some send_file_data) data_sent rs = data_sent
after_hash (some other) data_sent rs = goes_on rs

-- A file that was closed after a write.
unfoldable pub send_modified : Xxh64 → Text → Text → Found → Turn
unfolding file_hash file_update_request read_all send_data after_hash
send_modified xxh dir name f =
    let path = dir ++ b'/' ∷ name in
    let hash = file_hash xxh f.files path in
    let rs = file_update_request name false hash ∷ [] in
    after_hash f.first (send_data name hash (read_all f.files path) f.second rs) rs

-- The looks at `muteUpdate`: the event stays the same while the flag is set. `none` where it is
-- set as long as it is looked at.
unfoldable pub until_unmuted : List Bool → Option (List Bool)
until_unmuted [] = none
until_unmuted (muted ∷ looks) = if muted then until_unmuted looks else some looks

-- The events of one `read` with what is found at each: the requests that were sent, and the events
-- that were not looked at; or a loop that still looks at `muteUpdate`; or an exception.
pub data Watched : Type 0 where
  handled : List Request → List (Event × Found) → Watched
  looping : Watched
  failed : Watched

unfoldable pub watch_events :
    Xxh64 → Text → List Bool → List (Event × Found) → List Request → Watched
unfolding send_modified until_unmuted delete_request
watch_events xxh dir looks [] out = handled out []
watch_events xxh dir looks ((e, f) ∷ events) out = elim e.name [
  | none ↦ watch_events xxh dir looks events out
  | some name ↦ elim e.close_write [
    | true ↦ elim (until_unmuted looks) [
      | none ↦ looping
      | some looks' ↦ elim (send_modified xxh dir name f) [
        | goes_on rs ↦ watch_events xxh dir looks' events (out ++ rs)
        | leaves rs ↦ handled (out ++ rs) events
        | throws ↦ failed
      ]
    ]
    | false ↦ elim e.is_delete [
      | true ↦ watch_events xxh dir looks events (out ++ (delete_request name ∷ []))
      | false ↦ watch_events xxh dir looks events out
    ]
  ]
]
