-- ===== src/Client/Updates.antt =====
-- src/client/mainClient.cpp: `thread_updates`, what the client does on the messages of its subscription.
-- `muteUpdate` is set while the files are changed.
use file_syncer.Prelude.{Option, none, some, List, [], ◌∷◌, ◌++◌, if◌then◌else◌}
use file_syncer.Prelude.Text.{Text, text_eq}
use file_syncer.Disk.{Disk, remove}
use file_syncer.Messages.{Request, FileUpdate, Response, updated}
use file_syncer.Utils.{Xxh64}
use file_syncer.Client.{file_hash, download_request, save_download}

-- `std::remove`, whose result is not looked at.
unfoldable pub remove_quietly : Text → Disk → Disk
remove_quietly path d = elim (remove path d) [ none ↦ d | some d' ↦ d' ]

-- One UPDATED message: the download that is asked for, if there is one, and the files after its
-- answer.
unfoldable pub apply_update :
    Xxh64 → Text → FileUpdate → Option Response → Disk → List Request × Disk
unfolding remove_quietly file_hash download_request save_download
apply_update xxh dir u answer d =
    let path = dir ++ b'/' ∷ u.filename in
    if u.deleted
    then ([], remove_quietly path d)
    else if text_eq (file_hash xxh d path) u.hash
    then ([], d)
    else (download_request u.filename ∷ [], save_download path answer d)

-- The loop, over the messages that come in while the client is connected and does not exit, each with
-- the answer to its download.
unfoldable pub apply_updates :
    Xxh64 → Text → List (Option Response × Option Response) → Disk → List Request × Disk
unfolding apply_update
apply_updates xxh dir [] d = ([], d)
apply_updates xxh dir ((none, answer) ∷ rs) d = apply_updates xxh dir rs d
apply_updates xxh dir ((some (updated u), answer) ∷ rs) d =
    let now = apply_update xxh dir u answer d in
    let later = apply_updates xxh dir rs now.1 in (now.0 ++ later.0, later.1)
apply_updates xxh dir ((some other, answer) ∷ rs) d = apply_updates xxh dir rs d
