-- ===== src/Recovery.antt =====
-- A server that stops in the middle of an upload or around the creation of a user and starts again:
-- src/server/transactions/Transaction.cpp, FileChangeTransaction.cpp and CreateUserTransaction.cpp on
-- the disk, then `init` of ServerState.cpp.
pub mod Ready
pub mod Points
pub mod Crash
pub mod Stuck
pub mod Grafted
pub mod Created
mod Tests
use file_syncer.Prelude.{ℕ, zero, suc, Option, none, some, List, [], ◌∷◌}
use file_syncer.Prelude.Text.{Text}
use file_syncer.Config.{Config, get_tid_path, get_file_path}
use file_syncer.Disk.{Disk, remove, rename}
use file_syncer.Disk.Paths.{temp}

-- What `commit` and `commitHook` do to the disk for new content, in order.
unfoldable pub commit_steps : Config → Text → Text → List (Disk → Option Disk)
commit_steps c u f =
    remove (get_tid_path c)
    ∷ rename (temp (get_tid_path c)) (get_tid_path c)
    ∷ rename (temp (get_file_path c u f)) (get_file_path c u f)
    ∷ []

-- The first of the steps, up to where the server stops.
unfoldable pub interrupted : ℕ → List (Disk → Option Disk) → Disk → Option Disk
interrupted zero steps d = some d
interrupted (suc n) [] d = some d
interrupted (suc n) (step ∷ steps) d = elim (step d) [
  | none ↦ none
  | some e ↦ interrupted n steps e
]
