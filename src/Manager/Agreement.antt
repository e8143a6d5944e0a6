-- ===== src/Manager/Agreement.antt =====
-- The coordinator and a replica that has the same files, over the same transaction.
use file_syncer.Prelude.{◌≡◌, Bool, true, List, [], ◌∷◌}
use file_syncer.Prelude.Int.{ℤ}
use file_syncer.Prelude.Text.{Text}
use file_syncer.Prelude.Map.{find, text_key}
use file_syncer.Config.{Config}
use file_syncer.ServerState.{find_file}
use file_syncer.Transaction.Monad.{World}
use file_syncer.Manager.{Manager, Sent, Call, done, vote_to}
use file_syncer.Manager.TwoPhase.{next_tid}

-- The same files, with the same records and the same content.
abbrev pub SameFiles : World → World → Type 0
SameFiles v w =
    ((user f : Text) → find_file v.shared user f ≡ find_file w.shared user f)
    × (v.shared.last_tid ≡ w.shared.last_tid)
    × ((q : Text) → find q v.disk ≡ find q w.disk)

module _ (c : Config) (u f content : Text) (i : ℤ) (m n : Manager)
    (same : SameFiles m.world n.world) where
  -- Both calls return the result, and leave the same files.
  abbrev pub Agree : Bool → Call Bool → Call Bool → Type 0
  Agree b call call' =
      (m' n' : Manager) × (out : List Sent) × (call ≡ done b m' out)
      × (call' ≡ done b n' (vote_to i true (next_tid m) ∷ []))
      × SameFiles m'.world n'.world
