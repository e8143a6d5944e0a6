-- ===== src/Manager/Tests.antt =====
-- The transaction manager on a small coordinator and a small replica.
use file_syncer.Prelude.{◌≡◌, refl, true, false, some, [], ◌∷◌, arith}
use file_syncer.Prelude.Int.{pos}
use file_syncer.Samples.{
  config, user, filename, content, coordinator, replica, room, no_temp_tid, no_temp_file,
}
use file_syncer.Transaction.Monad.{Payload, Transaction}
use file_syncer.Transaction.{new_transaction}
use file_syncer.Manager.{
  done, ◌>>=◌, Manager, add_vote, add_votes, wait_end_voting, do_transaction,
  receive_new_transaction, new_manager,
}
use file_syncer.Manager.Voting.{answer, decide}
use file_syncer.Manager.Tally.{conclude-decide}
use file_syncer.Manager.TwoPhase.{UploadEnds, IsFree, upload_ends}
use file_syncer.Manager.Wire.{handle_message, transaction_msg, handle_message-transaction_msg}
use file_syncer.Manager.Replica.{ReplicaEnds, IsReplica, first_result, receive_ends}

coordinator-IsFree : IsFree coordinator (pos 2 ∷ pos 3 ∷ [])
unfolding new_manager
coordinator-IsFree = record { coordinates = refl; idle = refl; few = omega arith }

-- Two replicas vote, one before the coordinator and one after.
upload_ends_example :
    UploadEnds config user filename content coordinator
      (decide (pos 5) 3 ((true, pos 5) ∷ (true, pos 5) ∷ (true, pos 5) ∷ []))
      (do_transaction config
        (Payload.file_change user filename false content)
        (pos 2 ∷ pos 3 ∷ [])
        (pos 2 ∷ pos 3 ∷ [])
        ((true, pos 5) ∷ [])
        ((true, pos 5) ∷ [])
        (pos 2 ∷ [])
        coordinator)
unfolding new_manager
upload_ends_example =
    upload_ends config user filename content (pos 2 ∷ pos 3 ∷ []) (pos 2 ∷ pos 3 ∷ []) coordinator
      room no_temp_tid no_temp_file coordinator-IsFree ((true, pos 5) ∷ []) ((true, pos 5) ∷ [])
      (pos 2 ∷ []) (omega arith)

-- One vote is for another transaction.
conclude-decide_example :
    answer (
      wait_end_voting ((true, pos 7) ∷ (false, pos 0) ∷ []) (
        add_vote
          (true, pos 0)
          (add_votes ((true, pos 0) ∷ []) (record coordinator { voting_total = pos 3 }))))
    ≡ decide (pos 0) 3 ((true, pos 0) ∷ (true, pos 0) ∷ (true, pos 7) ∷ (false, pos 0) ∷ [])
unfolding new_manager new_transaction
conclude-decide_example =
    conclude-decide ((true, pos 0) ∷ []) ((true, pos 7) ∷ (false, pos 0) ∷ []) true
      (record coordinator { voting_total = pos 3 }) 2 refl refl (omega arith) (omega arith)

replica-IsReplica : IsReplica replica
unfolding new_manager
replica-IsReplica = record { follows = refl; idle = refl }

-- The first result is for another transaction.
receive_ends_example :
    ReplicaEnds config user filename content
      (pos 5)
      (pos 1)
      replica
      (first_result (pos 5) ((true, pos 4) ∷ (false, pos 5) ∷ []))
      (receive_new_transaction config
        (Payload.file_change user filename false content)
        (pos 5)
        (some (pos 1))
        ((true, pos 4) ∷ (false, pos 5) ∷ [])
        replica)
unfolding new_manager
receive_ends_example =
    receive_ends config user filename content (pos 5) (pos 1) replica room no_temp_tid no_temp_file
      replica-IsReplica refl ((true, pos 4) ∷ (false, pos 5) ∷ [])

abbrev stale : Manager
stale = record replica { has_result = true; result = true }

-- A session is removed.
abbrev removal : Transaction
removal = record (new_transaction (Payload.remove_session (pos 5))) { tid = pos 9 }

handle_message-transaction_msg_example :
    handle_message config true
      (some (pos 1))
      ((true, pos 9) ∷ [])
      (some (transaction_msg removal))
      replica
    ≡ (receive_new_transaction config removal.payload removal.tid
          (some (pos 1))
          ((true, pos 9) ∷ [])
          replica
        >>= λ _ m' out. done true m' out)
handle_message-transaction_msg_example =
    handle_message-transaction_msg config (some (pos 1)) ((true, pos 9) ∷ []) removal replica
