-- ===== src/Manager.antt =====
-- src/server/transactions/TransactionManager.h and .cpp: the two-phase commit of a transaction.
-- The votes and results that other threads bring in are lists, in the order in which they come
-- in; what is sent is a list of messages. The acknowledgements, which change nothing, and the
-- terminal are left out.
pub mod Voting
pub mod Tally
pub mod TwoPhase
pub mod Replica
pub mod Wire
pub mod Agreement
mod Tests
use file_syncer.Prelude.{
  ℕ, suc, ◌+◌, Bool, true, false, not, ◌&&◌, ◌||◌, Option, none, some, List, [], ◌∷◌, ◌++◌, length,
  map, if◌then◌else◌,
}
use file_syncer.Prelude.Int.{ℤ, pos, negsuc, int_eq, int_lt, to_int, increment}
use file_syncer.Config.{Config}
use file_syncer.ServerState.{ServerState, get_last_tid}
use file_syncer.Disk.{Disk}
use file_syncer.Transaction.Monad.{
  Payload, Transaction, World, Outcome, returned, thrown, undefined,
}
use file_syncer.Transaction.{new_transaction, set_state, run, commit, force_rollback}

-- `world.tx` is `*activeTransaction_` once `has_transaction`; before, the pointer is not set.
pub record Manager : Type 0 where
  pub world : World
  pub has_transaction : Bool
  pub is_transaction_active : Bool
  pub is_coordinator : Bool
  pub last_tid : ℤ
  pub voting_total : ℤ
  pub votes : ℤ
  pub has_result : Bool
  pub result : Bool

-- A vote or a result: whether to commit, and the id of the transaction.
abbrev pub Ballot : Type 0
Ballot = Bool × ℤ

-- The replicas are named by their ids.
pub data Sent : Type 0 where
  transaction_to : ℤ → Payload → ℤ → Sent
  result_to : ℤ → Bool → ℤ → Sent
  vote_to : ℤ → Bool → ℤ → Sent

-- A call that returns; one that waits for ever; an exception that ends the process; and
-- undefined behaviour.
pub data Call (A : Type 0) : Type 0 where
  done : A → Manager → List Sent → Call A
  waits : Call A
  crashes : Call A
  undefined_call : Call A

unfoldable pub new_manager : Bool → Disk → ServerState → Manager
unfolding get_last_tid new_transaction
new_manager is_coordinator d s = record {
  world = record { disk = d; shared = s; tx = new_transaction (Payload.remove_session (pos 0)) };
  has_transaction = false;
  is_transaction_active = false;
  is_coordinator = is_coordinator;
  last_tid = get_last_tid s;
  voting_total = pos 0;
  votes = pos 0;
  has_result = false;
  result = false;
}

-- `addVote`. -1 votes mean that the voting has failed.
unfoldable pub count_vote : Bool → Manager → Manager
count_vote vote m =
    if vote
    then (if int_eq m.votes (negsuc 0) then m else record m { votes = increment m.votes })
    else record m { votes = negsuc 0 }

unfoldable pub add_vote : Ballot → Manager → Manager
unfolding count_vote
add_vote (vote, tid) m = if int_eq tid m.world.tx.tid then count_vote vote m else m

unfoldable pub add_votes : List Ballot → Manager → Manager
add_votes [] m = m
add_votes (v ∷ vs) m = add_votes vs (add_vote v m)

unfoldable pub voting_open : Manager → Bool
voting_open m = int_lt m.votes m.voting_total && not (int_eq m.votes (negsuc 0))

-- `waitEndVoting`, with the votes that come in: `none` if the voting stays open.
unfoldable pub wait_end_voting : List Ballot → Manager → Option (Bool × Manager)
unfolding voting_open
wait_end_voting [] m = if voting_open m then none else some (int_eq m.votes m.voting_total, m)
wait_end_voting (v ∷ vs) m =
    let rest = wait_end_voting vs (add_vote v m) in
    if voting_open m then rest else some (int_eq m.votes m.voting_total, m)

-- `activeTransaction_ = &transaction`, `setState` and the flag.
unfoldable pub take_transaction : Transaction → Manager → Manager
take_transaction t m = record m {
  world = record m.world { tx = record t { work_state = some m.world.shared } };
  has_transaction = true;
  is_transaction_active = true;
}

unfoldable pub init_transaction : Manager → Manager
init_transaction m =
    let tid = increment m.last_tid in
    record m {
      is_transaction_active = true;
      last_tid = tid;
      world = record m.world { tx = record m.world.tx { tid = tid } };
    }

unfoldable pub start_voting : List ℤ → Manager → Manager
start_voting servers m = record m {
  voting_total = to_int (pos (length servers + 1));
  votes = pos 0;
}

-- What `executeTransactionInNodes` and `sendResult` send to the active servers.
unfoldable pub execute_transaction_in_nodes : List ℤ → Manager → List Sent
execute_transaction_in_nodes servers m =
    map (λ i. transaction_to i m.world.tx.payload m.world.tx.tid) servers

unfoldable pub send_result : List ℤ → Bool → ℤ → List Sent
send_result servers result tid = map (λ i. result_to i result tid) servers

-- `receiveResult`.
unfoldable pub receive_result : Ballot → Manager → Manager
receive_result (res, tid) m =
    if int_eq tid m.world.tx.tid then record m { result = res; has_result = true } else m

-- `waitResult`, with the results that come in.
unfoldable pub wait_result : List Ballot → Manager → Option (Bool × Manager)
unfolding receive_result
wait_result [] m = if m.has_result then some (m.result, record m { has_result = false }) else none
wait_result (r ∷ rs) m =
    let rest = wait_result rs (receive_result r m) in
    if m.has_result then some (m.result, record m { has_result = false }) else rest

-- A method of the active transaction, on the manager's world.
unfoldable pub lift_run : {A : Type 0} → Outcome A → Manager → List Sent → Call A
lift_run (returned a w) m out = done a (record m { world = w }) out
lift_run (thrown w) m out = crashes
lift_run undefined m out = undefined_call

infixl 5 ◌>>=◌
abbrev pub ◌>>=◌ : {A B : Type 0} → Call A → (A → Manager → List Sent → Call B) → Call B
done a m out >>= f = f a m out
waits >>= f = waits
crashes >>= f = crashes
undefined_call >>= f = undefined_call

module _ (c : Config) where
  -- The result of `commit` is dropped.
  unfoldable pub commit_transaction : Manager → List Sent → Call (Unit {0})
  unfolding lift_run
  commit_transaction m out = lift_run (commit c m.world) m out >>= λ ok m' out'.
      done tt (record m' { is_transaction_active = false }) out'

  unfoldable pub rollback_transaction : Manager → List Sent → Call (Unit {0})
  unfolding lift_run
  rollback_transaction m out = lift_run (force_rollback c m.world) m out >>= λ _ m' out'.
      done tt (record m' { is_transaction_active = false }) out'

  unfoldable pub finish : Bool → Manager → List Sent → Call Bool
  unfolding commit_transaction rollback_transaction
  finish result m out =
      (if result then commit_transaction m out else rollback_transaction m out) >>= λ _ m' out'.
      done result m' out'

  -- From the coordinator's own vote on: `during` came in while the transaction ran, `later` come
  -- in while the thread waits, and `after` are the servers that are active when it goes on.
  unfoldable pub conclude : List Ballot → List Ballot → List ℤ → Manager → List Sent → Call Bool
  unfolding finish send_result add_votes wait_end_voting
  conclude during later after m out =
      let m' = add_vote (m.world.tx.is_prepared, m.world.tx.tid) (add_votes during m) in
      elim (wait_end_voting later m') [
        | none ↦ waits
        | some (result, m'') ↦ finish result m'' (out ++ send_result after result m''.world.tx.tid)
      ]

  -- `servers` are counted for the votes, `told` get the transaction and `after` the result: each is
  -- what `getActiveServers` gives at that time.
  unfoldable pub do_transaction :
      Payload → List ℤ → List ℤ → List Ballot → List Ballot → List ℤ → Manager → Call Bool
  unfolding take_transaction init_transaction start_voting execute_transaction_in_nodes lift_run
      conclude new_transaction
  do_transaction p servers told during later after m =
      if not m.is_coordinator || m.is_transaction_active
      then done false m []
      else (let m' =
            start_voting servers (init_transaction (take_transaction (new_transaction p) m)) in
          lift_run (run c m'.world) m' (execute_transaction_in_nodes told m') >>= λ _ m'' out.
          conclude during later after m'' out)

  -- The vote goes to `servers.at(coordinator_id)`, which throws where the coordinator is unknown.
  unfoldable pub receive_new_transaction :
      Payload → ℤ → Option ℤ → List Ballot → Manager → Call Bool
  unfolding take_transaction lift_run finish wait_result new_transaction
  receive_new_transaction p tid coordinator results m =
      if m.is_coordinator || m.is_transaction_active
      then done false m []
      else (let m' = take_transaction (record (new_transaction p) { tid = tid }) m in
          lift_run (run c m'.world) m' [] >>= λ _ m'' out. elim coordinator [
            | none ↦ crashes
            | some i ↦ elim (wait_result results m'') [
              | none ↦ waits
              | some (result, m3) ↦ finish result m3 (vote_to i m''.world.tx.is_prepared tid ∷ [])
            ]
          ])

  unfoldable pub set_is_coordinator : Bool → Manager → Call (Unit {0})
  unfolding rollback_transaction
  set_is_coordinator b m =
      (if m.is_transaction_active then rollback_transaction m [] else done tt m []) >>= λ _ m' out.
      done tt (record m' { is_coordinator = b }) out
