-- ===== src/Server.antt =====
-- src/server/Server.h and Server.cpp: a server among its replicas. What `loadConfig` reads is in
-- Server/ConfigFile, and `start` and `startElection` are in Server/Bully.
mod Tests
pub mod ConfigFile
pub mod ServerLine
pub mod Bully
pub mod Admin
pub mod Outcome
pub mod Alive
pub mod Coherent
pub mod Leader
pub mod Sound
pub mod Ends
pub mod Reach
pub mod Begin
pub mod Agree
use file_syncer.Prelude.{
  ℕ, zero, suc, ◌+◌, Bool, true, false, not, ◌||◌, Option, none, some, List, [], ◌∷◌, ◌++◌, map,
  if◌then◌else◌,
}
use file_syncer.Prelude.Int.{ℤ, pos, negsuc, int_eq}
use file_syncer.Prelude.Text.{Text}
use file_syncer.Prelude.Map.{Map, find, modify, int_key}
use file_syncer.Config.{Config}
use file_syncer.Connection.{ConnectionArgs}
use file_syncer.ServerState.{FrontendConnection, get_frontends}
use file_syncer.Replica.{Replica, Beat, AdminMsgType, check_alive_blocking}
use file_syncer.Manager.{Manager, Call, done, waits, crashes, undefined_call, set_is_coordinator}

-- src/server/Election.h. -1 stands for no server.
pub record Election : Type 0 where
  pub highest_alive_reply : ℤ
  pub victorious : ℤ

abbrev pub new_election : Election
new_election = record { highest_alive_reply = negsuc 0; victorious = negsuc 0 }

-- `state` is the shared state of the transaction manager. Of the listeners, only the service's may
-- be started twice.
pub record Server : Type 0 where
  pub server_id : ℤ
  pub server_port : ℤ
  pub server_admin_port : ℤ
  pub server_transaction_port : ℤ
  pub server_host : Text
  pub warmup_time : ℤ
  pub servers : Map ℤ Replica
  pub coordinator_id : ℤ
  pub is_coordinator : Bool
  pub election : Option Election
  pub has_service_listener : Bool
  pub manager : Manager

-- What a server sends: an admin message with its type and sender to a replica, or the host and the
-- port of the new coordinator to a front end, or the answer to a heartbeat, on its connection. A
-- connection that fails is not noticed.
pub data Note : Type 0 where
  admin_to : ℤ → AdminMsgType → ℤ → Note
  coordinator_to : FrontendConnection → Text → ℤ → Note
  heartbeat_reply : Note

-- A call that returns; one that waits for ever; an exception; and undefined behaviour.
pub data Run (A : Type 0) : Type 0 where
  ran : A → Server → List Note → Run A
  hangs : Run A
  threw : Run A
  undefined_run : Run A

infixl 5 ◌>>=◌
abbrev pub ◌>>=◌ : {A B : Type 0} → Run A → (A → Server → List Note → Run B) → Run B
ran a s out >>= f = f a s out
hangs >>= f = hangs
threw >>= f = threw
undefined_run >>= f = undefined_run

-- A call of the transaction manager. Its messages are those of a rollback, which sends none.
abbrev pub with_manager : Call (Unit {0}) → Server → List Note → Run (Unit {0})
with_manager (done _ m _) s out = ran tt (record s { manager = m }) out
with_manager waits s out = hangs
with_manager crashes s out = threw
with_manager undefined_call s out = undefined_run

-- `getReplicas` and `getActiveServers`, by their ids.
unfoldable pub replica_ids : Map ℤ Replica → List ℤ
replica_ids [] = []
replica_ids ((i, r) ∷ servers) = i ∷ replica_ids servers

unfoldable pub active_ids : Map ℤ Replica → List ℤ
active_ids [] = []
active_ids ((i, r) ∷ servers) =
    let rest = active_ids servers in if r.is_alive then i ∷ rest else rest

unfoldable pub get_replicas : Server → List ℤ
unfolding replica_ids
get_replicas s = replica_ids s.servers

unfoldable pub get_active_servers : Server → List ℤ
unfolding active_ids
get_active_servers s = active_ids s.servers

-- `servers.at(i)`; `none` is the exception.
unfoldable pub get_replica : Server → ℤ → Option Replica
get_replica s i = find i s.servers

unfoldable pub get_coordinator : Server → Option Replica
get_coordinator s = find s.coordinator_id s.servers

unfoldable pub has_coordinator_replica : Server → Option ℤ
unfolding get_coordinator
has_coordinator_replica s = elim (get_coordinator s) [
  | none ↦ none
  | some r ↦ some s.coordinator_id
]

unfoldable pub has_election : Server → Bool
has_election s = elim s.election [ none ↦ false | some e ↦ true ]

-- `checkAliveBlocking` on every replica.
unfoldable pub check_all : (ℤ → Beat) → Map ℤ Replica → Map ℤ Replica
unfolding check_alive_blocking
check_all beat [] = []
check_all beat ((i, r) ∷ servers) =
    (i, (check_alive_blocking (beat i) r).1) ∷ check_all beat servers

-- The heartbeats of `startCoordinator`: for every other server, all are checked.
unfoldable pub check_rounds : (ℕ → ℤ → Beat) → ℤ → ℤ → List ℤ → ℕ → Map ℤ Replica → Map ℤ Replica
unfolding check_all
check_rounds beats coordinator own [] k servers = servers
check_rounds beats coordinator own (i ∷ is) k servers =
    if int_eq i coordinator || int_eq i own
    then check_rounds beats coordinator own is k servers
    else check_rounds beats coordinator own is (suc k) (check_all (beats k) servers)

module _ (c : Config) (beats : ℕ → ℤ → Beat) where
  -- `startCoordinator`, from the manager's part on.
  unfoldable pub announce : Server → List Note → Run (Unit {0})
  unfolding get_frontends replica_ids check_rounds
  announce s out =
      ran tt
        (record s {
          servers =
              check_rounds beats s.coordinator_id s.server_id (replica_ids s.servers) 0 s.servers;
          has_service_listener = true;
        })
        (out
          ++ map (λ f. coordinator_to f s.server_host s.server_port)
              (get_frontends s.manager.world.shared))

  unfoldable pub start_coordinator : Server → List Note → Run (Unit {0})
  unfolding announce
  start_coordinator s out =
      with_manager (set_is_coordinator c true s.manager) s out >>= λ _ s' out'. announce s' out'

  -- The flag of the new coordinator's replica; the exception of `getReplica` comes after the
  -- changes of the server.
  unfoldable pub mark_coordinator : ℤ → Server → List Note → Run (Unit {0})
  unfolding get_replica
  mark_coordinator i s out = elim (get_replica s i) [
    | none ↦ threw
    | some r ↦
        ran tt (record s { servers = modify i (λ r. record r { is_coordinator = true }) s.servers })
          out
  ]

  unfoldable pub set_coordinator : ℤ → Server → List Note → Run (Unit {0})
  unfolding start_coordinator mark_coordinator
  set_coordinator i s out =
      let own = int_eq i s.server_id in
      with_manager (set_is_coordinator c own s.manager)
        (record s { coordinator_id = i; is_coordinator = own }) out
      >>= λ _ s' out'. if own then start_coordinator s' out' else mark_coordinator i s' out'

-- `checkCoordinatorAlive`.
unfoldable pub check_coordinator_alive : Beat → Server → Run Bool
check_coordinator_alive b s =
    if int_eq s.coordinator_id (negsuc 0)
    then ran false s []
    else if int_eq s.coordinator_id s.server_id
    then ran true s []
    else elim (find s.coordinator_id s.servers) [
      | none ↦ threw
      | some r ↦
          ran (check_alive_blocking b r).0
            (record s {
              servers = modify s.coordinator_id (λ r. (check_alive_blocking b r).1) s.servers;
            })
            []
    ]
