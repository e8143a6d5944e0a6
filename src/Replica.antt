-- ===== src/Replica.antt =====
-- src/server/Replica.h and Replica.cpp: what a server knows of another one. `server` and `lastTid`
-- are left out: nothing reads them.
use file_syncer.Prelude.{ℕ, Bool, true, false, Option, none, some, if◌then◌else◌}
use file_syncer.Prelude.Int.{ℤ}
use file_syncer.Prelude.Text.{Text}
use file_syncer.Connection.{ConnectionArgs, host_args}

-- AdminMsgType of proto/message.proto.
pub data AdminMsgType : Type 0 where
  heartbeat election election_answer election_coordinator new_coordinator : AdminMsgType

-- `last_heartbeat` is not set before the first heartbeat.
pub record Replica : Type 0 where
  pub id : ℤ
  pub host : Text
  pub admin_port : ℤ
  pub service_port : ℤ
  pub transaction_port : ℤ
  pub is_coordinator : Bool
  pub is_alive : Bool
  pub last_heartbeat : Option ℕ

unfoldable pub new_replica : ℤ → Text → ℤ → ℤ → ℤ → Replica
new_replica id host admin_port service_port transaction_port = record {
  id = id;
  host = host;
  admin_port = admin_port;
  service_port = service_port;
  transaction_port = transaction_port;
  is_coordinator = false;
  is_alive = true;
  last_heartbeat = none;
}

unfoldable pub get_service_connection_args : Replica → ConnectionArgs
unfolding host_args
get_service_connection_args r = host_args r.host r.service_port

unfoldable pub get_admin_connection_args : Replica → ConnectionArgs
unfolding host_args
get_admin_connection_args r = host_args r.host r.admin_port

unfoldable pub get_transaction_connection_args : Replica → ConnectionArgs
unfolding host_args
get_transaction_connection_args r = host_args r.host r.transaction_port

-- One heartbeat: the type of the response, `none` where there is none in time; whether another
-- thread has found the replica dead before the response is looked at; and the time.
pub record Beat : Type 0 where
  pub response : Option AdminMsgType
  pub found_dead : Bool
  pub now : ℕ

-- `checkAliveBlocking`: whether the replica is alive, and what is known of it then.
unfoldable pub check_alive_blocking : Beat → Replica → Bool × Replica
check_alive_blocking b r = elim r.is_alive [
  | false ↦ (false, r)
  | true ↦
      let r' = if b.found_dead then record r { is_alive = false } else r in
      elim b.response [
        | none ↦ (false, record r' { is_alive = false })
        | some heartbeat ↦ (
          true,
          if r'.is_alive then record r' { is_alive = true; last_heartbeat = some b.now } else r',
        )
        | some _ ↦ (false, r')
      ]
]
