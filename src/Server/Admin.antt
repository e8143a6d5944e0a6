-- ===== src/Server/Admin.antt =====
-- src/server/admin/AdminRequestHandler.cpp: what a server does on an admin message.
use file_syncer.Prelude.{
  Bool, true, false, Option, none, some, List, [], ◌∷◌, ◌++◌, if◌then◌else◌, ℕ,
}
use file_syncer.Prelude.Int.{ℤ}
use file_syncer.Config.{Config}
use file_syncer.Replica.{
  Beat, AdminMsgType, heartbeat, election, election_answer, election_coordinator, new_coordinator,
}
use file_syncer.Server.{
  Server, Note, admin_to, heartbeat_reply, Run, ran, threw, ◌>>=◌, has_election, get_replica,
  set_coordinator,
}
use file_syncer.Server.Bully.{
  Heard, receive_answer, receive_coordinator_message, with_election, start_election,
}

-- A branch of `handleRequest`, as `handle_coordinator` is.
unfoldable pub handle_answer : ℤ → Server → List Note → Run (Unit {0})
unfolding receive_answer
handle_answer sender s out = elim s.election [
  | none ↦ ran tt s out
  | some e ↦ ran tt (with_election (receive_answer sender e) s) out
]

unfoldable pub handle_coordinator :
    Config → (ℕ → ℤ → Beat) → ℤ → Server → List Note → Run (Unit {0})
unfolding receive_coordinator_message set_coordinator
handle_coordinator c beats sender s out = elim s.election [
  | none ↦ set_coordinator c beats sender s out
  | some e ↦ ran tt (with_election (receive_coordinator_message sender e) s) out
]

module _ (c : Config) (first second : ℕ → ℤ → Beat) where
  -- The answer goes to the sender's replica; `getReplica` throws where there is none.
  unfoldable pub handle_election : ℤ → List Heard → Server → List Note → Run (Unit {0})
  unfolding get_replica has_election start_election
  handle_election sender hs s out = elim (get_replica s sender) [
    | none ↦ threw
    | some r ↦
        let out' = out ++ (admin_to sender election_answer s.server_id ∷ []) in
        if has_election s then ran tt s out' else start_election c first second hs s out'
  ]

  -- The result is whether the connection is still open. `none` is a request that could not be received.
  unfoldable pub handle_request :
      Option (AdminMsgType × ℤ) → List Heard → Server → List Note → Run Bool
  unfolding handle_election handle_answer handle_coordinator
  handle_request none hs s out = ran false s out
  handle_request (some (heartbeat, sender)) hs s out = ran false s (out ++ (heartbeat_reply ∷ []))
  handle_request (some (election, sender)) hs s out =
      handle_election sender hs s out >>= λ _ s' out'. ran false s' out'
  handle_request (some (election_answer, sender)) hs s out =
      handle_answer sender s out >>= λ _ s' out'. ran true s' out'
  handle_request (some (election_coordinator, sender)) hs s out =
      handle_coordinator c first sender s out >>= λ _ s' out'. ran true s' out'
  handle_request (some (new_coordinator, sender)) hs s out = ran true s out
