-- ===== src/Server/Bully.antt =====
-- src/server/Election.cpp, and `Server::startElection` and the loop of `Server::start`. The messages
-- that come in while an election waits are given for each of its rounds.
use file_syncer.Prelude.{ℕ, none, some, List, [], ◌∷◌, ◌++◌, map, if◌then◌else◌}
use file_syncer.Prelude.Int.{ℤ, negsuc, int_eq, int_lt}
use file_syncer.Prelude.Map.{modify, int_key}
use file_syncer.Config.{Config}
use file_syncer.Replica.{Beat, check_alive_blocking, election, election_coordinator}
use file_syncer.Server.{
  Server, Election, new_election, Note, admin_to, Run, ran, hangs, ◌>>=◌, get_replicas,
  has_election, start_coordinator, set_coordinator, check_coordinator_alive,
}

-- A larger id that answers is kept. Nobody is woken: the wait for answers ends with its time.
unfoldable pub receive_answer : ℤ → Election → Election
receive_answer i e =
    if int_lt e.highest_alive_reply i then record e { highest_alive_reply = i } else e

-- Only the first winner counts.
unfoldable pub receive_coordinator_message : ℤ → Election → Election
receive_coordinator_message i e =
    if int_eq e.victorious (negsuc 0) then record e { victorious = i } else e

-- The messages of one round: the senders of the answers that are in when the first wait ends, and of
-- the messages of a coordinator that are in when the second one does.
pub record Heard : Type 0 where
  pub answers : List ℤ
  pub victories : List ℤ

unfoldable pub receive_answers : List ℤ → Election → Election
unfolding receive_answer
receive_answers [] e = e
receive_answers (i ∷ is) e = receive_answers is (receive_answer i e)

unfoldable pub receive_coordinator_messages : List ℤ → Election → Election
unfolding receive_coordinator_message
receive_coordinator_messages [] e = e
receive_coordinator_messages (i ∷ is) e =
    receive_coordinator_messages is (receive_coordinator_message i e)

-- The `hi` of `startElection`.
unfoldable pub highest : ℤ → List ℤ → ℤ
highest hi [] = hi
highest hi (i ∷ is) = if int_lt hi i then highest i is else highest hi is

-- `getMoreImportantServers`, of the ids.
unfoldable pub more_important : ℤ → List ℤ → List ℤ
more_important own [] = []
more_important own (i ∷ is) =
    let rest = more_important own is in if int_lt own i then i ∷ rest else rest

unfoldable pub inform_election : ℤ → List ℤ → List Note
unfolding more_important
inform_election own ids = map (λ i. admin_to i election own) (more_important own ids)

unfoldable pub inform_victory : ℤ → List ℤ → List Note
inform_victory own ids = map (λ i. admin_to i election_coordinator own) ids

abbrev pub with_election : Election → Server → Server
with_election e s = record s { election = some e }

-- `first` and `second` are the heartbeats of the two times that `startCoordinator` runs.
module _ (c : Config) (first second : ℕ → ℤ → Beat) where
  unfoldable pub win_election : Election → Server → List Note → Run (Unit {0})
  unfolding set_coordinator get_replicas inform_victory start_coordinator
  win_election e s out =
      set_coordinator c first s.server_id (with_election (record e { victorious = s.server_id }) s)
        out
      >>= λ _ s' out'.
          start_coordinator c second s' (out' ++ inform_victory s'.server_id (get_replicas s'))

  -- `Election::startElection`, round by round. It still waits where no further round is given.
  unfoldable pub elect : List Heard → Election → Server → List Note → Run (Unit {0})
  unfolding win_election highest get_replicas
  elect [] e s out =
      if int_eq (highest s.server_id (get_replicas s)) s.server_id
      then win_election (record e { highest_alive_reply = s.server_id }) s out
      else hangs
  elect (h ∷ hs) e s out =
      let e' = receive_answers h.answers (record e { highest_alive_reply = s.server_id }) in
      let e'' = receive_coordinator_messages h.victories e' in
      let out' = out ++ inform_election s.server_id (get_replicas s) in
      let rest = elect hs e'' s out' in
      if int_eq (highest s.server_id (get_replicas s)) s.server_id
      then win_election (record e { highest_alive_reply = s.server_id }) s out
      else if int_eq e'.highest_alive_reply s.server_id
      then win_election e' s out'
      else if int_eq e''.victorious (negsuc 0)
      then rest
      else set_coordinator c first e''.victorious (with_election e'' s) out'

  -- `Server::startElection`. Where there is no coordinator after an election, its call of itself
  -- finds the election in place and returns.
  unfoldable pub start_election : List Heard → Server → List Note → Run (Unit {0})
  unfolding has_election elect
  start_election hs s out =
      if has_election s
      then ran tt s out
      else elect hs new_election (with_election new_election s) out >>= λ _ s' out'.
          if int_eq s'.coordinator_id (negsuc 0)
          then ran tt s' out'
          else ran tt (record s' { election = none }) out'

  -- One turn of the loop of `start`; `beat` is the heartbeat of the turn itself. A coordinator starts
  -- a thread of `checkAlive` for every replica and waits for none of them.
  unfoldable pub start_turn : Beat → List Heard → Server → List Note → Run (Unit {0})
  unfolding start_election check_coordinator_alive
  start_turn beat hs s out =
      if int_eq s.coordinator_id (negsuc 0)
      then start_election hs s out
      else if s.is_coordinator
      then ran tt s out
      else check_coordinator_alive beat s >>= λ alive s' _.
          if alive then ran tt s' out else start_election hs s' out

-- Replica.cpp: what a thread of `checkAlive` for the replica `i` has done when it ends.
unfoldable pub check_alive : ℤ → Beat → Server → Server
unfolding check_alive_blocking
check_alive i b s = record s { servers = modify i (λ r. (check_alive_blocking b r).1) s.servers }
