-- ===== src/Server/Sound.antt =====
-- Every turn of the loop of Server.cpp and every request of AdminRequestHandler.cpp keeps a server
-- coherent and its dead replicas dead, in any order.
use file_syncer.Prelude.{
  ℕ, sym, ◌∙◌, Bool, true, false, Option, none, some, List, [], ◌∷◌, ◌++◌, if◌then◌else◌,
}
use file_syncer.Prelude.Int.{ℤ, negsuc, int_eq, int_eq_iff}
use file_syncer.Prelude.Map.{Map, modify, find, int_key}
use file_syncer.Config.{Config}
use file_syncer.Replica.{
  Replica, Beat, AdminMsgType, heartbeat, election, election_answer, election_coordinator,
  new_coordinator, check_alive_blocking,
}
use file_syncer.Server.{
  Server, Election, new_election, Note, admin_to, Run, ran, hangs, threw, undefined_run, ◌>>=◌,
  has_election, get_replica, get_replicas, check_coordinator_alive,
}
use file_syncer.Server.Alive.{Fewer, modify-Fewer, check_alive_blocking-Ages}
use file_syncer.Server.Outcome.{Always, Always-bind, Always-if, Always-map}
use file_syncer.Server.Coherent.{
  IsCoherent, Led, Sound, Sound-refl, Sound-trans, with_servers-Led, then-Led, with_election-Led,
}
use file_syncer.Server.Leader.{start_coordinator-Led, set_coordinator-Led}
use file_syncer.Server.Bully.{
  Heard, receive_answers, receive_coordinator_messages, receive_answer, receive_coordinator_message,
  highest, inform_election, with_election, win_election, elect, start_election, start_turn,
  check_alive,
}
use file_syncer.Server.Admin.{handle_election, handle_answer, handle_coordinator, handle_request}

Led-Sound : {A : Type 0} (s : Server) (i : ℤ) (r : Run A) → Always (Led s i) r → Always (Sound s) r
unfolding Always
Led-Sound s i (ran a t out) l = record { follows = l.follows; coherent = l.coherent }
Led-Sound s i hangs l = tt
Led-Sound s i threw l = tt
Led-Sound s i undefined_run l = tt

pub Always-with_election :
    {A : Type 0} (e : Option Election) (s : Server) (i : ℤ) (r : Run A)
    → Always (Led (record s { election = e }) i) r
    → Always (Led s i) r
unfolding Always
Always-with_election e s i (ran a t out) l = with_election-Led e s t i l
Always-with_election e s i hangs l = tt
Always-with_election e s i threw l = tt
Always-with_election e s i undefined_run l = tt

with_servers-Sound :
    (s : Server) (m : Map ℤ Replica)
    → IsCoherent s
    → Fewer s.servers m
    → Sound s (record s { servers = m })
with_servers-Sound s m h k = record {
  follows = (with_servers-Led s m h k).follows;
  coherent = (with_servers-Led s m h k).coherent;
}

module _ (c : Config) (first second : ℕ → ℤ → Beat) where
  pub win_election-Led :
      (e : Election) (s : Server) (out : List Note)
      → Always (Led s s.server_id) (win_election c first second e s out)
  unfolding win_election
  win_election-Led e s out =
      let e' = record e { victorious = s.server_id } in
      Always-with_election (some e') s s.server_id _ (
        Always-bind (Led (with_election e' s) s.server_id) (Led (with_election e' s) s.server_id) _
          _ (set_coordinator-Led c first s.server_id (with_election e' s) out)
          (λ _ t out' l.
            let own = l.leader ∙ sym l.follows.same_id in
            then-Led (with_election e' s) t s.server_id _ l (
              start_coordinator-Led c second t _ own
                (l.coherent.by_id ∙ (int_eq_iff t.coordinator_id t.server_id).1 own))))

  elect-Sound :
      (hs : List Heard) (e : Election) (s : Server) (out : List Note)
      → Always (Sound s) (elect c first second hs e s out)
  unfolding elect Always
  elect-Sound [] e s out =
      let own = record e { highest_alive_reply = s.server_id } in
      Always-if (Sound s) (int_eq (highest s.server_id (get_replicas s)) s.server_id) _ hangs
        (Led-Sound s s.server_id _ (win_election-Led own s out)) tt
  elect-Sound (h ∷ hs) e s out =
      let own = record e { highest_alive_reply = s.server_id } in
      let e' = receive_answers h.answers own in
      let e'' = receive_coordinator_messages h.victories e' in
      let out' = out ++ inform_election s.server_id (get_replicas s) in
      Always-if (Sound s) (int_eq (highest s.server_id (get_replicas s)) s.server_id) _ _
        (Led-Sound s s.server_id _ (win_election-Led own s out))
        (Always-if (Sound s) (int_eq e'.highest_alive_reply s.server_id) _ _
          (Led-Sound s s.server_id _ (win_election-Led e' s out'))
          (Always-if (Sound s) (int_eq e''.victorious (negsuc 0)) _ _ (elect-Sound hs e'' s out') (
            Led-Sound s e''.victorious _ (
              Always-with_election (some e'') s e''.victorious _
                (set_coordinator-Led c first e''.victorious (with_election e'' s) out')))))

  -- The election alone may differ from a sound outcome.
  Sound-election :
      (e f : Option Election) (s t : Server)
      → Sound (record s { election = e }) t
      → Sound s (record t { election = f })
  Sound-election e f s t h = record {
    follows = record { same_id = h.follows.same_id; fewer = h.follows.fewer };
    coherent = record { by_id = h.coherent.by_id; of_manager = h.coherent.of_manager };
  }

  pub start_election-Sound :
      (hs : List Heard) (s : Server) (out : List Note)
      → IsCoherent s
      → Always (Sound s) (start_election c first second hs s out)
  unfolding start_election Always
  start_election-Sound hs s out h = Always-if (Sound s) (has_election s) _ _ (Sound-refl s h) (
      Always-bind (Sound (with_election new_election s)) (Sound s) _ _
        (elect-Sound hs new_election (with_election new_election s) out)
        (λ _ t out' k.
          Always-if (Sound s) (int_eq t.coordinator_id (negsuc 0)) _ _
            (Sound-election (some new_election) t.election s t k)
            (Sound-election (some new_election) none s t k)))

  check_coordinator_alive-Sound :
      (b : Beat) (s : Server) → IsCoherent s → Always (Sound s) (check_coordinator_alive b s)
  unfolding check_coordinator_alive Always
  check_coordinator_alive-Sound b s h =
      Always-if (Sound s) (int_eq s.coordinator_id (negsuc 0)) _ _ (Sound-refl s h) (
        Always-if (Sound s) (int_eq s.coordinator_id s.server_id) _ _ (Sound-refl s h)
          (elim (find s.coordinator_id s.servers)
            as (λ x. Always (Sound s) (elim x [
              | none ↦ threw
              | some r ↦
                  ran (check_alive_blocking b r).0
                    (record s {
                      servers =
                          modify s.coordinator_id (λ r. (check_alive_blocking b r).1) s.servers;
                    })
                    []
            ])) [
              | none ↦ tt
              | some r ↦ with_servers-Sound s _ h (
                  modify-Fewer s.coordinator_id (λ r. (check_alive_blocking b r).1) s.servers
                    (check_alive_blocking-Ages b))
            ]))

  -- A turn of the loop of `start`, where it ends, leaves a coherent server coherent, with its id, and
  -- none of its dead replicas alive.
  pub start_turn-Sound :
      (beat : Beat) (hs : List Heard) (s : Server) (out : List Note)
      → IsCoherent s
      → Always (Sound s) (start_turn c first second beat hs s out)
  unfolding start_turn Always
  start_turn-Sound beat hs s out h =
      Always-if (Sound s) (int_eq s.coordinator_id (negsuc 0)) _ _ (start_election-Sound hs s out h)
        (Always-if (Sound s) s.is_coordinator _ _ (Sound-refl s h) (
          Always-bind (Sound s) (Sound s) _ _ (check_coordinator_alive-Sound beat s h)
            (λ alive t _ k. Always-if (Sound s) alive _ _ k (
              Always-map (Sound t) (Sound s) _ (λ d. Sound-trans s t d k)
                (start_election-Sound hs t out k.coherent)))))

  receive-Sound :
      (f : Election → Election) (r : Run (Unit {0})) (s : Server) (out : List Note)
      → IsCoherent s
      → Always (Sound s) r
      → Always
          (Sound s)
          (elim s.election [ none ↦ r | some e ↦ ran tt (with_election (f e) s) out ])
  unfolding Always
  receive-Sound f r s out h k =
      elim s.election
        as (λ x.
          Always (Sound s) (elim x [ none ↦ r | some e ↦ ran tt (with_election (f e) s) out ])) [
            | none ↦ k
            | some e ↦ Sound-election s.election (some (f e)) s s (Sound-refl s h)
          ]

  handle_election-Sound :
      (i : ℤ) (hs : List Heard) (s : Server) (out : List Note)
      → IsCoherent s
      → Always (Sound s) (handle_election c first second i hs s out)
  unfolding handle_election Always
  handle_election-Sound i hs s out h =
      let out' = out ++ (admin_to i election_answer s.server_id ∷ []) in
      elim (get_replica s i)
        as (λ x. Always (Sound s) (elim x [
          | none ↦ threw
          | some r ↦
              if has_election s then ran tt s out' else start_election c first second hs s out'
        ])) [
          | none ↦ tt
          | some r ↦
              Always-if (Sound s) (has_election s) _ _ (Sound-refl s h)
                (start_election-Sound hs s out' h)
        ]

  returned-Sound :
      (b : Bool) (s : Server) (r : Run (Unit {0}))
      → Always (Sound s) r
      → Always (Sound s) (r >>= λ _ t out. ran b t out)
  unfolding Always
  returned-Sound b s r h = Always-bind (Sound s) (Sound s) r _ h (λ _ t out k. k)

  -- A request of the admin listener, where its handler ends, does so too.
  pub handle_request-Sound :
      (r : Option (AdminMsgType × ℤ)) (hs : List Heard) (s : Server) (out : List Note)
      → IsCoherent s
      → Always (Sound s) (handle_request c first second r hs s out)
  unfolding handle_request handle_answer handle_coordinator Always
  handle_request-Sound none hs s out h = Sound-refl s h
  handle_request-Sound (some (heartbeat, i)) hs s out h = Sound-refl s h
  handle_request-Sound (some (election, i)) hs s out h =
      returned-Sound false s _ (handle_election-Sound i hs s out h)
  handle_request-Sound (some (election_answer, i)) hs s out h =
      returned-Sound true s _
        (receive-Sound (receive_answer i) (ran tt s out) s out h (Sound-refl s h))
  handle_request-Sound (some (election_coordinator, i)) hs s out h = returned-Sound true s _ (
      receive-Sound (receive_coordinator_message i) _ s out h
        (Led-Sound s i _ (set_coordinator-Led c first i s out)))
  handle_request-Sound (some (new_coordinator, i)) hs s out h = Sound-refl s h

-- The end of a thread of `checkAlive` does so too.
pub check_alive-Sound : (i : ℤ) (b : Beat) (s : Server) → IsCoherent s → Sound s (check_alive i b s)
unfolding check_alive
check_alive-Sound i b s h =
    with_servers-Sound s _ h
      (modify-Fewer i (λ r. (check_alive_blocking b r).1) s.servers (check_alive_blocking-Ages b))
