-- ===== src/Server/Agree.antt =====
-- That an election ends, and that the servers that take part agree on who has won it.
use file_syncer.Prelude.{
  ℕ, ◌≡◌, refl, sym, subst, ap, ◌∙◌, Bool, true, false, not, ◌||◌, some, is_some, List, [], ◌∷◌,
  ◌++◌, arith, Bool-cases, inl, inr,
}
use file_syncer.Prelude.Int.{ℤ, negsuc, int_eq, int_lt, int_eq_iff}
use file_syncer.Prelude.Map.{Map, find, int_key}
use file_syncer.Config.{Config}
use file_syncer.Replica.{Replica, Beat}
use file_syncer.Server.{
  Server, Election, new_election, Note, has_election, get_replica, replica_ids, get_replicas,
  set_coordinator,
}
use file_syncer.Server.Coherent.{Led}
use file_syncer.Server.Leader.{set_coordinator-Led}
use file_syncer.Server.Bully.{
  Heard, receive_answer, receive_answers, receive_coordinator_messages, receive_coordinator_message,
  highest, inform_election, with_election, elect, start_election,
}
use file_syncer.Server.Ends.{
  Returns, Returns-bind, Returns-Always, Returns-then, Returns-else, set_coordinator-Returns,
  win_election-Returns,
}
use file_syncer.Server.Sound.{Always-with_election}

-- Whether a message has come from a server with a larger id.
abbrev pub any_above : ℤ → List ℤ → Bool
any_above own [] = false
any_above own (i ∷ is) = int_lt own i || any_above own is

highest-above : (hi : ℤ) (is : List ℤ) → int_lt (highest hi is) hi ≡ false
unfolding highest
highest-above hi [] = ground arith
highest-above hi (i ∷ is) = ground (arith, highest-above hi is, highest-above i is)

highest-own : (own : ℤ) (is : List ℤ) → int_eq (highest own is) own ≡ not (any_above own is)
unfolding highest
highest-own own [] = ground arith
highest-own own (i ∷ is) = ground (arith, highest-own own is, highest-above i is)

-- The answers of a round leave the larger ids' highest, as the search in `startElection` does.
receive_answers-highest :
    (is : List ℤ) (e : Election)
    → (receive_answers is e).highest_alive_reply ≡ highest e.highest_alive_reply is
unfolding receive_answers receive_answer highest
receive_answers-highest [] e = refl
receive_answers-highest (i ∷ is) e = receive_answers-highest is (receive_answer i e) ∙ ground arith

receive_answers-victorious :
    (is : List ℤ) (e : Election) → (receive_answers is e).victorious ≡ e.victorious
unfolding receive_answers receive_answer
receive_answers-victorious [] e = refl
receive_answers-victorious (i ∷ is) e =
    receive_answers-victorious is (receive_answer i e) ∙ ground arith

named-stays :
    (is : List ℤ) (e : Election)
    → int_eq e.victorious (negsuc 0) ≡ false
    → (receive_coordinator_messages is e).victorious ≡ e.victorious
unfolding receive_coordinator_messages receive_coordinator_message
named-stays [] e h = refl
named-stays (i ∷ is) e h = ground (arith, named-stays is e)

-- The first coordinator that is named stays.
first-named :
    (m : ℤ) (is : List ℤ) (e : Election)
    → e.victorious ≡ negsuc 0
    → int_eq m (negsuc 0) ≡ false
    → (receive_coordinator_messages (m ∷ is) e).victorious ≡ m
unfolding receive_coordinator_messages receive_coordinator_message
first-named m is e h k = ground (arith, named-stays is (record e { victorious = m }))

-- What a server with the id `own` and these replicas hears in an election that `m` wins. The winner
-- hears no answer from a larger id. Every other server has a replica with a larger id, hears an answer
-- from such a server in every round, and at last that `m`, one of its replicas, coordinates.
pub data Hears (m own : ℤ) (servers : Map ℤ Replica) : List Heard → Type 0 where
  leads :
      {h : Heard} {hs : List Heard}
      → own ≡ m
      → any_above own h.answers ≡ false
      → Hears m own servers (h ∷ hs)
  waits :
      {h : Heard} {hs : List Heard}
      → any_above own (replica_ids servers) ≡ true
      → any_above own h.answers ≡ true
      → h.victories ≡ []
      → Hears m own servers hs
      → Hears m own servers (h ∷ hs)
  follows :
      {h : Heard} {hs : List Heard} {later : List ℤ}
      → any_above own (replica_ids servers) ≡ true
      → any_above own h.answers ≡ true
      → h.victories ≡ m ∷ later
      → is_some (find m servers) ≡ true
      → Hears m own servers (h ∷ hs)

-- `t` is the server `s` after an election that `m` has won.
pub record IsElected (m : ℤ) (s t : Server) : Type 0 where
  pub leader : t.coordinator_id ≡ m
  pub by_id : t.is_coordinator ≡ int_eq m s.server_id
  pub of_manager : t.manager.is_coordinator ≡ int_eq m s.server_id
  pub over : has_election t ≡ false

module _ (c : Config) (first second : ℕ → ℤ → Beat) where
  announced-Led :
      (m : ℤ) (e : Election) (s : Server) (out : List Note)
      → s.manager.is_transaction_active ≡ false
      → e.victorious ≡ m
      → is_some (get_replica s m) ≡ true
      → Returns (Led s m) (set_coordinator c first e.victorious (with_election e s) out)
  unfolding get_replica
  announced-Led m e s out h k r =
      subst
        (λ (i : ℤ).
          Returns (Led s i) (set_coordinator c first e.victorious (with_election e s) out))
        k
        (Returns-Always (Led (with_election e s) e.victorious) (Led s e.victorious) _
          (set_coordinator-Returns c first e.victorious (with_election e s) out h
            (λ _. subst (λ (i : ℤ). is_some (find i s.servers) ≡ true) (sym k) r))
          (Always-with_election (some e) s e.victorious _
            (set_coordinator-Led c first e.victorious (with_election e s) out)))

  answered :
      (b : Bool) (is : List ℤ) (e : Election) (own : ℤ)
      → any_above own is ≡ b
      → int_eq (receive_answers is (record e { highest_alive_reply = own })).highest_alive_reply own
        ≡ not b
  answered b is e own h =
      ap (λ (i : ℤ). int_eq i own)
        (receive_answers-highest is (record e { highest_alive_reply = own }))
      ∙ highest-own own is
      ∙ ap not h

  elect-Led :
      (m : ℤ) (hs : List Heard) (e : Election) (s : Server) (out : List Note)
      → int_eq m (negsuc 0) ≡ false
      → s.manager.is_transaction_active ≡ false
      → e.victorious ≡ negsuc 0
      → Hears m s.server_id s.servers hs
      → Returns (Led s m) (elect c first second hs e s out)
  unfolding elect receive_coordinator_messages get_replicas get_replica
  elect-Led m [] e s out n d v p = elim p [ ]
  elect-Led m (h ∷ hs) e s out n d v (leads own none_above) =
      let e' = receive_answers h.answers (record e { highest_alive_reply = s.server_id }) in
      let out' = out ++ inform_election s.server_id (get_replicas s) in
      subst (λ (i : ℤ). Returns (Led s i) (elect c first second (h ∷ hs) e s out)) own
        (elim (Bool-cases (int_eq (highest s.server_id (get_replicas s)) s.server_id)) [
          | inl p ↦ Returns-then _ _ _ _ p (
              win_election-Returns c first second (record e { highest_alive_reply = s.server_id }) s
                out d)
          | inr p ↦ Returns-else _ _ _ _ p (
              Returns-then _ _ _ _ (answered false h.answers e s.server_id none_above)
                (win_election-Returns c first second e' s out' d))
        ])
  elect-Led m (h ∷ hs) e s out n d v (waits known above silent p) =
      let e' = receive_answers h.answers (record e { highest_alive_reply = s.server_id }) in
      let out' = out ++ inform_election s.server_id (get_replicas s) in
      let still =
        receive_answers-victorious h.answers (record e { highest_alive_reply = s.server_id }) ∙ v in
      let same : receive_coordinator_messages h.victories e' ≡ e' =
        ap (λ is. receive_coordinator_messages is e') silent in
      Returns-else _ _ _ _ (highest-own s.server_id (get_replicas s) ∙ ap not known) (
        Returns-else _ _ _ _ (answered true h.answers e s.server_id above) (
          Returns-then _ _ _ _
            (ap (λ (x : Election). int_eq x.victorious (negsuc 0)) same
              ∙ (int_eq_iff e'.victorious (negsuc 0)).1 still)
            (elect-Led m hs _ s out' n d (ap (λ (x : Election). x.victorious) same ∙ still) p)))
  elect-Led m (h ∷ hs) e s out n d v (follows {later} known above named r) =
      let e' = receive_answers h.answers (record e { highest_alive_reply = s.server_id }) in
      let e'' = receive_coordinator_messages h.victories e' in
      let out' = out ++ inform_election s.server_id (get_replicas s) in
      let still =
        receive_answers-victorious h.answers (record e { highest_alive_reply = s.server_id }) ∙ v in
      let chosen : e''.victorious ≡ m =
        ap (λ is. (receive_coordinator_messages is e').victorious) named
        ∙ first-named m later e' still n in
      Returns-else _ _ _ _ (highest-own s.server_id (get_replicas s) ∙ ap not known) (
        Returns-else _ _ _ _ (answered true h.answers e s.server_id above) (
          Returns-else _ _ _ _ (ap (λ i. int_eq i (negsuc 0)) chosen ∙ n)
            (announced-Led m e'' s out' d chosen r)))

  -- An election that begins where none goes on and no transaction is to be rolled back ends, however many rounds go by in which no
  -- coordinator is named: where the winner, whose id is not -1, hears no answer from a larger id in its
  -- round, and every other server has a replica with a larger id, hears an answer from a larger id in every
  -- round, and in the last one first that the winner, one of its replicas, coordinates. Then
  -- all of them hold the same server for the coordinator, only that one coordinates, in its manager
  -- too, and no election goes on.
  pub start_election-IsElected :
      (m : ℤ) (hs : List Heard) (s : Server) (out : List Note)
      → int_eq m (negsuc 0) ≡ false
      → s.manager.is_transaction_active ≡ false
      → has_election s ≡ false
      → Hears m s.server_id s.servers hs
      → Returns (IsElected m s) (start_election c first second hs s out)
  unfolding start_election has_election Returns
  start_election-IsElected m hs s out n d free p = Returns-else _ _ _ _ free (
      Returns-bind (Led (with_election new_election s) m) (IsElected m s) _ _
        (elect-Led m hs new_election (with_election new_election s) out n d refl p)
        (λ _ t out' l. Returns-else _ _ _ _ (ap (λ i. int_eq i (negsuc 0)) l.leader ∙ n) (
          let same =
            ap (λ i. int_eq i t.server_id) l.leader ∙ ap (λ i. int_eq m i) l.follows.same_id in
          record {
            leader = l.leader;
            by_id = l.coherent.by_id ∙ same;
            of_manager = l.coherent.of_manager ∙ l.coherent.by_id ∙ same;
            over = refl;
          })))
