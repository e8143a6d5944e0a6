-- ===== src/Server/Reach.antt =====
-- A server of Server.cpp through the turns of its loop, the requests of its admin listener and its
-- heartbeats, in any order.
use file_syncer.Prelude.{ℕ, ◌≡◌, subst, Bool, true, false, ◌||◌, Option, List, [], ◌∷◌, arith}
use file_syncer.Prelude.Int.{ℤ, int_eq}
use file_syncer.Prelude.Map.{Map}
use file_syncer.Config.{Config}
use file_syncer.Replica.{Replica, Beat, AdminMsgType}
use file_syncer.Server.{Server, Note, ran, active_ids, get_active_servers}
use file_syncer.Server.Alive.{Fewer}
use file_syncer.Server.Outcome.{Always}
use file_syncer.Server.Coherent.{IsCoherent, Sound, Sound-refl, Sound-trans}
use file_syncer.Server.Bully.{Heard, start_turn, check_alive}
use file_syncer.Server.Admin.{handle_request}
use file_syncer.Server.Sound.{check_alive-Sound, start_turn-Sound, handle_request-Sound}

pub data Reaches (c : Config) (s : Server) : Server → Type 0 where
  here : Reaches c s s
  turn :
      {t u : Server} (first second : ℕ → ℤ → Beat) (beat : Beat) (hs : List Heard) (out : List Note)
      → Reaches c s t
      → start_turn c first second beat hs t [] ≡ ran tt u out
      → Reaches c s u
  request :
      {t u : Server} (first second : ℕ → ℤ → Beat) (r : Option (AdminMsgType × ℤ)) (hs : List Heard)
      (b : Bool) (out : List Note)
      → Reaches c s t
      → handle_request c first second r hs t [] ≡ ran b u out
      → Reaches c s u
  checked : {t : Server} (i : ℤ) (b : Beat) → Reaches c s t → Reaches c s (check_alive i b t)

-- However turns, admin requests and the ends of heartbeats follow one another, a server that begins coherent stays coherent:
-- it holds itself for the coordinator exactly where its manager does and where the coordinator's id
-- is its own. It keeps its id, and no replica that it has found dead is alive again.
pub Reaches-Sound : (c : Config) (s t : Server) → IsCoherent s → Reaches c s t → Sound s t
unfolding Always
Reaches-Sound c s _ h here = Sound-refl s h
Reaches-Sound c s u h (turn {t} first second beat hs out p e) =
    let k = Reaches-Sound c s t h p in
    Sound-trans s t u k
      (subst (Always (Sound t)) e (start_turn-Sound c first second beat hs t [] k.coherent))
Reaches-Sound c s u h (request {t} first second r hs b out p e) =
    let k = Reaches-Sound c s t h p in
    Sound-trans s t u k
      (subst (Always (Sound t)) e (handle_request-Sound c first second r hs t [] k.coherent))
Reaches-Sound c s _ h (checked {t} i b p) =
    let k = Reaches-Sound c s t h p in
    Sound-trans s t (check_alive i b t) k (check_alive-Sound i b t k.coherent)

abbrev pub is_in : ℤ → List ℤ → Bool
is_in i [] = false
is_in i (j ∷ is) = int_eq j i || is_in i is

active_ids-Fewer :
    (a b : Map ℤ Replica) (i : ℤ)
    → Fewer a b
    → is_in i (active_ids b) ≡ true
    → is_in i (active_ids a) ≡ true
unfolding Fewer active_ids
active_ids-Fewer [] [] i h k = k
active_ids-Fewer [] (q ∷ b) i h k = cc
active_ids-Fewer (r ∷ a) [] i h k = cc
active_ids-Fewer ((j, r) ∷ a) ((l, q) ∷ b) i h k =
    let rest = active_ids-Fewer a b i h.2 in
    let same = h.0 in let dead = h.1.dead in ground (arith, dead)

-- No server becomes active again for another: a replica that is among the active servers after any
-- turns, requests and heartbeats was among them before.
pub active_ids-Reaches :
    (c : Config) (s t : Server) (i : ℤ)
    → IsCoherent s
    → Reaches c s t
    → is_in i (get_active_servers t) ≡ true
    → is_in i (get_active_servers s) ≡ true
unfolding get_active_servers
active_ids-Reaches c s t i h p k =
    active_ids-Fewer s.servers t.servers i (Reaches-Sound c s t h p).follows.fewer k
