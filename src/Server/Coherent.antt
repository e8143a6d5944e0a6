-- ===== src/Server/Coherent.antt =====
-- What a server is after calls of Server.cpp: coherent, with its id, and led by a coordinator.
use file_syncer.Prelude.{◌≡◌, refl, ◌∙◌, Option}
use file_syncer.Prelude.Int.{ℤ, int_eq}
use file_syncer.Prelude.Map.{Map, int_key}
use file_syncer.Replica.{Replica}
use file_syncer.Server.Outcome.{Always}
use file_syncer.Server.Alive.{Fewer, Fewer-refl, Fewer-trans}
use file_syncer.Server.{Election, Server, Run, ran, hangs, threw, undefined_run}

-- The server, its id and its manager agree on who coordinates.
pub record IsCoherent (s : Server) : Type 0 where
  pub by_id : s.is_coordinator ≡ int_eq s.coordinator_id s.server_id
  pub of_manager : s.manager.is_coordinator ≡ s.is_coordinator

-- `t` is `s` after calls that change its replicas and who coordinates.
pub record Follows (s t : Server) : Type 0 where
  pub same_id : t.server_id ≡ s.server_id
  pub fewer : Fewer s.servers t.servers

-- `t` is `s` with the coordinator `i`.
pub record Led (s : Server) (i : ℤ) (t : Server) : Type 0 where
  pub follows : Follows s t
  pub coherent : IsCoherent t
  pub leader : t.coordinator_id ≡ i

pub Follows-trans : (a b d : Server) → Follows a b → Follows b d → Follows a d
Follows-trans a b d h k = record {
  same_id = k.same_id ∙ h.same_id;
  fewer = Fewer-trans a.servers b.servers d.servers h.fewer k.fewer;
}

pub Led-trans : (a b d : Server) (i j : ℤ) → Led a i b → Led b j d → Led a j d
Led-trans a b d i j h k = record {
  follows = Follows-trans a b d h.follows k.follows;
  coherent = k.coherent;
  leader = k.leader;
}

-- Changes of the replicas alone.
pub with_servers-Led :
    (s : Server) (m : Map ℤ Replica)
    → IsCoherent s
    → Fewer s.servers m
    → Led s s.coordinator_id (record s { servers = m })
with_servers-Led s m h k = record {
  follows = record { same_id = refl; fewer = k };
  coherent = record { by_id = h.by_id; of_manager = h.of_manager };
  leader = refl;
}

-- What follows a call that has made `i` the coordinator keeps it.
pub then-Led :
    {A : Type 0} (s t : Server) (i : ℤ) (r : Run A)
    → Led s i t
    → Always (Led t t.coordinator_id) r
    → Always (Led s i) r
unfolding Always
then-Led s t i (ran a d out) l h = record {
  follows = Follows-trans s t d l.follows h.follows;
  coherent = h.coherent;
  leader = h.leader ∙ l.leader;
}
then-Led s t i hangs l h = tt
then-Led s t i threw l h = tt
then-Led s t i undefined_run l h = tt

-- The election in a server says nothing of who coordinates.
pub with_election-Led :
    (e : Option Election) (s t : Server) (i : ℤ) → Led (record s { election = e }) i t → Led s i t
with_election-Led e s t i l = record {
  follows = record { same_id = l.follows.same_id; fewer = l.follows.fewer };
  coherent = l.coherent;
  leader = l.leader;
}

-- What each call does: the server is coherent where it was, has the same id, and no dead replica is
-- alive again.
pub record Sound (s t : Server) : Type 0 where
  pub follows : Follows s t
  pub coherent : IsCoherent t

pub Sound-refl : (s : Server) → IsCoherent s → Sound s s
Sound-refl s h = record {
  follows = record { same_id = refl; fewer = Fewer-refl s.servers };
  coherent = h;
}

pub Sound-trans : (a b d : Server) → Sound a b → Sound b d → Sound a d
Sound-trans a b d h k = record {
  follows = Follows-trans a b d h.follows k.follows;
  coherent = k.coherent;
}
