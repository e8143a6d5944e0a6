-- ===== src/Server/Begin.antt =====
-- The constructor of Server.cpp, on a config.txt and a disk, and `Server::start` to the end of its loop.
use file_syncer.Prelude.{
  ℕ, ◌≡◌, ◌≢◌, ◌∙◌, sym, subst, false, Option, none, some, List, [], ◌∷◌, if◌then◌else◌, arith,
}
use file_syncer.Prelude.Int.{ℤ, pos, negsuc, int_eq, int_eq_iff}
use file_syncer.Prelude.Text.{Text}
use file_syncer.Utils.{Xxh64}
use file_syncer.Config.{Config}
use file_syncer.Disk.{Disk}
use file_syncer.ServerState.Startup.{init}
use file_syncer.ServerState.{ServerState}
use file_syncer.Manager.{new_manager}
use file_syncer.Replica.{Beat}
use file_syncer.Server.{Server, Note, Run, ran, ◌>>=◌}
use file_syncer.Server.ConfigFile.{
  Settings, Loaded, loaded, undefined_settings, get_lines, find_syncer_dir, load_config,
}
use file_syncer.Server.ConfigFile
use file_syncer.Server.Bully.{Heard, start_election, start_turn}
use file_syncer.Server.Outcome.{Always, Always-bind, Always-map, Always-if}
use file_syncer.Server.Coherent.{IsCoherent, Sound, Sound-refl, Sound-trans}
use file_syncer.Server.Reach.{Reaches, Reaches-Sound}
use file_syncer.Server.Sound.{start_turn-Sound, start_election-Sound}

-- What the constructor comes to.
pub data Made : Type 0 where
  made : Server → Made
  exits : Made
  threw_up : Made
  undefined_server : Made

-- The members after `loadConfig`; nobody coordinates yet.
unfoldable pub server_of : Settings → Disk → ServerState → Server
unfolding new_manager
server_of t d s = record {
  server_id = t.server_id;
  server_port = t.server_port;
  server_admin_port = t.server_admin_port;
  server_transaction_port = t.server_transaction_port;
  server_host = t.server_host;
  warmup_time = pos t.warmup_time;
  servers = t.servers;
  coordinator_id = negsuc 0;
  is_coordinator = false;
  election = none;
  has_service_listener = false;
  manager = new_manager false d s;
}

module _ (home : Text) (xxh64 : Xxh64) where
  -- `Server::Server`: the scan of the directory that config.txt names first, then the file.
  unfoldable pub new_server : Option Text → Disk → Made
  unfolding load_config init server_of find_syncer_dir get_lines
  new_server none d = exits
  new_server (some content) d =
      let dir = find_syncer_dir (get_lines content) in
      elim (init (record { home = home; server_dir = dir; xxh64 = xxh64 }) d) [
        | none ↦ threw_up
        | some (d', s) ↦ elim (load_config (some content)) [
          | loaded t ↦ made (server_of t d' s)
          | ConfigFile.threw ↦ threw_up
          | undefined_settings ↦ undefined_server
          | ConfigFile.exits ↦ exits
        ]
      ]

-- One turn of the loop, with what it hears.
pub record Turn : Type 0 where
  pub first : ℕ → ℤ → Beat
  pub second : ℕ → ℤ → Beat
  pub beat : Beat
  pub heard : List Heard

module _ (c : Config) where
  -- The loop of `start`, over the turns before `stop`.
  unfoldable pub start_loop : List Turn → Server → List Note → Run (Unit {0})
  unfolding start_turn
  start_loop [] s out = ran tt s out
  start_loop (t ∷ turns) s out =
      start_turn c t.first t.second t.beat t.heard s out >>= λ _ s' out'. start_loop turns s' out'

  -- `start`, from the end of the warmup on.
  unfoldable pub start : Turn → List Turn → Server → List Note → Run (Unit {0})
  unfolding start_election start_loop
  start t turns s out =
      (if int_eq s.coordinator_id (negsuc 0)
        then start_election c t.first t.second t.heard s out
        else ran tt s out)
      >>= λ _ s' out'. start_loop turns s' out'

  start_loop-Sound :
      (turns : List Turn) (s : Server) (out : List Note)
      → IsCoherent s
      → Always (Sound s) (start_loop turns s out)
  unfolding start_loop Always
  start_loop-Sound [] s out h = Sound-refl s h
  start_loop-Sound (t ∷ turns) s out h =
      Always-bind (Sound s) (Sound s) _ _
        (start_turn-Sound c t.first t.second t.beat t.heard s out h)
        (λ _ s' out' k.
          Always-map (Sound s') (Sound s) _ (λ d. Sound-trans s s' d k)
            (start_loop-Sound turns s' out' k.coherent))

  started-Sound :
      (t : Turn) (turns : List Turn) (s : Server) (out : List Note)
      → IsCoherent s
      → Always (Sound s) (start t turns s out)
  unfolding start Always
  started-Sound t turns s out h =
      Always-bind (Sound s) (Sound s) _ _
        (Always-if (Sound s) (int_eq s.coordinator_id (negsuc 0)) _ _
          (start_election-Sound c t.first t.second t.heard s out h) (Sound-refl s h))
        (λ _ s' out' k.
          Always-map (Sound s') (Sound s) _ (λ d. Sound-trans s s' d k)
            (start_loop-Sound turns s' out' k.coherent))

module _ (home : Text) (xxh64 : Xxh64) (file : Option Text) (d : Disk) (s : Server)
    (e : new_server home xxh64 file d ≡ made s) where
  -- Nobody coordinates.
  NoCoordinator : Server → Type 0
  NoCoordinator t =
      (t.is_coordinator ≡ false)
      × (t.coordinator_id ≡ negsuc 0)
      × (t.manager.is_coordinator ≡ false)

  new_server-NoCoordinator : NoCoordinator s
  unfolding new_server server_of new_manager NoCoordinator
  new_server-NoCoordinator =
      elim file as (λ f. new_server home xxh64 f d ≡ made s → NoCoordinator s) [
        | none ↦ λ k. ground arith
        | some content ↦ λ k. ground arith
      ]
        e

  new_server-IsCoherent : s.server_id ≢ negsuc 0 → IsCoherent s
  unfolding NoCoordinator
  new_server-IsCoherent h =
      let n = new_server-NoCoordinator in
      let other : int_eq s.coordinator_id s.server_id ≡ false =
        ground (arith, n.1, h, int_eq_iff s.coordinator_id s.server_id) in
      record { by_id = n.0 ∙ sym other; of_manager = n.2 ∙ sym n.0 }

  -- A server that is made from config.txt and a disk, with an id other than -1, and started, is
  -- coherent after its loop, however the loop has turned, and after any turns, admin requests and ends of
  -- heartbeats that follow: it holds itself for the coordinator exactly where its manager does and where
  -- the coordinator's id is its own. It keeps the id of the file, and no replica that it has found
  -- dead is alive again.
  pub start-Sound :
      (c : Config) (t : Turn) (turns : List Turn) (s' : Server) (out : List Note) (u : Server)
      → s.server_id ≢ negsuc 0
      → start c t turns s [] ≡ ran tt s' out
      → Reaches c s' u
      → Sound s u
  unfolding Always
  start-Sound c t turns s' out u h k r =
      let started =
        subst (Always (Sound s)) k (started-Sound c t turns s [] (new_server-IsCoherent h)) in
      Sound-trans s s' u started (Reaches-Sound c s' u started.coherent r)
