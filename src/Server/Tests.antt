-- ===== src/Server/Tests.antt =====
-- Runs of Server.cpp, Election.cpp and AdminRequestHandler.cpp.
use file_syncer.Utils.Decimal.{is_space}
use file_syncer.Config.{get_servers_dir}
use file_syncer.Prelude.{◌≡◌, ◌≢◌, refl, true, false, none, some, [], ◌∷◌, arith}
use file_syncer.Prelude.Int.{ℤ, pos, negsuc}
use file_syncer.Prelude.Text.{Text, bytes, text_eq}
use file_syncer.Disk.{Disk, directory, create_directory}
use file_syncer.ServerState.{empty_state}
use file_syncer.Server.Begin.{server_of, new_server, made, start, Turn, start-Sound}
use file_syncer.Server.ConfigFile.{default_settings}
use file_syncer.Server.{ran}
use file_syncer.Samples.{config}
use file_syncer.Samples
use file_syncer.Replica.{Replica, Beat, heartbeat, new_replica}
use file_syncer.Server.{Server, has_election, replica_ids}
use file_syncer.Prelude.Map.{find, modify, int_key}
use file_syncer.Manager.{new_manager, set_is_coordinator}
use file_syncer.Server.Coherent.{IsCoherent, Sound}
use file_syncer.Server.Bully.{Heard, start_election, start_turn, receive_answers}
use file_syncer.Server.Ends.{Returns}
use file_syncer.Server.Agree.{follows, IsElected, start_election-IsElected}
use file_syncer.Server.Reach.{Reaches, here, turn, Reaches-Sound}
use file_syncer.Server.ConfigFile.{parse_server_line, entry}
use file_syncer.Server.ServerLine.{print_fields, with_comment, end_of, parse_server_line-print}

abbrev other : Replica
other = record {
  id = pos 2;
  host = bytes "h";
  admin_port = pos 3;
  service_port = pos 4;
  transaction_port = pos 5;
  is_coordinator = true;
  is_alive = true;
  last_heartbeat = none;
}

-- The server 1, which knows that 2 coordinates.
abbrev server : Server
server = record {
  server_id = pos 1;
  server_port = pos 7;
  server_admin_port = pos 8;
  server_transaction_port = pos 9;
  server_host = bytes "s";
  warmup_time = pos 0;
  servers = (pos 2, other) ∷ [];
  coordinator_id = pos 2;
  is_coordinator = false;
  election = none;
  has_service_listener = false;
  manager = Samples.replica;
}

abbrev alive : ℤ → Beat
alive i = record { response = some heartbeat; found_dead = false; now = 6 }

abbrev silent : ℤ → Beat
silent i = record { response = none; found_dead = false; now = 6 }

abbrev named : Heard
named = record { answers = pos 2 ∷ []; victories = pos 2 ∷ [] }

start_election-IsElected_example :
    Returns
      (IsElected (pos 2) server)
      (start_election config (λ k. alive) (λ k. alive) (named ∷ []) server [])
unfolding new_manager has_election replica_ids find
start_election-IsElected_example =
    start_election-IsElected config (λ k. alive) (λ k. alive) (pos 2) (named ∷ []) server [] refl
      refl refl (follows refl refl refl refl)

server-IsCoherent : IsCoherent server
unfolding new_manager
server-IsCoherent = record { by_id = refl; of_manager = refl }

-- A turn in which 2 does not answer, and nobody takes part in the election.
abbrev server_leads : Server
server_leads = record server {
  servers = (pos 2, record other { is_alive = false }) ∷ [];
  coordinator_id = pos 1;
  is_coordinator = true;
  has_service_listener = true;
  manager = Samples.coordinator;
}

turn_silent : Reaches config server server_leads
unfolding start_turn find modify receive_answers set_is_coordinator new_manager
turn_silent =
    turn (λ k. silent) (λ k. silent) (silent (pos 2)) (record { answers = []; victories = [] } ∷ [])
      _ here refl

Reaches-Sound_example : Sound server server_leads
Reaches-Sound_example = Reaches-Sound config server server_leads server-IsCoherent turn_silent

parse_server_line-print_example :
    parse_server_line (
      with_comment (some (bytes "c")) (
        b'-'
        ∷ b' '
        ∷ print_fields
            (new_replica (pos 3) (bytes "10.0.0.1") (pos 5) (negsuc 3) (pos 0))
            (end_of (some (bytes "c")))))
    ≡ entry (new_replica (pos 3) (bytes "10.0.0.1") (pos 5) (negsuc 3) (pos 0))
unfolding is_space
parse_server_line-print_example =
    parse_server_line-print (pos 3) (negsuc 3) (pos 5) (pos 0) b'1' (bytes "0.0.0.1")
      (some (bytes "c")) (omega arith) refl (omega arith) (omega arith) (omega arith)

-- A server alone, on an empty directory.
abbrev config_file : Text
config_file = bytes "server_id: 1\nsyncer_dir: s/\n"

abbrev empty_disk : Disk
empty_disk = (bytes "/h/s", directory) ∷ []

abbrev alone : Server
alone =
    server_of (record (default_settings (bytes "s/")) { server_id = pos 1 }) empty_disk empty_state

abbrev quiet : Turn
quiet = record { first = λ k. silent; second = λ k. silent; beat = silent (pos 1); heard = [] }

abbrev alone_leads : Server
alone_leads = record alone {
  coordinator_id = pos 1;
  is_coordinator = true;
  has_service_listener = true;
  manager = new_manager true empty_disk empty_state;
}

alone-made : new_server (bytes "/h") config.xxh64 (some config_file) empty_disk ≡ made alone
unfolding new_server create_directory find text_eq get_servers_dir
alone-made = refl

alone-started : start config quiet (quiet ∷ []) alone [] ≡ ran tt alone_leads []
unfolding start server_of default_settings set_is_coordinator empty_state
alone-started = refl

alone_id : alone.server_id ≢ negsuc 0
unfolding server_of
alone_id e = ground arith

start-Sound_example : Sound alone alone_leads
start-Sound_example =
    start-Sound (bytes "/h") config.xxh64 (some config_file) empty_disk alone alone-made config
      quiet (quiet ∷ []) alone_leads [] alone_leads alone_id alone-started here
