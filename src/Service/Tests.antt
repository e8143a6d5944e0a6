-- ===== src/Service/Tests.antt =====
-- The handlers on a small server.
use file_syncer.Prelude.{◌≡◌, refl, true, false, none, some, [], ◌∷◌, arith}
use file_syncer.Prelude.Int.{pos}
use file_syncer.Prelude.Text.{bytes, text_eq, text_lt, is_empty}
use file_syncer.Prelude.Map.{find, emplace, erase, text_key, int_key}
use file_syncer.Config.{get_tid_path, get_servers_dir}
use file_syncer.Messages.{RequestType, Request, FileUpdate}
use file_syncer.ServerState.{
  has_user, check_password, get_user_sessions, add_session, set_user_last_tid, set_last_tid,
  is_valid, is_session_valid, get_user_from_session,
}
use file_syncer.Transaction.FileChange.{record_of, committed_world}
use file_syncer.Manager.{do_transaction, add_vote, Manager, new_manager}
use file_syncer.Manager.Voting.{decide}
use file_syncer.Manager.TwoPhase.{IsFree, next_tid}
use file_syncer.Samples.{
  config, user, filename, content, disk, state, coordinator, room, no_temp_tid, no_temp_file,
}
use file_syncer.Service.{Round, handle_list, handle_download}
use file_syncer.Service.Dispatch.{Outside, handle_request}
use file_syncer.Service.Login.{handle_login}
use file_syncer.Service.Granted.{Grants, Granted, handle_login-Granted}
use file_syncer.Transaction.{run, commit}
use file_syncer.Disk.{has_parent, remove, rename, write_file, put, has_children}
use file_syncer.Utils.Decimal.{show_int}
use file_syncer.Service.Answers.{UploadAnswers, replies_of, answers-own, upload_answers}

abbrev announced : FileUpdate
announced = record {
  filename = filename;
  deleted = false;
  hash = (record_of config filename (pos 5) content).hash;
}

abbrev request_of : RequestType → Request
request_of t = record {
  request_type = t;
  username = [];
  password = [];
  filename = filename;
  file_update = announced;
  file_data_update = record { file_update = announced; data_bytes = content };
  frontend_subscription = record { hostname = []; port = pos 0 };
}

-- One other server, which votes yes.
abbrev one_yes : Round
one_yes = record {
  servers = pos 2 ∷ [];
  told = pos 2 ∷ [];
  during = [];
  later = (true, pos 5) ∷ [];
  after = pos 2 ∷ [];
}

abbrev outside : Outside
outside = record {
  rands = [];
  others = λ n m. m;
  user_round = one_yes;
  round = one_yes;
  next = none;
  states = [];
  sends = 0;
}

pair-IsFree : IsFree coordinator (pos 2 ∷ [])
unfolding new_manager
pair-IsFree = record { coordinates = refl; idle = refl; few = omega arith }

upload_answers_example :
    UploadAnswers config user filename content coordinator
      (decide (next_tid coordinator) 2 ((true, next_tid coordinator) ∷ (true, pos 5) ∷ []))
      (handle_request config outside (some (request_of RequestType.upload, pos 5)) coordinator)
unfolding new_manager is_session_valid get_user_from_session find
upload_answers_example =
    upload_answers config outside (request_of RequestType.upload) (pos 5) coordinator user filename
      content refl refl refl (λ n. refl) refl refl room no_temp_tid no_temp_file pair-IsFree
      (omega arith)

-- Another user has logged in.
abbrev joined : Manager
joined = record coordinator {
  world = record coordinator.world {
    shared = record coordinator.world.shared { senhas = (bytes "v", bytes "x") ∷ [] };
  };
}

answers-own_example :
    (handle_list user coordinator ≡ handle_list user joined)
    × (replies_of (handle_download config (request_of RequestType.download) user coordinator)
        ≡ replies_of (handle_download config (request_of RequestType.download) user joined))
answers-own_example =
    answers-own config user (request_of RequestType.download) coordinator joined refl refl

abbrev uploaded : Manager
uploaded = record coordinator {
  world = committed_world config user filename content (pos 5) disk state;
}

-- The user logs in from a second place.
abbrev credentials : Request
credentials = record {
  request_type = RequestType.login;
  username = user;
  password = bytes "pw";
  filename = [];
  file_update = announced;
  file_data_update = record { file_update = announced; data_bytes = [] };
  frontend_subscription = record { hostname = []; port = pos 0 };
}

logged_in : Grants (pos 9) (
    handle_login config credentials
      (pos 0)
      (pos 5 ∷ pos 9 ∷ [])
      (λ n m. m)
      one_yes
      one_yes
      coordinator)
unfolding handle_login do_transaction commit run new_manager has_user check_password
    get_user_sessions is_session_valid find text_eq is_empty get_tid_path get_servers_dir has_parent
    remove rename write_file add_session set_user_last_tid set_last_tid is_valid emplace erase
    text_lt put has_children show_int add_vote
logged_in = (_, _, refl)

handle_login-Granted_example :
    Granted (pos 9) config credentials (pos 5 ∷ pos 9 ∷ []) (λ n m. m) one_yes one_yes coordinator
handle_login-Granted_example =
    handle_login-Granted (pos 9) config credentials (pos 0) (pos 5 ∷ pos 9 ∷ []) (λ n m. m) one_yes
      one_yes coordinator logged_in
