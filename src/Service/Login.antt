-- ===== src/Service/Login.antt =====
-- `handleLogin`: a user is made at the first login, and a session at every one.
use file_syncer.Prelude.{◌||◌, none, some, List, [], ◌∷◌, ◌++◌, length, if◌then◌else◌, leb}
use file_syncer.Prelude.Int.{ℤ, pos, int_lt}
use file_syncer.Prelude.Text.{Text, bytes, is_empty}
use file_syncer.Config.{Config}
use file_syncer.Messages.{Request, login_ok}
use file_syncer.ServerState.{has_user, check_password, get_user_sessions}
use file_syncer.Transaction.Monad.{Payload}
use file_syncer.Manager.{Manager, Call, done, waits, ◌>>=◌}
use file_syncer.Service.{Reply, sent, refuse, Round, Others, transact, fresh_session}

module _ (c : Config) where
  -- From the count of the sessions on. The id is drawn and the session made under different locks.
  unfoldable pub open_session : Text → List ℤ → Others → Round → Manager → Call (List Reply)
  unfolding fresh_session
  open_session username rands others r m =
      let s = m.world.shared in
      if leb 2 (length (get_user_sessions s username))
      then done (refuse (bytes "Too many sessions")) m []
      else elim (fresh_session s rands) [
        | none ↦ waits
        | some session_id ↦
            transact c (Payload.create_session session_id username) r (others 4 m) >>= λ ok m' out.
            done
              (if ok
                then sent (login_ok (some session_id)) ∷ []
                else refuse (bytes "Error creating session"))
              m' out
      ]

  -- From the check of the password on.
  unfoldable pub enter : Text → Text → List ℤ → Others → Round → Manager → Call (List Reply)
  unfolding open_session
  enter username password rands others r m =
      let m' = others 2 m in
      if check_password m'.world.shared username password
      then open_session username rands others r (others 3 m')
      else done (refuse (bytes "Wrong password")) m' []

  -- The first round is for the new user, and the second for the session.
  unfoldable pub handle_login :
      Request → ℤ → List ℤ → Others → Round → Round → Manager → Call (List Reply)
  unfolding enter
  handle_login request session rands others r r' m =
      let username = request.username in
      let password = request.password in
      if is_empty username || is_empty password
      then done (refuse (bytes "Username or password empty")) m []
      else if int_lt (pos 0) session
      then done (refuse (bytes "Already logged in")) m []
      else (let m' = others 0 m in
          if has_user m'.world.shared username
          then enter username password rands others r' m'
          else (transact c (Payload.create_user username password) r (others 1 m') >>= λ ok m'' out.
              if ok
              then (enter username password rands others r' m'' >>= λ replies m3 out'.
                  done replies m3 (out ++ out'))
              else done (refuse (bytes "Error creating user")) m'' out))
