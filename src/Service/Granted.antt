-- ===== src/Service/Granted.antt =====
-- What LOGIN_OK says of the user and the session.
use file_syncer.Prelude.{
  ◌≤◌, ◌≡◌, ◌⊎◌, refl, ap, subst, ◌∙◌, ◌||◌, Bool, true, false, Option, none, some, List, [], ◌∷◌,
  ◌++◌, length, arith, if◌then◌else◌, inl, inr, leb,
}
use file_syncer.Prelude.Int.{ℤ, pos, int_lt}
use file_syncer.Prelude.Text.{Text, bytes, is_empty}
use file_syncer.Config.{Config}
use file_syncer.Messages.{Request, login_ok}
use file_syncer.ServerState.{
  ServerState, is_session_valid, check_password, get_user_sessions, has_user,
}
use file_syncer.Transaction.Monad.{Payload}
use file_syncer.Manager.{Manager, Sent, Call, done, waits, crashes, undefined_call, ◌>>=◌}
use file_syncer.Service.{Reply, sent, refuse, Round, Others, fresh_session, transact}
use file_syncer.Service.Login.{open_session, enter, handle_login}

fresh_session-free :
    (s : ServerState) (rands : List ℤ) (i : ℤ)
    → fresh_session s rands ≡ some i
    → is_session_valid s i ≡ false
unfolding fresh_session
fresh_session-free s [] i e = ground arith
fresh_session-free s (j ∷ rands) i e = ground (arith, fresh_session-free s rands i)

-- A transaction that is accepted.
abbrev Succeeds : Call Bool → Type 0
Succeeds call = (m : Manager) × (out : List Sent) × (call ≡ done true m out)

-- A call that gives this session.
abbrev pub Grants : ℤ → Call (List Reply) → Type 0
Grants i call =
    (m : Manager) × (out : List Sent) × (call ≡ done (sent (login_ok (some i)) ∷ []) m out)

module _ (i : ℤ) where
  refuse-Grants :
      (msg : Text) (m : Manager) (out : List Sent) → Grants i (done (refuse msg) m out) → ⊥
  refuse-Grants msg m out (m', out', e) = ground arith

  opened :
      (session_id : ℤ) (call : Call Bool)
      → Grants i (
          call >>= λ ok m out.
          done
            (if ok
              then sent (login_ok (some session_id)) ∷ []
              else refuse (bytes "Error creating session"))
            m
            out)
      → (session_id ≡ i) × Succeeds call
  opened session_id (done true m out) (m', out', e) = (ground arith, (m, out, refl))
  opened session_id (done false m out) (m', out', e) = ground arith
  opened session_id waits (m', out', e) = ground arith
  opened session_id crashes (m', out', e) = ground arith
  opened session_id undefined_call (m', out', e) = ground arith

  more_sent :
      (call : Call (List Reply)) (out : List Sent)
      → Grants i (call >>= λ replies m out'. done replies m (out ++ out'))
      → Grants i call
  more_sent (done replies m out') out (m', out'', e) =
      let same : replies ≡ sent (login_ok (some i)) ∷ [] = ground arith in
      (m, out', ap (λ (rs : List Reply). done rs m out') same)
  more_sent waits out (m', out'', e) = ground arith
  more_sent crashes out (m', out'', e) = ground arith
  more_sent undefined_call out (m', out'', e) = ground arith

module _ (i : ℤ) (c : Config) (username password : Text) (rands : List ℤ) (others : Others)
    (r' : Round) where
  -- The session's transaction has succeeded, from a state in which the user had at most one session
  -- and the id was free.
  abbrev Opened : Manager → Type 0
  Opened m =
      (length (get_user_sessions m.world.shared username) ≤ 1)
      × (is_session_valid m.world.shared i ≡ false)
      × Succeeds (transact c (Payload.create_session i username) r' (others 4 m))

  -- The password was right before.
  abbrev Entered : Manager → Type 0
  Entered m =
      (check_password (others 2 m).world.shared username password ≡ true)
      × Opened (others 3 (others 2 m))

  counted :
      (m : Manager) (full : Bool) (o : Option ℤ)
      → leb 2 (length (get_user_sessions m.world.shared username)) ≡ full
      → fresh_session m.world.shared rands ≡ o
      → Grants i (
          if full then done (refuse (bytes "Too many sessions")) m [] else elim o [
            | none ↦ waits
            | some session_id ↦
                transact c (Payload.create_session session_id username) r' (others 4 m)
                >>= λ ok m' out.
                    done
                      (if ok
                        then sent (login_ok (some session_id)) ∷ []
                        else refuse (bytes "Error creating session"))
                      m'
                      out
          ])
      → Opened m
  counted m true o e h g = absurd (refuse-Grants i (bytes "Too many sessions") m [] g)
  counted m false none e h (m', out', k) = ground arith
  counted m false (some session_id) e h g =
      let found =
        opened i session_id
          (transact c (Payload.create_session session_id username) r' (others 4 m)) g in
      (
        ground arith,
        fresh_session-free m.world.shared rands i (h ∙ ap some found.0),
        subst (λ (j : ℤ). Succeeds (transact c (Payload.create_session j username) r' (others 4 m)))
            found.0 found.1,
      )

  open_session-Opened :
      (m : Manager) → Grants i (open_session c username rands others r' m) → Opened m
  unfolding open_session
  open_session-Opened m g = counted m _ _ refl refl g

  checked :
      (m : Manager) (right : Bool)
      → check_password m.world.shared username password ≡ right
      → Grants i (
          if right
          then open_session c username rands others r' (others 3 m)
          else done (refuse (bytes "Wrong password")) m [])
      → (check_password m.world.shared username password ≡ true) × Opened (others 3 m)
  checked m true e g = (e, open_session-Opened (others 3 m) g)
  checked m false e g = absurd (refuse-Grants i (bytes "Wrong password") m [] g)

  enter-Entered : (m : Manager) → Grants i (enter c username password rands others r' m) → Entered m
  unfolding enter
  enter-Entered m g = checked (others 2 m) _ refl g

  -- The user was there, or has just been made.
  abbrev Known : Round → Manager → Manager → Type 0
  Known r m x =
      ((x ≡ m) × (has_user m.world.shared username ≡ true))
      ⊎ ((out : List Sent) × (transact c (Payload.create_user username password) r (others 1 m)
            ≡ done true x out))

  abbrev after_create : Call Bool → Call (List Reply)
  after_create call = call >>= λ ok m out.
      if ok
      then (enter c username password rands others r' m >>= λ replies m' out'.
          done replies m' (out ++ out'))
      else done (refuse (bytes "Error creating user")) m out

  created :
      (call : Call Bool)
      → Grants i (after_create call)
      → (x : Manager) × (out : List Sent) × (call ≡ done true x out) × Entered x
  created (done true m out) g = (
    m,
    out,
    refl,
    enter-Entered m (more_sent i (enter c username password rands others r' m) out g),
  )
  created (done false m out) g = absurd (refuse-Grants i (bytes "Error creating user") m out g)
  created waits (m', out', e) = ground arith
  created crashes (m', out', e) = ground arith
  created undefined_call (m', out', e) = ground arith

  known :
      (r : Round) (m : Manager) (there : Bool)
      → has_user m.world.shared username ≡ there
      → Grants i (
          if there
          then enter c username password rands others r' m
          else after_create (transact c (Payload.create_user username password) r (others 1 m)))
      → (x : Manager) × Known r m x × Entered x
  known r m true e g = (m, inl (refl, e), enter-Entered m g)
  known r m false e g =
      let new = created (transact c (Payload.create_user username password) r (others 1 m)) g in
      (new.0, inr (new.1, new.2), new.3)

-- What LOGIN_OK with a session id says: the user was there, or was made by a transaction with this
-- password; then the password was right; then the user had at most one session and the id was
-- free; and then the session's transaction succeeded.
abbrev pub Granted : ℤ → Config → Request → List ℤ → Others → Round → Round → Manager → Type 0
Granted i c request rands others r r' m =
    (x : Manager) × Known i c request.username request.password rands others r' r (others 0 m) x
    × Entered i c request.username request.password rands others r' x

-- Whatever other threads do between the locks, and however the transactions end, a login that is
-- answered with a session id is granted: the user was there when it was looked up, or was made by
-- this login's transaction; after that the password was right; after that the user had at most one
-- session and the id was free; and after that the transaction for this session succeeded.
pub handle_login-Granted :
    (i : ℤ) (c : Config) (request : Request) (session : ℤ) (rands : List ℤ) (others : Others)
    (r r' : Round) (m : Manager)
    → Grants i (handle_login c request session rands others r r' m)
    → Granted i c request rands others r r' m
unfolding handle_login
handle_login-Granted i c request session rands others r r' m g =
    guarded (is_empty request.username || is_empty request.password) (int_lt (pos 0) session) g
  where
    guarded :
        (unnamed again : Bool)
        → Grants i (
            if unnamed
            then done (refuse (bytes "Username or password empty")) m []
            else if again
            then done (refuse (bytes "Already logged in")) m []
            else if has_user (others 0 m).world.shared request.username
            then enter c request.username request.password rands others r' (others 0 m)
            else after_create i c request.username request.password rands others r' (
                transact c
                  (Payload.create_user request.username request.password)
                  r
                  (others 1 (others 0 m))))
        → Granted i c request rands others r r' m
    guarded true again g = absurd (refuse-Grants i (bytes "Username or password empty") m [] g)
    guarded false true g = absurd (refuse-Grants i (bytes "Already logged in") m [] g)
    guarded false false g =
        known i c request.username request.password rands others r' r (others 0 m) _ refl g
