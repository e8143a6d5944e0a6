-- ===== src/Server/Ends.antt =====
-- That the calls that change the coordinator return, where no transaction is to be rolled back.
use file_syncer.Prelude.{
  ℕ, ◌≡◌, refl, ap, ◌∙◌, Bool, true, false, Option, none, some, is_some, List, [], if◌then◌else◌,
  arith, Bool-cases, inl, inr,
}
use file_syncer.Prelude.Int.{ℤ, int_eq}
use file_syncer.Prelude.Map.{Map, modify, find, int_key}
use file_syncer.Config.{Config}
use file_syncer.Replica.{Replica, Beat}
use file_syncer.Manager
use file_syncer.Manager.{Manager, done}
use file_syncer.Server.{
  Server, Election, Note, Run, ran, hangs, threw, undefined_run, ◌>>=◌, with_manager, get_replica,
  announce, start_coordinator, mark_coordinator, set_coordinator,
}
use file_syncer.Server.Outcome.{Always}
use file_syncer.Server.Coherent.{Led}
use file_syncer.Server.Leader.{set_coordinator-Led}
use file_syncer.Server.Bully.{with_election, win_election}
use file_syncer.Server.Sound.{win_election-Led}

-- A call returns, with the server as `P` says.
unfoldable pub Returns : {A : Type 0} → (Server → Type 0) → Run A → Type 0
Returns P (ran a s out) = P s
Returns P hangs = true ≡ false
Returns P threw = true ≡ false
Returns P undefined_run = true ≡ false

pub Returns-bind :
    {A B : Type 0} (P Q : Server → Type 0) (r : Run A) (f : A → Server → List Note → Run B)
    → Returns P r
    → ((a : A) (s : Server) (out : List Note) → P s → Returns Q (f a s out))
    → Returns Q (r >>= f)
unfolding Returns
Returns-bind P Q (ran a s out) f h k = k a s out h
Returns-bind P Q hangs f h k = cc
Returns-bind P Q threw f h k = cc
Returns-bind P Q undefined_run f h k = cc

pub Returns-Always :
    {A : Type 0} (P Q : Server → Type 0) (r : Run A) → Returns P r → Always Q r → Returns Q r
unfolding Returns Always
Returns-Always P Q (ran a s out) h k = k
Returns-Always P Q hangs h k = h
Returns-Always P Q threw h k = h
Returns-Always P Q undefined_run h k = h

pub Returns-then :
    {A : Type 0} (P : Server → Type 0) (b : Bool) (x y : Run A)
    → b ≡ true
    → Returns P x
    → Returns P (if b then x else y)
Returns-then P true x y e h = h
Returns-then P false x y e h = cc

pub Returns-else :
    {A : Type 0} (P : Server → Type 0) (b : Bool) (x y : Run A)
    → b ≡ false
    → Returns P y
    → Returns P (if b then x else y)
Returns-else P true x y e h = cc
Returns-else P false x y e h = h

set_is_coordinator-idle :
    (c : Config) (b : Bool) (m : Manager)
    → m.is_transaction_active ≡ false
    → Manager.set_is_coordinator c b m ≡ done tt (record m { is_coordinator = b }) []
unfolding Manager.set_is_coordinator
set_is_coordinator-idle c b m h =
    ap
      (λ (x : Bool).
        Manager.◌>>=◌ (if x then Manager.rollback_transaction c m [] else done tt m [])
          (λ _ m' out. done tt (record m' { is_coordinator = b }) out))
      h

-- No transaction is active, and the replicas are `servers`.
record Idle (servers : Map ℤ Replica) (t : Server) : Type 0 where
  idle : t.manager.is_transaction_active ≡ false
  same_servers : t.servers ≡ servers

with_manager-Idle :
    (c : Config) (b : Bool) (m : Manager) (s : Server) (out : List Note)
    → m.is_transaction_active ≡ false
    → Returns (Idle s.servers) (with_manager (Manager.set_is_coordinator c b m) s out)
unfolding Returns
with_manager-Idle c b m s out h =
    rw (set_is_coordinator-idle c b m h) (record { idle = h; same_servers = refl })

abbrev pub IsIdle : Server → Type 0
IsIdle s = s.manager.is_transaction_active ≡ false

start_coordinator-IsIdle :
    (c : Config) (beats : ℕ → ℤ → Beat) (s : Server) (out : List Note)
    → s.manager.is_transaction_active ≡ false
    → Returns IsIdle (start_coordinator c beats s out)
unfolding start_coordinator announce Returns
start_coordinator-IsIdle c beats s out h =
    Returns-bind (Idle s.servers) IsIdle _ _ (with_manager-Idle c true s.manager s out h)
      (λ _ t out' k. k.idle)

mark_coordinator-IsIdle :
    (c : Config) (beats : ℕ → ℤ → Beat) (i : ℤ) (s : Server) (out : List Note)
    → s.manager.is_transaction_active ≡ false
    → is_some (get_replica s i) ≡ true
    → Returns IsIdle (mark_coordinator c beats i s out)
unfolding mark_coordinator Returns
mark_coordinator-IsIdle c beats i s out h k = go (get_replica s i) k
  where
    go :
        (o : Option Replica)
        → is_some o ≡ true
        → Returns IsIdle (elim o [
          | none ↦ threw
          | some r ↦
              ran tt
                (record s {
                  servers = modify i (λ r. record r { is_coordinator = true }) s.servers;
                })
                out
        ])
    go none p = cc
    go (some r) p = h

set_coordinator-IsIdle :
    (c : Config) (beats : ℕ → ℤ → Beat) (i : ℤ) (s : Server) (out : List Note)
    → s.manager.is_transaction_active ≡ false
    → (int_eq i s.server_id ≡ false → is_some (get_replica s i) ≡ true)
    → Returns IsIdle (set_coordinator c beats i s out)
unfolding set_coordinator get_replica
set_coordinator-IsIdle c beats i s out h k =
    let own = int_eq i s.server_id in
    Returns-bind (Idle s.servers) IsIdle _ _
      (with_manager-Idle c own s.manager (record s { coordinator_id = i; is_coordinator = own }) out
        h)
      (λ _ t out' l. elim (Bool-cases own) [
        | inl e ↦ Returns-then IsIdle own _ _ e (start_coordinator-IsIdle c beats t out' l.idle)
        | inr e ↦ Returns-else IsIdle own _ _ e (
            mark_coordinator-IsIdle c beats i t out' l.idle
              (ap (λ (m : Map ℤ Replica). is_some (find i m)) l.same_servers ∙ k e))
      ])

-- Without a transaction to roll back, the change of the coordinator to this server, or to one of
-- its replicas, ends.
pub set_coordinator-Returns :
    (c : Config) (beats : ℕ → ℤ → Beat) (i : ℤ) (s : Server) (out : List Note)
    → s.manager.is_transaction_active ≡ false
    → (int_eq i s.server_id ≡ false → is_some (get_replica s i) ≡ true)
    → Returns (Led s i) (set_coordinator c beats i s out)
set_coordinator-Returns c beats i s out h k =
    Returns-Always IsIdle (Led s i) _ (set_coordinator-IsIdle c beats i s out h k)
      (set_coordinator-Led c beats i s out)

pub win_election-Returns :
    (c : Config) (first second : ℕ → ℤ → Beat) (e : Election) (s : Server) (out : List Note)
    → s.manager.is_transaction_active ≡ false
    → Returns (Led s s.server_id) (win_election c first second e s out)
unfolding win_election get_replica
win_election-Returns c first second e s out h =
    Returns-Always IsIdle (Led s s.server_id) _
      (Returns-bind IsIdle IsIdle _ _
        (set_coordinator-IsIdle c first s.server_id
          (with_election (record e { victorious = s.server_id }) s) out h (λ p. ground arith))
        (λ _ t out' k. start_coordinator-IsIdle c second t _ k))
      (win_election-Led c first second e s out)
