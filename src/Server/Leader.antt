-- ===== src/Server/Leader.antt =====
-- What a change of the coordinator does to a server, for every call of Server.cpp that makes one.
use file_syncer.Prelude.{
  ℕ, ◌≡◌, refl, sym, subst, ◌∙◌, Bool, true, false, none, some, List, [], if◌then◌else◌, Bool-cases,
  inl, inr,
}
use file_syncer.Prelude.Int.{ℤ, int_eq, int_eq_iff}
use file_syncer.Prelude.Map.{modify, int_key}
use file_syncer.Config.{Config}
use file_syncer.Replica.{Beat}
use file_syncer.Manager
use file_syncer.Manager.{Manager, Call, done, waits, crashes, undefined_call}
use file_syncer.Server.Outcome.{Always, Always-bind}
use file_syncer.Server.Coherent.{IsCoherent, Led, with_servers-Led, then-Led}
use file_syncer.Server.Alive.{dead_same, Fewer-refl, check_rounds-Fewer, modify-Fewer}
use file_syncer.Server.{
  Server, Note, ran, threw, with_manager, replica_ids, get_replica, announce, start_coordinator,
  mark_coordinator, set_coordinator,
}

abbrev Idle : Call (Unit {0}) → Type 0
Idle (done a m out) = m.is_transaction_active ≡ false
Idle waits = Unit {0}
Idle crashes = Unit {0}
Idle undefined_call = Unit {0}

rollback-Idle :
    (r : Call (Unit {0}))
    → Idle (Manager.◌>>=◌ r (λ _ m out. done tt (record m { is_transaction_active = false }) out))
rollback-Idle (done a m out) = refl
rollback-Idle waits = tt
rollback-Idle crashes = tt
rollback-Idle undefined_call = tt

with_manager-Led :
    (r : Call (Unit {0})) (b : Bool) (s : Server) (i : ℤ) (out : List Note)
    → Idle r
    → b ≡ int_eq i s.server_id
    → Always (Led s i) (
        with_manager
          (Manager.◌>>=◌ r (λ _ m out. done tt (record m { is_coordinator = b }) out))
          (record s { coordinator_id = i; is_coordinator = b })
          out)
unfolding Always
with_manager-Led (done a m sent) b s i out d h = record {
  follows = record { same_id = refl; fewer = Fewer-refl s.servers };
  coherent = record { by_id = h; of_manager = refl };
  leader = refl;
}
with_manager-Led waits b s i out d h = tt
with_manager-Led crashes b s i out d h = tt
with_manager-Led undefined_call b s i out d h = tt

if-Idle :
    (b : Bool) (x y : Call (Unit {0}))
    → (b ≡ true → Idle x)
    → (b ≡ false → Idle y)
    → Idle (if b then x else y)
if-Idle true x y h k = h refl
if-Idle false x y h k = k refl

set_is_coordinator-Idle :
    (c : Config) (m : Manager)
    → Idle (if m.is_transaction_active then Manager.rollback_transaction c m [] else done tt m [])
unfolding Manager.rollback_transaction
set_is_coordinator-Idle c m =
    if-Idle m.is_transaction_active _ (done tt m []) (λ _. rollback-Idle _) (λ e. e)

set_is_coordinator-Led :
    (c : Config) (b : Bool) (s : Server) (i : ℤ) (out : List Note)
    → b ≡ int_eq i s.server_id
    → Always (Led s i) (
        with_manager
          (Manager.set_is_coordinator c b s.manager)
          (record s { coordinator_id = i; is_coordinator = b })
          out)
unfolding Manager.set_is_coordinator
set_is_coordinator-Led c b s i out h =
    with_manager-Led _ b s i out (set_is_coordinator-Idle c s.manager) h

mark_coordinator-Led :
    (c : Config) (beats : ℕ → ℤ → Beat) (i : ℤ) (s : Server) (out : List Note)
    → IsCoherent s
    → Always (Led s s.coordinator_id) (mark_coordinator c beats i s out)
unfolding mark_coordinator Always
mark_coordinator-Led c beats i s out h =
    elim (get_replica s i)
      as (λ x. Always (Led s s.coordinator_id) (elim x [
        | none ↦ threw
        | some r ↦
            ran tt
              (record s { servers = modify i (λ r. record r { is_coordinator = true }) s.servers })
              out
      ])) [
        | none ↦ tt
        | some r ↦ with_servers-Led s _ h (
            modify-Fewer i (λ r. record r { is_coordinator = true }) s.servers
              (λ r. record { same_id = refl; dead = dead_same r }))
      ]

announce-Led :
    (c : Config) (beats : ℕ → ℤ → Beat) (s : Server) (out : List Note)
    → IsCoherent s
    → Always (Led s s.coordinator_id) (announce c beats s out)
unfolding announce Always
announce-Led c beats s out h =
    let k =
      check_rounds-Fewer beats s.coordinator_id s.server_id (replica_ids s.servers) 0 s.servers in
    record {
      follows = record { same_id = refl; fewer = k };
      coherent = record { by_id = h.by_id; of_manager = h.of_manager };
      leader = refl;
    }

-- A server that coordinates starts to once more.
pub start_coordinator-Led :
    (c : Config) (beats : ℕ → ℤ → Beat) (s : Server) (out : List Note)
    → s.coordinator_id ≡ s.server_id
    → s.is_coordinator ≡ true
    → Always (Led s s.coordinator_id) (start_coordinator c beats s out)
unfolding start_coordinator
start_coordinator-Led c beats s out h k =
    let own = sym ((int_eq_iff s.coordinator_id s.server_id).1 h) in
    let set = set_is_coordinator-Led c true s s.coordinator_id out own in
    Always-bind (Led s s.coordinator_id) (Led s s.coordinator_id) _ _
      (subst
        (λ (b : Bool). Always (Led s s.coordinator_id) (
          with_manager (Manager.set_is_coordinator c true s.manager)
            (record s { is_coordinator = b }) out))
        (sym k) set)
      (λ _ t out' l. then-Led s t s.coordinator_id _ l (announce-Led c beats t out' l.coherent))

pub set_coordinator-Led :
    (c : Config) (beats : ℕ → ℤ → Beat) (i : ℤ) (s : Server) (out : List Note)
    → Always (Led s i) (set_coordinator c beats i s out)
unfolding set_coordinator
set_coordinator-Led c beats i s out =
    Always-bind (Led s i) (Led s i) _ _ (set_is_coordinator-Led c _ s i out refl) (λ _ t out' l.
      then-Led s t i _ l (elim (Bool-cases (int_eq i s.server_id)) [
        | inl e ↦
            let same = (int_eq_iff i s.server_id).0 e in
            let own = l.leader ∙ same ∙ sym l.follows.same_id in
            rw e (
              start_coordinator-Led c beats t out' own
                (l.coherent.by_id ∙ (int_eq_iff t.coordinator_id t.server_id).1 own))
        | inr e ↦ rw e (mark_coordinator-Led c beats i t out' l.coherent)
      ]))
