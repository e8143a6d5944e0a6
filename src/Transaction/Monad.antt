-- ===== src/Transaction/Monad.antt =====
-- The effects of a transaction's methods: the disk, the shared state behind the write lock, the
-- transaction's own members, C++ exceptions, and undefined behaviour at a read of deleted memory.
use file_syncer.Prelude.{Bool, true, false, Option, none, some}
use file_syncer.Prelude.Int.{ℤ}
use file_syncer.Prelude.Text.{Text}
use file_syncer.ServerState.{ServerState}
use file_syncer.Disk.{Disk}

-- The five classes derived from `Transaction`, with their own members.
pub data Payload : Type 0 where
  create_user : (username password : Text) → Payload
  create_session : (session_id : ℤ) (username : Text) → Payload
  remove_session : (session_id : ℤ) → Payload
  file_change : (username filename : Text) (deleted : Bool) (content : Text) → Payload
  new_frontend : (hostname : Text) (port : ℤ) → Payload

-- `work_state` is `none` before `setState` and after `delete work_state_`.
pub record Transaction : Type 0 where
  pub payload : Payload
  pub tid : ℤ
  pub work_state : Option ServerState
  pub has_rollback : Bool
  pub is_committed : Bool
  pub has_began : Bool
  pub is_prepared : Bool

-- `shared` is the data behind `state_`, the write lock.
pub record World : Type 0 where
  pub disk : Disk
  pub shared : ServerState
  pub tx : Transaction

pub data Outcome (A : Type 0) : Type 0 where
  returned : A → World → Outcome A
  thrown : World → Outcome A
  undefined : Outcome A

abbrev pub Action : Type 0 → Type 0
Action A = World → Outcome A

infixl 5 ◌>>=◌ ◌>>◌
abbrev pub ◌>>=◌ : {A B : Type 0} → Action A → (A → Action B) → Action B
◌>>=◌ m f w = elim (m w) [ returned a w' ↦ f a w' | thrown w' ↦ thrown w' | undefined ↦ undefined ]

abbrev pub ◌>>◌ : {A B : Type 0} → Action A → Action B → Action B
m >> k = m >>= λ _. k

abbrev pub pure : {A : Type 0} → A → Action A
pure a w = returned a w

abbrev pub throw : {A : Type 0} → Action A
throw w = thrown w

-- `if (b) { m }`
abbrev pub when : Bool → Action (Unit {0}) → Action (Unit {0})
when b m w = elim b [ true ↦ m w | false ↦ returned tt w ]

-- `if (b) { m } else { n }`
infix 1 choose◌then◌else◌
abbrev pub choose◌then◌else◌ : {A : Type 0} → Bool → Action A → Action A → Action A
choose◌then◌else◌ b m n w = elim b [ true ↦ m w | false ↦ n w ]

-- `try { m } catch (...) { h }`; undefined behaviour is not caught.
abbrev pub try◌catch◌ : {A : Type 0} → Action A → Action A → Action A
try◌catch◌ m h w = elim (m w) [
  | returned a w' ↦ returned a w'
  | thrown w' ↦ h w'
  | undefined ↦ undefined
]

abbrev pub get_tx : {A : Type 0} → (Transaction → A) → Action A
get_tx f w = returned (f w.tx) w

abbrev pub set_tx : (Transaction → Transaction) → Action (Unit {0})
set_tx f w = returned tt (record w { tx = f w.tx })

-- A use of `*work_state_`.
abbrev pub get_work : {A : Type 0} → (ServerState → A) → Action A
get_work f w = elim w.tx.work_state [ none ↦ undefined | some s ↦ returned (f s) w ]

abbrev pub set_work : (ServerState → ServerState) → Action (Unit {0})
set_work f w = elim w.tx.work_state [
  | none ↦ undefined
  | some s ↦ returned tt (record w { tx = record w.tx { work_state = some (f s) } })
]

abbrev pub get_disk : {A : Type 0} → (Disk → A) → Action A
get_disk f w = returned (f w.disk) w

-- A file operation that never throws, and one that may.
abbrev pub set_disk : (Disk → Disk) → Action (Unit {0})
set_disk f w = returned tt (record w { disk = f w.disk })

abbrev pub try_disk : (Disk → Option Disk) → Action (Unit {0})
try_disk f w = elim (f w.disk) [ none ↦ thrown w | some d ↦ returned tt (record w { disk = d }) ]
