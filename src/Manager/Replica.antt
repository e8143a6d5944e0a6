-- ===== src/Manager/Replica.antt =====
-- A replica's `receiveNewTransaction` for new content of a file, from the call to its end.
use file_syncer.Prelude.{
  ◌≡◌, refl, ◌∙◌, Bool, true, false, Option, none, some, List, [], ◌∷◌, if◌then◌else◌, Bool-cases,
  inl, inr,
}
use file_syncer.Prelude.Int.{ℤ, int_eq}
use file_syncer.Prelude.Text.{Text}
use file_syncer.Prelude.Map.{find, text_key}
use file_syncer.Config.{Config, get_file_path, get_tid_path}
use file_syncer.Disk.Paths.{temp}
use file_syncer.Disk.Replace.{Room, written}
use file_syncer.Transaction.Monad.{Payload, returned}
use file_syncer.Transaction.{new_transaction, run}
use file_syncer.Transaction.Verdict.{prepared_world}
use file_syncer.Utils.Decimal.{show_int}
use file_syncer.Transaction.FileChange.{
  Committed, RolledBack, stored, run-update, commit_update, rollback_update, committed_world,
  undone_world, committed_world-Committed, undone_world-RolledBack,
}
use file_syncer.Manager.{
  Manager, Ballot, Call, done, waits, vote_to, take_transaction, receive_result, wait_result,
  receive_new_transaction, finish, commit_transaction, rollback_transaction, lift_run,
}

-- The first result for the transaction.
unfoldable pub first_result : ℤ → List Ballot → Option Bool
first_result tid [] = none
first_result tid ((res, t) ∷ rs) =
    let rest = first_result tid rs in if int_eq t tid then some res else rest

-- A manager that has taken a result.
abbrev took : Bool → Manager → Manager
took res m = record m { result = res; has_result = false }

wait_result-arrived :
    (rs : List Ballot) (m : Manager)
    → m.has_result ≡ true
    → wait_result rs m ≡ some (m.result, record m { has_result = false })
unfolding wait_result
wait_result-arrived [] m h = rw h
wait_result-arrived (r ∷ rs) m h = rw h

wait_result-next :
    (r : Ballot) (rs : List Ballot) (m : Manager)
    → m.has_result ≡ false
    → wait_result (r ∷ rs) m ≡ wait_result rs (receive_result r m)
unfolding wait_result
wait_result-next r rs m h = rw h refl

wait_result-first :
    (rs : List Ballot) (m : Manager)
    → m.has_result ≡ false
    → wait_result rs m
      ≡ elim (first_result m.world.tx.tid rs) [ none ↦ none | some res ↦ some (res, took res m) ]
unfolding wait_result first_result receive_result
wait_result-first [] m h = rw h
wait_result-first ((res, t) ∷ rs) m h = elim (Bool-cases (int_eq t m.world.tx.tid)) [
  | inl mine ↦
      wait_result-next (res, t) rs m h
      ∙ rw mine (wait_result-arrived rs (record m { result = res; has_result = true }) refl)
  | inr other ↦ wait_result-next (res, t) rs m h ∙ rw other (wait_result-first rs m h)
]

-- How the replica ends, by the first result.
abbrev pub ReplicaEnds :
    Config → Text → Text → Text → ℤ → ℤ → Manager → Option Bool → Call Bool → Type 0
ReplicaEnds c u f content tid i m none call = call ≡ waits
ReplicaEnds c u f content tid i m (some true) call =
    (m' : Manager) × (call ≡ done true m' (vote_to i true tid ∷ []))
    × Committed c u f content tid m.world.disk m.world.shared m'.world
    × (m'.is_transaction_active ≡ false)
    × (m'.last_tid ≡ m.last_tid)
ReplicaEnds c u f content tid i m (some false) call =
    (m' : Manager) × (call ≡ done false m' (vote_to i true tid ∷ []))
    × RolledBack c u f content tid m.world.disk m.world.shared m'.world
    × (m'.is_transaction_active ≡ false)
    × (m'.last_tid ≡ m.last_tid)

-- A replica that may take a transaction.
pub record IsReplica (m : Manager) : Type 0 where
  pub follows : m.is_coordinator ≡ false
  pub idle : m.is_transaction_active ≡ false

module _ (c : Config) (u f content : Text) (tid i : ℤ) (m : Manager)
    (r : Room (get_tid_path c) (get_file_path c u f) m.world.disk)
    (no_temp_tid : find (temp (get_tid_path c)) m.world.disk ≡ none)
    (no_temp_file : find (temp (get_file_path c u f)) m.world.disk ≡ none) where
  abbrev upload : Payload
  upload = Payload.file_change u f false content

  abbrev taken : Manager
  taken = take_transaction (record (new_transaction upload) { tid = tid }) m

  abbrev ready : Manager
  ready = record taken {
    world =
        prepared_world upload tid
          (written (get_tid_path c) (get_file_path c u f) (show_int tid) content m.world.disk)
          m.world.shared (stored c u f content tid m.world.disk m.world.shared);
  }

  run-upload : run c taken.world ≡ returned true ready.world
  unfolding take_transaction new_transaction
  run-upload = run-update c u f content tid m.world.disk m.world.shared r

  abbrev end_of : Option Bool → Call Bool
  end_of none = waits
  end_of (some res) = finish c res (took res ready) (vote_to i true tid ∷ [])

  end_of-ReplicaEnds : (o : Option Bool) → ReplicaEnds c u f content tid i m o (end_of o)
  unfolding finish commit_transaction rollback_transaction lift_run take_transaction
  end_of-ReplicaEnds none = refl
  end_of-ReplicaEnds (some true) = (
    record (took true ready) {
      world = committed_world c u f content tid m.world.disk m.world.shared;
      is_transaction_active = false;
    },
    rw (commit_update c u f content tid m.world.disk m.world.shared r) refl,
    committed_world-Committed c u f content tid m.world.disk m.world.shared r no_temp_tid
        no_temp_file,
    refl,
    refl,
  )
  end_of-ReplicaEnds (some false) = (
    record (took false ready) {
      world = undone_world c u f content tid m.world.disk m.world.shared;
      is_transaction_active = false;
    },
    rw (rollback_update c u f content tid m.world.disk m.world.shared r) refl,
    undone_world-RolledBack c u f content tid m.world.disk m.world.shared r no_temp_tid
        no_temp_file,
    refl,
    refl,
  )

  -- How the replica goes on with what `waitResult` gives.
  abbrev after_result : Option (Bool × Manager) → Call Bool
  after_result o = elim o [
    | none ↦ waits
    | some (res, m') ↦ finish c res m' (vote_to i true tid ∷ [])
  ]

  receive-after_result :
      IsReplica m
      → (results : List Ballot)
      → receive_new_transaction c upload tid (some i) results m
        ≡ after_result (wait_result results ready)
  unfolding receive_new_transaction lift_run take_transaction new_transaction
  receive-after_result idle results = rw (idle.follows, idle.idle, run-upload) refl

  after_first :
      (o : Option Bool)
      → after_result (elim o [ none ↦ none | some res ↦ some (res, took res ready) ]) ≡ end_of o
  after_first none = refl
  after_first (some res) = refl

  -- A replica whose disk has room for the file, with no temporary file at the tid file or the file,
  -- receives new content. Where no
  -- result is left over, it votes yes and ends as the first result for this id says: committed,
  -- with the file, its record and the id stored and all else in the state and on the disk as before, or rolled back, with the
  -- state and the disk as before, or waiting for ever; its own count of ids stays as it is.
  pub receive_ends :
      IsReplica m
      → m.has_result ≡ false
      → (results : List Ballot)
      → ReplicaEnds c u f content tid i m
          (first_result tid results)
          (receive_new_transaction c (Payload.file_change u f false content) tid (some i) results m)
  unfolding take_transaction
  receive_ends idle fresh results =
      rw
        (
          receive-after_result idle results,
          wait_result-first results ready fresh,
          after_first (first_result tid results),
        )
        (end_of-ReplicaEnds (first_result tid results))
