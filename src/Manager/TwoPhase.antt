-- ===== src/Manager/TwoPhase.antt =====
-- The coordinator's `doTransaction` for new content of a file, from the call to its end.
use file_syncer.Prelude.{
  ℕ, suc, ◌+◌, ◌≤◌, ◌<◌, ◌^◌, ◌≡◌, refl, ◌∙◌, Bool, true, false, Option, none, some, List, [], ◌∷◌,
  ◌++◌, arith, length, Bool-cases, inl, inr,
}
use file_syncer.Prelude.Int.{ℤ, pos, to_int, increment}
use file_syncer.Prelude.Text.{Text}
use file_syncer.Prelude.Map.{find, text_key}
use file_syncer.Config.{Config, get_file_path, get_tid_path}
use file_syncer.Disk.Paths.{temp}
use file_syncer.Disk.Replace.{Room, written}
use file_syncer.Transaction.Monad.{Payload, World, returned}
use file_syncer.Transaction.{run, new_transaction}
use file_syncer.Transaction.Verdict.{prepared_world}
use file_syncer.Utils.Decimal.{show_int}
use file_syncer.Transaction.FileChange.{
  Committed, RolledBack, stored, run-update, commit_update, rollback_update, committed_world,
  undone_world, committed_world-Committed, undone_world-RolledBack,
}
use file_syncer.Manager.{
  Manager, Ballot, Sent, Call, done, waits, add_vote, add_votes, wait_end_voting, voting_open,
  take_transaction, init_transaction, start_voting, do_transaction, conclude, finish,
  commit_transaction, rollback_transaction, send_result, execute_transaction_in_nodes, lift_run,
}
use file_syncer.Manager.Voting.{decide, yes_count, answer}
use file_syncer.Manager.Tally.{conclude-decide}

-- Votes change the count alone.
abbrev OnlyVotes : Manager → Manager → Type 0
OnlyVotes m m' = m' ≡ record m { votes = m'.votes }

add_vote-OnlyVotes : (v : Ballot) (m : Manager) → OnlyVotes m (add_vote v m)
unfolding add_vote
add_vote-OnlyVotes (b, t) m = ground arith

add_votes-OnlyVotes : (vs : List Ballot) (m : Manager) → OnlyVotes m (add_votes vs m)
unfolding add_votes
add_votes-OnlyVotes [] m = refl
add_votes-OnlyVotes (v ∷ vs) m = cc (add_votes-OnlyVotes vs (add_vote v m), add_vote-OnlyVotes v m)

abbrev Waited : Manager → Option (Bool × Manager) → Type 0
Waited m none = Unit
Waited m (some (b, m')) = OnlyVotes m m'

Waited-trans :
    (m m' : Manager) (o : Option (Bool × Manager)) → OnlyVotes m m' → Waited m' o → Waited m o
Waited-trans m m' none h w = tt
Waited-trans m m' (some (b, n)) h w = cc

wait-Waited : (vs : List Ballot) (m : Manager) → Waited m (wait_end_voting vs m)
unfolding wait_end_voting
wait-Waited [] m = ground arith
wait-Waited (v ∷ vs) m = elim (Bool-cases (voting_open m)) [
  | inl unfinished ↦ rw unfinished (
      Waited-trans m (add_vote v m) (wait_end_voting vs (add_vote v m)) (add_vote-OnlyVotes v m)
        (wait-Waited vs (add_vote v m)))
  | inr ended ↦ rw ended refl
]

-- The manager when the transaction runs.
abbrev running : Payload → List ℤ → Manager → Manager
running p servers m =
    start_voting servers (init_transaction (take_transaction (new_transaction p) m))

-- How the call ends, by what the votes decide.
abbrev Ends : Config → Manager → List Sent → List ℤ → Option Bool → Call Bool → Type 0
Ends c m out after none call = call ≡ waits
Ends c m out after (some r) call =
    (v : ℤ) × (call
      ≡ finish c r (record m { votes = v }) (out ++ send_result after r m.world.tx.tid))

Ends-of :
    (c : Config) (m : Manager) (out : List Sent) (after : List ℤ) (o : Option (Bool × Manager))
    → Waited m o
    → Ends c m out after (answer o) (elim o [
      | none ↦ waits
      | some (result, m') ↦ finish c result m' (out ++ send_result after result m'.world.tx.tid)
    ])
Ends-of c m out after none w = refl
Ends-of c m out after (some (r, m')) w = (m'.votes, rw w)

module _ (c : Config) (during later : List Ballot) (after : List ℤ) (m : Manager) (out : List Sent)
    (n : ℕ) where
  conclude-Ends :
      m.votes ≡ pos 0
      → m.voting_total ≡ pos (suc n)
      → suc n < 2 ^ 31
      → yes_count m.world.tx.tid during ≤ n
      → Ends c m out after
          (decide m.world.tx.tid
            (suc n)
            (during ++ (m.world.tx.is_prepared, m.world.tx.tid) ∷ later))
          (conclude c during later after m out)
  unfolding conclude
  conclude-Ends h k l y = rw (← conclude-decide during later m.world.tx.is_prepared m n h k l y) (
      Ends-of c m out after _ (
        Waited-trans m own_counted _
          (cc (add_votes-OnlyVotes during m, add_vote-OnlyVotes own (add_votes during m)))
          (wait-Waited later own_counted)))
    where
      own : Ballot
      own = (m.world.tx.is_prepared, m.world.tx.tid)

      own_counted : Manager
      own_counted = add_vote own (add_votes during m)

-- A coordinator that is free, and whose votes do not overflow an `int`.
pub record IsFree (m : Manager) (servers : List ℤ) : Type 0 where
  pub coordinates : m.is_coordinator ≡ true
  pub idle : m.is_transaction_active ≡ false
  pub few : length servers + 1 < 2 ^ 31

abbrev pub next_tid : Manager → ℤ
next_tid m = increment m.last_tid

total-servers : (n : ℕ) → n + 1 < 2 ^ 31 → to_int (pos (n + 1)) ≡ pos (suc n)
total-servers n h = ground arith

module _ (c : Config) (p : Payload) (servers told : List ℤ) (m : Manager)
    (free : IsFree m servers) where
  abbrev outgoing : List Sent
  outgoing = execute_transaction_in_nodes told (running p servers m)

  do_transaction-conclude :
      (during later : List Ballot) (after : List ℤ) (w : World) (b : Bool)
      → run c (running p servers m).world ≡ returned b w
      → do_transaction c p servers told during later after m
        ≡ conclude c during later after (record (running p servers m) { world = w }) outgoing
  unfolding do_transaction
  do_transaction-conclude during later after w b e =
      rw (free.coordinates, free.idle) (rw (e, lift_run))

-- How an upload ends: it waits for ever, or it is committed, or it is rolled back; the manager is
-- free again, and has used up the id.
abbrev pub UploadEnds : Config → Text → Text → Text → Manager → Option Bool → Call Bool → Type 0
UploadEnds c u f content m none call = call ≡ waits
UploadEnds c u f content m (some true) call =
    (m' : Manager) × (out : List Sent) × (call ≡ done true m' out)
    × Committed c u f content (next_tid m) m.world.disk m.world.shared m'.world
    × (m'.is_transaction_active ≡ false)
    × (m'.last_tid ≡ next_tid m)
UploadEnds c u f content m (some false) call =
    (m' : Manager) × (out : List Sent) × (call ≡ done false m' out)
    × RolledBack c u f content (next_tid m) m.world.disk m.world.shared m'.world
    × (m'.is_transaction_active ≡ false)
    × (m'.last_tid ≡ next_tid m)

module _ (c : Config) (u f content : Text) (servers told : List ℤ) (m : Manager)
    (r : Room (get_tid_path c) (get_file_path c u f) m.world.disk)
    (no_temp_tid : find (temp (get_tid_path c)) m.world.disk ≡ none)
    (no_temp_file : find (temp (get_file_path c u f)) m.world.disk ≡ none) where
  abbrev upload : Payload
  upload = Payload.file_change u f false content

  abbrev ready : World
  ready =
      prepared_world upload (next_tid m)
        (written (get_tid_path c) (get_file_path c u f) (show_int (next_tid m)) content
          m.world.disk)
        m.world.shared (stored c u f content (next_tid m) m.world.disk m.world.shared)

  abbrev voting : Manager
  voting = record (running upload servers m) { world = ready }

  run-upload : run c (running upload servers m).world ≡ returned true ready
  unfolding start_voting init_transaction take_transaction new_transaction
  run-upload = run-update c u f content (next_tid m) m.world.disk m.world.shared r

  UploadEnds-of :
      (o : Option Bool) (call : Call Bool) (out : List Sent) (after : List ℤ)
      → Ends c voting out after o call
      → UploadEnds c u f content m o call
  unfolding finish commit_transaction rollback_transaction lift_run start_voting init_transaction
      take_transaction
  UploadEnds-of none call out after e = e
  UploadEnds-of (some true) call out after (v, e) = (
    record voting {
      votes = v;
      world = committed_world c u f content (next_tid m) m.world.disk m.world.shared;
      is_transaction_active = false;
    },
    out ++ send_result after true (next_tid m),
    e ∙ rw (commit_update c u f content (next_tid m) m.world.disk m.world.shared r) refl,
    committed_world-Committed c u f content (next_tid m) m.world.disk m.world.shared r no_temp_tid
        no_temp_file,
    refl,
    refl,
  )
  UploadEnds-of (some false) call out after (v, e) = (
    record voting {
      votes = v;
      world = undone_world c u f content (next_tid m) m.world.disk m.world.shared;
      is_transaction_active = false;
    },
    out ++ send_result after false (next_tid m),
    e ∙ rw (rollback_update c u f content (next_tid m) m.world.disk m.world.shared r) refl,
    undone_world-RolledBack c u f content (next_tid m) m.world.disk m.world.shared r no_temp_tid
        no_temp_file,
    refl,
    refl,
  )

  -- A free coordinator whose disk has room for the file, with no temporary file at the tid file or the
  -- file, uploads new content.
  -- Where at most as many yes-votes come in while the transaction runs as there are other servers,
  -- the call ends as the votes under the new id decide, its own yes after those and before the
  -- rest: with a yes from every server it commits, so the file, its record and the id are stored
  -- and all else in the state and on the disk is as before; with a no first it leaves the state and the disk as before; and
  -- without either it waits for ever.
  pub upload_ends :
      IsFree m servers
      → (during later : List Ballot) (after : List ℤ)
      → yes_count (next_tid m) during ≤ length servers
      → UploadEnds c u f content m
          (decide (next_tid m) (suc (length servers)) (during ++ (true, next_tid m) ∷ later))
          (do_transaction c
            (Payload.file_change u f false content)
            servers
            told
            during
            later
            after
            m)
  unfolding start_voting init_transaction take_transaction
  upload_ends free during later after y =
      rw
        (do_transaction-conclude c upload servers told m free during later after ready true
          run-upload)
        (UploadEnds-of _ _ (outgoing c upload servers told m free) after (
          conclude-Ends c during later after voting (outgoing c upload servers told m free)
            (length servers) refl (total-servers (length servers) free.few)
            (omega (arith, free.few)) y))
