-- ===== src/Manager/Voting.antt =====
-- The voting of a transaction against its rule: every server's yes is needed, one no ends it.
use file_syncer.Prelude.{
  ℕ, zero, suc, ◌+◌, ◌<◌, ◌^◌, ◌≡◌, refl, ap, ◌∙◌, Bool, true, false, Option, none, some, List, [],
  ◌∷◌, arith, if◌then◌else◌, Bool-cases, inl, inr,
}
use file_syncer.Prelude.Int.{ℤ, pos, negsuc, int_eq, increment}
use file_syncer.Manager.{Manager, Ballot, count_vote, add_vote, voting_open, wait_end_voting}

-- The rule, with the number of votes that are missing: votes for another transaction count for
-- nothing.
unfoldable pub decide : ℤ → ℕ → List Ballot → Option Bool
decide tid zero vs = some true
decide tid (suc missing) [] = none
decide tid (suc missing) ((vote, t) ∷ vs) =
    let pass = decide tid (suc missing) vs in
    let counted = decide tid missing vs in
    if int_eq t tid then (if vote then counted else some false) else pass

-- The yes votes for a transaction.
abbrev pub yes_count : ℤ → List Ballot → ℕ
yes_count tid [] = 0
yes_count tid ((vote, t) ∷ vs) =
    if int_eq t tid
    then (if vote then suc (yes_count tid vs) else yes_count tid vs)
    else yes_count tid vs

increment-pos : (n : ℕ) → suc n < 2 ^ 31 → increment (pos n) ≡ pos (suc n)
increment-pos n h = ground arith

abbrev pub answer : Option (Bool × Manager) → Option Bool
answer none = none
answer (some (b, m)) = some b

-- A failed voting stays failed.
pub wait-failed :
    (vs : List Ballot) (m : Manager)
    → m.votes ≡ negsuc 0
    → (total : ℕ) → m.voting_total ≡ pos total
    → wait_end_voting vs m ≡ some (false, m)
unfolding wait_end_voting voting_open
wait-failed [] m h total k = ground arith
wait-failed (v ∷ vs) m h total k = ground arith

-- One vote, by what it says.
pub add_vote-other :
    (b : Bool) (t : ℤ) (m : Manager) → int_eq t m.world.tx.tid ≡ false → add_vote (b, t) m ≡ m
unfolding add_vote
add_vote-other b t m h = rw h

pub add_vote-no :
    (t : ℤ) (m : Manager)
    → int_eq t m.world.tx.tid ≡ true
    → add_vote (false, t) m ≡ record m { votes = negsuc 0 }
unfolding add_vote
add_vote-no t m h = rw h

pub add_vote-yes :
    (t : ℤ) (m : Manager) (k : ℕ)
    → int_eq t m.world.tx.tid ≡ true
    → m.votes ≡ pos k
    → suc k < 2 ^ 31
    → add_vote (true, t) m ≡ record m { votes = pos (suc k) }
unfolding add_vote
add_vote-yes t m k h e l =
    rw (h, add_vote) (rw (e, count_vote) (ap (λ v. record m { votes = v }) (increment-pos k l)))

pub opened :
    (m : Manager) (k n : ℕ)
    → m.votes ≡ pos k
    → m.voting_total ≡ pos n
    → k < n
    → voting_open m ≡ true
unfolding voting_open
opened m k n h e l = ground arith

-- While votes are missing, the loop takes the next one.
pub wait-next :
    (v : Ballot) (vs : List Ballot) (m : Manager)
    → voting_open m ≡ true
    → wait_end_voting (v ∷ vs) m ≡ wait_end_voting vs (add_vote v m)
unfolding wait_end_voting
wait-next v vs m h = rw h

module _ (tid : ℤ) where
  pub decide-other :
      (b : Bool) (t : ℤ) (missing : ℕ) (vs : List Ballot)
      → int_eq t tid ≡ false
      → decide tid missing ((b, t) ∷ vs) ≡ decide tid missing vs
  unfolding decide
  decide-other b t zero [] h = refl
  decide-other b t zero (v ∷ vs) h = refl
  decide-other b t (suc missing) vs h = rw h

  pub decide-no :
      (t : ℤ) (missing : ℕ) (vs : List Ballot)
      → int_eq t tid ≡ true
      → decide tid (suc missing) ((false, t) ∷ vs) ≡ some false
  unfolding decide
  decide-no t missing vs h = rw h

  pub decide-yes :
      (t : ℤ) (missing : ℕ) (vs : List Ballot)
      → int_eq t tid ≡ true
      → decide tid (suc missing) ((true, t) ∷ vs) ≡ decide tid missing vs
  unfolding decide
  decide-yes t missing vs h = rw h

numbers : (a b : ℕ) → a + suc b ≡ suc a + b
numbers a b = omega arith

-- From `counted` votes on, with `missing` more to come, the loop ends as the rule says.
pub wait-decide :
    (vs : List Ballot) (m : Manager) (missing counted : ℕ)
    → m.votes ≡ pos counted
    → m.voting_total ≡ pos (counted + missing)
    → counted + missing < 2 ^ 31
    → answer (wait_end_voting vs m) ≡ decide m.world.tx.tid missing vs
wait-decide [] m zero counted h k l = unfold wait_end_voting voting_open decide in ground arith
wait-decide (v ∷ vs) m zero counted h k l =
    unfold wait_end_voting voting_open decide in ground arith
wait-decide [] m (suc missing) counted h k l =
    unfold wait_end_voting voting_open decide in ground arith
wait-decide ((true, t) ∷ vs) m (suc missing) counted h k l =
    rw (wait-next (true, t) vs m (opened m counted (counted + suc missing) h k (omega arith)))
      (elim (Bool-cases (int_eq t m.world.tx.tid)) [
        | inl mine ↦
            rw
              (
                add_vote-yes t m counted mine h (omega arith),
                decide-yes m.world.tx.tid t missing vs mine,
              )
              (wait-decide vs (record m { votes = pos (suc counted) }) missing (suc counted) refl
                (k ∙ regroup) (omega arith))
        | inr other ↦
            rw
              (
                add_vote-other true t m other,
                decide-other m.world.tx.tid true t (suc missing) vs other,
              )
              (wait-decide vs m (suc missing) counted h k l)
      ])
  where
    regroup : pos (counted + suc missing) ≡ pos (suc counted + missing)
    regroup = ap pos (numbers counted missing)
wait-decide ((false, t) ∷ vs) m (suc missing) counted h k l =
    rw (wait-next (false, t) vs m (opened m counted (counted + suc missing) h k (omega arith)))
      (elim (Bool-cases (int_eq t m.world.tx.tid)) [
        | inl mine ↦
            rw (add_vote-no t m mine, decide-no m.world.tx.tid t missing vs mine)
              (ap answer
                (wait-failed vs (record m { votes = negsuc 0 }) refl (counted + suc missing) k))
        | inr other ↦
            rw
              (
                add_vote-other false t m other,
                decide-other m.world.tx.tid false t (suc missing) vs other,
              )
              (wait-decide vs m (suc missing) counted h k l)
      ])
