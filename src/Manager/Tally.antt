-- ===== src/Manager/Tally.antt =====
-- The votes that come in before the coordinator waits for them, and its own.
use file_syncer.Prelude.{
  ℕ, suc, ◌+◌, ◌-◌, ◌≤◌, ◌<◌, ◌^◌, ◌≡◌, refl, sym, ap, ◌∙◌, Bool, true, false, some, List, [], ◌∷◌,
  ◌++◌, arith, if◌then◌else◌, Bool-cases, inl, inr,
}
use file_syncer.Prelude.Int.{ℤ, pos, negsuc, int_eq}
use file_syncer.Manager.{Manager, Ballot, add_vote, add_votes, wait_end_voting}
use file_syncer.Manager.Voting.{
  decide, yes_count, answer, wait-decide, wait-failed, wait-next, opened, add_vote-other,
  add_vote-no, add_vote-yes, decide-other, decide-no, decide-yes,
}

-- Whether some vote for the transaction is a no.
abbrev pub any_no : ℤ → List Ballot → Bool
any_no tid [] = false
any_no tid ((vote, t) ∷ vs) =
    if int_eq t tid then (if vote then any_no tid vs else true) else any_no tid vs

abbrev failed : Manager → Manager
failed m = record m { votes = negsuc 0 }

add_vote-failed : (v : Ballot) (m : Manager) → m.votes ≡ negsuc 0 → add_vote v m ≡ m
unfolding add_vote
add_vote-failed (b, t) m h = ground (arith, h)

add_votes-failed : (vs : List Ballot) (m : Manager) → m.votes ≡ negsuc 0 → add_votes vs m ≡ m
unfolding add_votes
add_votes-failed [] m h = refl
add_votes-failed (v ∷ vs) m h = ap (add_votes vs) (add_vote-failed v m h) ∙ add_votes-failed vs m h

plus_zero : (k : ℕ) → k ≡ k + 0
plus_zero k = omega arith

numbers : (a b : ℕ) → suc a + b ≡ a + suc b
numbers a b = omega arith

numbers' : (a b : ℕ) → suc a + suc b ≡ suc (suc a + b)
numbers' a b = omega arith

suc_plus : (a b : ℕ) → suc a + b ≡ suc (a + b)
suc_plus a b = omega arith

yes_count-mine :
    (tid t : ℤ) (vs : List Ballot)
    → int_eq t tid ≡ true
    → yes_count tid ((true, t) ∷ vs) ≡ suc (yes_count tid vs)
yes_count-mine tid t vs h = rw h

yes_count-other :
    (tid : ℤ) (b : Bool) (t : ℤ) (vs : List Ballot)
    → int_eq t tid ≡ false
    → yes_count tid ((b, t) ∷ vs) ≡ yes_count tid vs
yes_count-other tid b t vs h = rw h

-- The votes counted after all of them.
abbrev counted_votes : ℕ → ℤ → List Ballot → ℤ
counted_votes k tid vs = if any_no tid vs then negsuc 0 else pos (k + yes_count tid vs)

pub add_votes-counted :
    (vs : List Ballot) (m : Manager) (k : ℕ)
    → m.votes ≡ pos k
    → k + yes_count m.world.tx.tid vs < 2 ^ 31
    → add_votes vs m ≡ record m { votes = counted_votes k m.world.tx.tid vs }
unfolding add_votes
add_votes-counted [] m k h l = ap (λ v. record m { votes = v }) (h ∙ ap pos (plus_zero k))
add_votes-counted ((true, t) ∷ vs) m k h l = elim (Bool-cases (int_eq t m.world.tx.tid)) [
  | inl mine ↦
      let room : suc k + yes_count m.world.tx.tid vs < 2 ^ 31 =
        omega (arith, yes_count-mine m.world.tx.tid t vs mine) in
      ap (add_votes vs) (add_vote-yes t m k mine h (omega arith))
      ∙ add_votes-counted vs (record m { votes = pos (suc k) }) (suc k) refl room
      ∙ rw mine (
          ap (λ (n : ℕ). record m { votes = if any_no m.world.tx.tid vs then negsuc 0 else pos n })
            (numbers k (yes_count m.world.tx.tid vs)))
  | inr other ↦
      let room : k + yes_count m.world.tx.tid vs < 2 ^ 31 =
        omega (arith, yes_count-other m.world.tx.tid true t vs other) in
      rw (add_vote-other true t m other, other) (add_votes-counted vs m k h room)
]
add_votes-counted ((false, t) ∷ vs) m k h l = elim (Bool-cases (int_eq t m.world.tx.tid)) [
  | inl mine ↦ rw (add_vote-no t m mine, mine) (add_votes-failed vs (failed m) refl)
  | inr other ↦
      let room : k + yes_count m.world.tx.tid vs < 2 ^ 31 =
        omega (arith, yes_count-other m.world.tx.tid false t vs other) in
      rw (add_vote-other false t m other, other) (add_votes-counted vs m k h room)
]

-- The rule over the votes that come in first: a no decides, and else the yes votes are not missing
-- any more.
decide-append :
    (tid : ℤ) (vs rest : List Ballot) (left : ℕ)
    → decide tid (suc left + yes_count tid vs) (vs ++ rest)
      ≡ (if any_no tid vs then some false else decide tid (suc left) rest)
decide-append tid [] rest left = ap (λ (n : ℕ). decide tid n rest) (sym (plus_zero (suc left)))
decide-append tid ((true, t) ∷ vs) rest left = elim (Bool-cases (int_eq t tid)) [
  | inl mine ↦
      ap (λ (n : ℕ). decide tid n ((true, t) ∷ (vs ++ rest)))
        (rw (yes_count-mine tid t vs mine) (numbers' left (yes_count tid vs)))
      ∙ decide-yes tid t (suc left + yes_count tid vs) (vs ++ rest) mine
      ∙ rw mine (decide-append tid vs rest left)
  | inr other ↦
      ap (λ (n : ℕ). decide tid (suc left + n) ((true, t) ∷ (vs ++ rest)))
        (yes_count-other tid true t vs other)
      ∙ decide-other tid true t (suc left + yes_count tid vs) (vs ++ rest) other
      ∙ rw other (decide-append tid vs rest left)
]
decide-append tid ((false, t) ∷ vs) rest left = elim (Bool-cases (int_eq t tid)) [
  | inl mine ↦
      ap (λ (n : ℕ). decide tid n ((false, t) ∷ (vs ++ rest))) (suc_plus left _)
      ∙ decide-no tid t (left + yes_count tid ((false, t) ∷ vs)) (vs ++ rest) mine
      ∙ rw mine
  | inr other ↦
      ap (λ (n : ℕ). decide tid (suc left + n) ((false, t) ∷ (vs ++ rest)))
        (yes_count-other tid false t vs other)
      ∙ decide-other tid false t (suc left + yes_count tid vs) (vs ++ rest) other
      ∙ rw other (decide-append tid vs rest left)
]

split :
    (tid : ℤ) (vs : List Ballot) (n : ℕ) (rest : List Ballot)
    → yes_count tid vs ≤ n
    → decide tid (suc n) (vs ++ rest)
      ≡ (if any_no tid vs then some false else decide tid (suc (n - yes_count tid vs)) rest)
split tid vs n rest y =
    ap (λ (k : ℕ). decide tid k (vs ++ rest)) (whole n (yes_count tid vs) y)
    ∙ decide-append tid vs rest (n - yes_count tid vs)
  where
    whole : (n given : ℕ) → given ≤ n → suc n ≡ suc (n - given) + given
    whole n given y = omega arith

-- From no votes on, with n + 1 votes to come and less than 2 ^ 31 of them, and at most n yes-votes
-- in before the coordinator's own: the votes that came in while the transaction ran, its own vote,
-- and those that come in while it waits decide as the rule does over all of them in this order.
pub conclude-decide :
    (during later : List Ballot) (own : Bool) (m : Manager) (n : ℕ)
    → m.votes ≡ pos 0
    → m.voting_total ≡ pos (suc n)
    → suc n < 2 ^ 31
    → yes_count m.world.tx.tid during ≤ n
    → answer (wait_end_voting later (add_vote (own, m.world.tx.tid) (add_votes during m)))
      ≡ decide m.world.tx.tid (suc n) (during ++ (own, m.world.tx.tid) ∷ later)
conclude-decide during later own m n h k l y =
    let tid = m.world.tx.tid in
    let given = yes_count tid during in
    elim (Bool-cases (any_no tid during)) [
      | inl lost ↦
          rw
            (
              add_votes-counted during m 0 h (omega arith),
              split tid during n ((own, tid) ∷ later) y,
              lost,
              add_vote-failed (own, tid) (failed m) refl,
            )
            (ap answer (wait-failed later (failed m) refl (suc n) k))
      | inr still ↦
          rw
            (
              add_votes-counted during m 0 h (omega arith),
              split tid during n ((own, tid) ∷ later) y,
              still,
            )
            (ap answer (
                sym (
                  wait-next (own, tid) later (record m { votes = pos (0 + given) })
                    (opened (record m { votes = pos (0 + given) }) (0 + given) (suc n) refl k
                      (omega arith))))
              ∙ wait-decide ((own, tid) ∷ later) (record m { votes = pos (0 + given) })
                  (suc (n - given)) (0 + given) refl (k ∙ ap pos (whole n given y)) (omega arith))
    ]
  where
    whole : (n given : ℕ) → given ≤ n → suc n ≡ 0 + given + suc (n - given)
    whole n given y = omega arith
