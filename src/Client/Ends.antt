-- ===== src/Client/Ends.antt =====
-- That the loop of `verifica_modificacao` in mainClient.cpp ends, and what it sends.
use file_syncer.Prelude.{
  ℕ, suc, ◌≤◌, ◌≡◌, refl, Bool, true, false, Option, none, some, List, [], ◌∷◌, ◌++◌, if◌then◌else◌,
  arith,
}
use file_syncer.Prelude.Text.{Text}
use file_syncer.Messages.{Request}
use file_syncer.Utils.{Xxh64}
use file_syncer.Client.{delete_request}
use file_syncer.Client.Watch.{
  Event, Found, Turn, goes_on, leaves, throws, send_modified, until_unmuted, Watched, handled,
  looping, failed, watch_events,
}

-- The looks at which the flag is not set.
abbrev pub unmuted : List Bool → ℕ
unmuted [] = 0
unmuted (muted ∷ looks) = if muted then unmuted looks else suc (unmuted looks)

abbrev pub needs_look : Event → Bool
needs_look e = elim e.name [ none ↦ false | some name ↦ e.close_write ]

-- The events that ask for a look.
abbrev pub writes : List (Event × Found) → ℕ
writes [] = 0
writes ((e, f) ∷ events) = if needs_look e then suc (writes events) else writes events

abbrev pub is_looping : Watched → Bool
is_looping (handled rs events) = false
is_looping looping = true
is_looping failed = false

until_unmuted-some :
    (looks looks' : List Bool)
    → until_unmuted looks ≡ some looks'
    → unmuted looks ≡ suc (unmuted looks')
unfolding until_unmuted
until_unmuted-some [] looks' h = cc
until_unmuted-some (true ∷ looks) looks' h = until_unmuted-some looks looks' h
until_unmuted-some (false ∷ looks) looks' h = ground arith

until_unmuted-none : (looks : List Bool) → until_unmuted looks ≡ none → unmuted looks ≡ 0
unfolding until_unmuted
until_unmuted-none [] h = refl
until_unmuted-none (true ∷ looks) h = until_unmuted-none looks h
until_unmuted-none (false ∷ looks) h = cc

-- What follows the looks for one event, where the events after it end.
module _ (n : ℕ) (next : List Bool → List Request → Watched)
    (next-ends : (looks : List Bool) (out : List Request)
      → n ≤ unmuted looks
      → is_looping (next looks out) ≡ false) where
  turn-ends :
      (turn : Turn) (looks : List Bool) (out : List Request) (events : List (Event × Found))
      → n ≤ unmuted looks
      → is_looping (elim turn [
        | goes_on rs ↦ next looks (out ++ rs)
        | leaves rs ↦ handled (out ++ rs) events
        | throws ↦ failed
      ])
        ≡ false
  turn-ends (goes_on rs) looks out events h = next-ends looks (out ++ rs) h
  turn-ends (leaves rs) looks out events h = refl
  turn-ends throws looks out events h = refl

  looked-ends :
      (turn : Turn) (o : Option (List Bool)) (looks : List Bool) (out : List Request)
      (events : List (Event × Found))
      → until_unmuted looks ≡ o
      → suc n ≤ unmuted looks
      → is_looping (elim o [
        | none ↦ looping
        | some looks' ↦ elim turn [
          | goes_on rs ↦ next looks' (out ++ rs)
          | leaves rs ↦ handled (out ++ rs) events
          | throws ↦ failed
        ]
      ])
        ≡ false
  looked-ends turn none looks out events e h = ground (arith, until_unmuted-none looks e)
  looked-ends turn (some looks') looks out events e h =
      turn-ends turn looks' out events (ground (arith, until_unmuted-some looks looks' e))

  event-ends :
      (send : Text → Turn) (name : Option Text) (w d : Bool) (looks : List Bool)
      (out : List Request) (events : List (Event × Found))
      → (if elim name [ none ↦ false | some a ↦ w ] then suc n else n) ≤ unmuted looks
      → is_looping (elim name [
        | none ↦ next looks out
        | some name ↦ elim w [
          | true ↦ elim (until_unmuted looks) [
            | none ↦ looping
            | some looks' ↦ elim (send name) [
              | goes_on rs ↦ next looks' (out ++ rs)
              | leaves rs ↦ handled (out ++ rs) events
              | throws ↦ failed
            ]
          ]
          | false ↦ elim d [
            | true ↦ next looks (out ++ (delete_request name ∷ []))
            | false ↦ next looks out
          ]
        ]
      ])
        ≡ false
  event-ends send none w d looks out events h = next-ends looks out h
  event-ends send (some name) true d looks out events h =
      looked-ends (send name) (until_unmuted looks) looks out events refl h
  event-ends send (some name) false true looks out events h =
      next-ends looks (out ++ (delete_request name ∷ [])) h
  event-ends send (some name) false false looks out events h = next-ends looks out h

-- The loop of `verifica_modificacao` ends where `muteUpdate` is found clear at least once for every event of
-- a file that was written, whatever the server answers.
pub watch_events-ends :
    (xxh : Xxh64) (dir : Text) (looks : List Bool) (events : List (Event × Found))
    (out : List Request)
    → writes events ≤ unmuted looks
    → is_looping (watch_events xxh dir looks events out) ≡ false
unfolding watch_events
watch_events-ends xxh dir looks [] out h = refl
watch_events-ends xxh dir looks ((e, f) ∷ events) out h =
    event-ends (writes events) (λ l o. watch_events xxh dir l events o)
      (λ l o k. watch_events-ends xxh dir l events o k) (λ name. send_modified xxh dir name f)
      e.name e.close_write e.is_delete looks out events h
