-- ===== src/Listener/Served.antt =====
-- Which connections a listener of Listener.h serves, and that its end stops them all.
use file_syncer.Prelude.{
  ◌≡◌, refl, sym, ap, ◌∙◌, Bool, true, false, Option, none, some, List, [], ◌∷◌, ◌++◌, map,
  append_assoc, append-nil, if◌then◌else◌,
}
use mathlib.Core.Option
use file_syncer.Prelude.Int.{ℤ}
use file_syncer.Prelude.Text.{Text}
use file_syncer.Listener.{
  Handler, Listener, new_listener, Accepted, accept_loop, Setup, execute, stop_handler, stop,
}

-- The sockets that were accepted before the listener was told to stop.
abbrev pub served : List Accepted → List ℤ
served [] = []
served (a ∷ accepts) =
    let rest = served accepts in
    if a.still_running then elim a.socket [ none ↦ rest | some i ↦ i ∷ rest ] else []

abbrev pub start_handler : ℤ → Handler
start_handler i = record { socket = i; running = true }

accept_loop-handlers :
    (accepts : List Accepted) (l : Listener)
    → (accept_loop accepts l).handlers ≡ l.handlers ++ map start_handler (served accepts)
unfolding accept_loop
accept_loop-handlers [] l = sym (append-nil l.handlers)
accept_loop-handlers (a ∷ accepts) l =
    go (λ k. accept_loop-handlers accepts k) a.still_running a.socket
  where
    go :
        ((k : Listener)
          → (accept_loop accepts k).handlers ≡ k.handlers ++ map start_handler (served accepts))
        → (b : Bool) (o : Option ℤ)
        → (if b
            then elim o [
              | none ↦ accept_loop accepts l
              | some i ↦
                  accept_loop accepts (record l { handlers = l.handlers ++ (start_handler i ∷ []) })
            ]
            else record l { is_running = false; is_open = false }).handlers
          ≡ l.handlers
            ++ map start_handler
                (if b then elim o [ none ↦ served accepts | some i ↦ i ∷ served accepts ] else [])
    go next true none = next l
    go next true (some i) =
        next (record l { handlers = l.handlers ++ (start_handler i ∷ []) })
        ∙ append_assoc l.handlers (start_handler i ∷ []) (map start_handler (served accepts))
    go next false o = sym (append-nil l.handlers)

stopped :
    (is : List ℤ)
    → map stop_handler (map start_handler is) ≡ map (λ i. record { socket = i; running = false }) is
unfolding stop_handler
stopped [] = refl
stopped (i ∷ is) =
    ap (λ (hs : List Handler). record { socket = i; running = false } ∷ hs) (stopped is)

-- A listener whose socket, address and binding are granted comes up, gives every connection that is
-- accepted before its end a handler, in the order of the connections, goes on after an error, and
-- when it is stopped each of those handlers is stopped, and no other is there.
pub execute-stop :
    (accepts : List Accepted) (g : Setup) (host : Text) (port : ℤ)
    → g.socket ≡ true
    → g.address ≡ true
    → g.binding ≡ true
    → Option.map (λ l. (stop l).handlers) (execute g accepts (new_listener host port))
      ≡ some (map (λ i. record { socket = i; running = false }) (served accepts))
unfolding execute stop new_listener
execute-stop accepts g host port s a b =
    rw (s, a, b)
      (ap (λ (hs : List Handler). some (map stop_handler hs)) (accept_loop-handlers accepts _)
        ∙ ap some (stopped (served accepts)))
