-- ===== src/Client/LogsOut.antt =====
-- The front end logs out once, and last.
use file_syncer.Prelude.{
  ◌≡◌, refl, ap, ℕ, suc, ◌+◌, Bool, true, false, Option, some, List, [], ◌∷◌, ◌++◌, arith,
  Option-cases, Bool-cases, inl, inr, if◌then◌else◌,
}
use file_syncer.Prelude.Text.{Text}
use file_syncer.Disk.{Disk}
use file_syncer.Messages.{RequestType, Request, Response}
use file_syncer.Utils.{Xxh64}
use file_syncer.Client.{
  new_request, file_update_request, delete_request, data_request, download_request, upload_request,
}
use file_syncer.Client.Terminal.{Command, keeps_running, Buffers, front_end_turn}
use file_syncer.Client.Commands.{
  Ran, Told, Client, FrontEnd, ended, at_prompt, overran, crashed, run_command, front_end,
}

abbrev is_logout : RequestType → Bool
is_logout RequestType.logout = true
is_logout other = false

-- How many of the requests are a LOGOUT.
unfoldable pub logouts : List Request → ℕ
logouts [] = 0
logouts (r ∷ rs) = let rest = logouts rs in if is_logout r.request_type then suc rest else rest

logouts-append : (rs qs : List Request) → logouts (rs ++ qs) ≡ logouts rs + logouts qs
unfolding logouts
logouts-append [] qs = omega arith
logouts-append (r ∷ rs) qs = ground (arith, logouts-append rs qs)

logout_request : Request
logout_request = new_request RequestType.logout

-- The requests after the loop, where these were sent before it.
abbrev pub LogsOut : List Request → FrontEnd → Type 0
LogsOut sent (ended rs d told) =
    (before : List Request) × (rs ≡ before ++ (new_request RequestType.logout ∷ []))
    × (logouts before ≡ logouts sent)
LogsOut sent (at_prompt rs d told) = logouts rs ≡ logouts sent
LogsOut sent (overran rs) = logouts rs ≡ logouts sent
LogsOut sent (crashed rs) = logouts rs ≡ logouts sent

-- Requests without a LOGOUT do not count.
LogsOut-more :
    (sent rs : List Request) (x : FrontEnd)
    → logouts rs ≡ 0
    → LogsOut (sent ++ rs) x
    → LogsOut sent x
LogsOut-more sent rs (ended all d told) z (before, e, h) =
    (before, e, ground (arith, logouts-append sent rs))
LogsOut-more sent rs (at_prompt all d told) z h = ground (arith, logouts-append sent rs)
LogsOut-more sent rs (overran all) z h = ground (arith, logouts-append sent rs)
LogsOut-more sent rs (crashed all) z h = ground (arith, logouts-append sent rs)

module _ (xxh : Xxh64) (client : Client) where
  logouts-run_command :
      (command : Command) (answer : Option Response) (d : Disk) (r : Ran)
      → run_command xxh client command answer d ≡ some r
      → keeps_running command ≡ true
      → logouts r.requests ≡ 0
  unfolding run_command keeps_running logouts new_request delete_request file_update_request
      download_request upload_request data_request
  logouts-run_command Command.help answer d r e k = ground arith
  logouts-run_command Command.get_sync_dir answer d r e k = ground arith
  logouts-run_command Command.list_client answer d r e k = ground arith
  logouts-run_command Command.list_server answer d r e k = ground arith
  logouts-run_command Command.exit answer d r e k = ground arith
  logouts-run_command Command.ping answer d r e k = ground arith
  logouts-run_command Command.show_host_ip answer d r e k = ground arith
  logouts-run_command Command.unknown answer d r e k = ground arith
  logouts-run_command (Command.download path) answer d r e k = ground arith
  logouts-run_command (Command.upload path) answer d r e k = ground arith
  logouts-run_command (Command.delete path) answer d r e k = ground arith

  last-run_command :
      (command : Command) (answer : Option Response) (d : Disk) (r : Ran)
      → run_command xxh client command answer d ≡ some r
      → keeps_running command ≡ false
      → r.requests ≡ new_request RequestType.logout ∷ []
  unfolding run_command keeps_running
  last-run_command command answer d r e k = ground arith

  -- Whatever is typed and answered, the loop sends a LOGOUT only where it ends: then one, and as the last
  -- of its requests. Where it waits at the prompt, or a word went behind its buffer, or an exception
  -- ended the program, it has sent none.
  pub front_end-LogsOut :
      (turns : List (Option Text × Option Response)) (b : Buffers) (d : Disk) (sent : List Request)
      (told : List Told)
      → LogsOut sent (front_end xxh client turns b d sent told)
  unfolding front_end
  front_end-LogsOut [] b d sent told = refl
  front_end-LogsOut ((input, answer) ∷ turns) b d sent told =
      elim (Option-cases (front_end_turn input b)) [
        | inl e ↦ rw (front_end, e) refl
        | inr ((c, b'), e) ↦ elim (Option-cases (run_command xxh client c answer d)) [
          | inl x ↦ rw (front_end, e, x) refl
          | inr (r, x) ↦ elim (Bool-cases (keeps_running c)) [
            | inl k ↦
                rw (front_end, e, x, k)
                  (LogsOut-more sent r.requests _ (logouts-run_command c answer d r x k) (
                    front_end-LogsOut turns b' r.files (sent ++ r.requests)
                      (told ++ (r.told ∷ []))))
            | inr k ↦
                rw (front_end, e, x, k)
                  (sent, ap (λ y. sent ++ y) (last-run_command c answer d r x k), refl)
          ]
        ]
      ]
