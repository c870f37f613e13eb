-- ===== src/Client/Sender.antt =====
-- sender.cpp: login, then a loop that turns each line typed into a request.
use mathlib.Core.Option
use csf_hw.Prelude.{
  ℕ, zero, suc, ◌+◌, Bool, true, false, ◌&&◌, List, [], ◌∷◌, Option, none, some, ◌==◌, length, drop,
  if◌then◌else◌,
}
use csf_hw.Outcome.{Outcome, done, exited, unfinished, ◌>>=◌, or_throw}
use csf_hw.Text.{Str, codes, getline_token, getline_rest}
use csf_hw.Text.Decimal.{stoi}
use csf_hw.Message.{make_message, tag_slogin, tag_join, tag_leave, tag_quit, tag_sendall}
use csf_hw.Csapp.{Csapp}
use csf_hw.Connection.{destroy}
use csf_hw.Client.{Client, new_client, connect_client, exchange, report, exit_on_err}

-- `std::string::find` of a string; `none` is `npos`.
unfoldable pub starts_with : Str → Str → Bool
starts_with [] s = true
starts_with (x ∷ sub) [] = false
starts_with (x ∷ sub) (c ∷ s) = x == c && starts_with sub s

unfoldable pub find_str : Str → Str → Option ℕ
unfolding starts_with
find_str sub [] = if starts_with sub [] then some 0 else none
find_str sub (c ∷ s) =
    let rest = Option.map suc (find_str sub s) in if starts_with sub (c ∷ s) then some 0 else rest

module _ (cs : Csapp) where
  unfoldable pub on_join_command : Str → ℕ → Client cs → Outcome (Bool × Client cs)
  on_join_command user_command at c = do
    let room_name = drop (at + length (codes "/join ")) user_command
    (response, c') ←
        exchange cs (codes "Sending join not successful.\n")
          (codes "Receiving join not successful.\n") (make_message tag_join room_name) c
    done (true, report cs [] response c')

  unfoldable pub on_leave_command : Client cs → Outcome (Bool × Client cs)
  on_leave_command c = do
    (response, c') ←
        exchange cs (codes "Sending leave not successful.\n")
          (codes "Receiving after leave not successful.\n") (make_message tag_leave []) c
    done (true, report cs (codes "\n") response c')

  unfoldable pub on_quit_command : Client cs → Outcome (Bool × Client cs)
  on_quit_command c = do
    (response, c') ←
        exchange cs (codes "Sending quit not successful.\n")
          (codes "Receiving after quit not successful.\n") (make_message tag_quit []) c
    done (false, report cs (codes "\n") response c')

  unfoldable pub on_text : Str → Client cs → Outcome (Bool × Client cs)
  on_text user_command c = do
    (response, c') ←
        exchange cs (codes "Sending sendall not successful.\n")
          (codes "Receiving after sendall not successful.\n")
          (make_message tag_sendall user_command) c
    done (true, report cs [] response c')

  -- The body of the loop behind `getline`; `true` means that the loop goes on.
  unfoldable pub on_command : Str → Client cs → Outcome (Bool × Client cs)
  on_command user_command c = elim (find_str (codes "/join ") user_command) [
    | some at ↦ on_join_command user_command at c
    | none ↦ elim (find_str (codes "/leave") user_command) [
      | some at ↦ on_leave_command c
      | none ↦ elim (find_str (codes "/quit") user_command) [
        | some at ↦ on_quit_command c
        | none ↦ on_text user_command c
      ]
    ]
  ]

  -- `std::getline (std::cin, user_command)`: at the end of the input the string stays empty.
  unfoldable pub command_round : Client cs → Outcome (Bool × Client cs)
  command_round c =
      on_command (getline_token b'\n' c.stdin) (record c { stdin = getline_rest b'\n' c.stdin })

  -- With a bound on the rounds.
  unfoldable pub command_loop : ℕ → Client cs → Outcome (Client cs)
  command_loop zero c = unfinished
  command_loop (suc rounds) c = do
    (again, c') ← command_round c
    let rest = command_loop rounds c'
    if again then rest else done c'

  -- `main` with its arguments, up to a number of rounds.
  unfoldable pub sender_main : ℕ → List Str → cs.Rio → cs.Net → Str → Outcome (Client cs)
  sender_main rounds (program ∷ hostname ∷ port_text ∷ username ∷ []) idle net stdin = do
    port ← or_throw (stoi port_text)
    c₁ ←
        connect_client cs (codes "Could not connect to server\n") hostname port
          (new_client cs idle net stdin)
    (response, c₂) ←
        exchange cs (codes "Send slogin not successful.\n")
          (codes "Received slogin not successful.\n") (make_message tag_slogin username) c₁
    c₃ ← exit_on_err cs response c₂
    c₄ ← command_loop rounds c₃
    net' ← destroy cs c₄.conn c₄.net
    done (record c₄ { net = net' })
  sender_main rounds _ idle net stdin =
      exited 1 (codes "Usage: ./sender [server_address] [port] [username]\n")
