-- ===== src/Client/Receiver.antt =====
-- receiver.cpp: login and join, then a loop that prints what is delivered.
use csf_hw.Prelude.{
  ℕ, zero, suc, ◌-◌, ◌+◌, not, List, [], ◌∷◌, ◌++◌, get_elem?, ltb, ◌==◌, length, take, drop,
  if◌then◌else◌,
}
use csf_hw.Outcome.{Outcome, done, exited, ◌>>=◌, or_throw, deref}
use csf_hw.Text.{Str, codes, c_str, str_eq}
use csf_hw.Text.Decimal.{stoi}
use csf_hw.Message.{make_message, empty_message, tag_rlogin, tag_join, tag_delivery}
use csf_hw.Csapp.{Csapp}
use csf_hw.Connection.{receive}
use csf_hw.Client.{Client, new_client, connect_client, exchange, exit_on_err, give_up}

-- The loop over `received_data` from `i` on, where `rest` stands: `data_storage` at its end, and
-- `prev_colon_pos`.
unfoldable pub split_loop : Str → Str → ℕ → ℕ → List Str → List Str × ℕ
split_loop received_data [] i prev storage = (storage, prev)
split_loop received_data (curr_char ∷ rest) i prev storage =
    if curr_char == b':'
    then split_loop received_data rest (suc i) (i + 1)
        (storage ++ take (i - prev) (drop prev received_data) ∷ [])
    else split_loop received_data rest (suc i) prev storage

unfoldable pub split_data : Str → List Str
split_data received_data =
    let (storage, prev) = split_loop received_data received_data 0 0 [] in
    if ltb prev (length received_data) then storage ++ drop prev received_data ∷ [] else storage

-- What is printed of a delivery.
unfoldable pub delivery_line : Str → Outcome Str
delivery_line received_data =
    let storage = split_data received_data in
    if ltb 2 (length storage)
    then (do
      sender ← deref (get_elem? storage 1)
      text ← deref (get_elem? storage 2)
      done (c_str sender ++ (codes ": " ++ c_str text)))
    else done []

module _ (cs : Csapp) where
  -- One round of the loop that never ends.
  unfoldable pub print_round : Client cs → Outcome (Client cs)
  print_round c = do
    r ← receive cs c.conn empty_message c.net
    let c' = record c { conn = r.conn; net = r.net }
    if not r.ok then give_up cs (codes "Receive from server not successful.\n") c' else (do
      c'' ← exit_on_err cs r.msg c'
      if str_eq r.msg.tag tag_delivery
          then (do line ← delivery_line r.msg.payload; done (record c'' { out = c''.out ++ line }))
          else done c'')

  -- Its first rounds.
  unfoldable pub print_loop : ℕ → Client cs → Outcome (Client cs)
  print_loop zero c = done c
  print_loop (suc rounds) c = do c' ← print_round c; print_loop rounds c'

  -- `main` with its arguments, up to a number of rounds.
  unfoldable pub receiver_main : ℕ → List Str → cs.Rio → cs.Net → Outcome (Client cs)
  receiver_main rounds (program ∷ hostname ∷ port_text ∷ username ∷ room_name ∷ []) idle net = do
    port ← or_throw (stoi port_text)
    c₁ ←
        connect_client cs (codes "Couldn't connect to server.\n") hostname port
          (new_client cs idle net [])
    (logged_in, c₂) ←
        exchange cs (codes "Send rlogin not successful.\n")
          (codes "Receive from server not successful.\n") (make_message tag_rlogin username) c₁
    c₃ ← exit_on_err cs logged_in c₂
    (joined, c₄) ←
        exchange cs (codes "join messages not successful.\n")
          (codes "Receive from server not successful.\n") (make_message tag_join room_name) c₃
    c₅ ← exit_on_err cs joined c₄
    print_loop rounds c₅
  receiver_main rounds _ idle net =
      exited 1 (codes "Usage: ./receiver [server_address] [port] [username] [room]\n")
