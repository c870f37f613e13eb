-- ===== src/Tests/WholeTests.antt =====
-- A whole run of a client's thread from a reachable state of the threads.
use csf_hw.Prelude.{◌≡◌, refl, true, false}
use csf_hw.Outcome.{done}
use csf_hw.Text.{Str, codes, str_eq, c_str, tokens, getline_token, getline_rest, getline_loop}
use csf_hw.Csapp.{line_head, line_tail}
use csf_hw.Connection.{
  is_open, receive, received, divide_data, store_data, close, send, sent, is_size, message_text,
}
use csf_hw.Room.{add_member}
use csf_hw.Server.{find_or_create_room, find_room, put_room, at_room, create_user}
use csf_hw.Server.Chat.{
  Chat, chat_with_sender, sender_loop, sender_round, on_request, on_join, leave_room, close_chat,
  respond,
}
use csf_hw.Server.Threads.{World, Reach, here, next, login}
use csf_hw.Server.Login.{
  worker, handle_client_login, handle_client_communication, send_login_success_response, login_text,
}
use csf_hw.Server.Threads.Workers.{WithThread, worker-Reach}
use csf_hw.Tests.{wire, open_conn, with_input, read_wire}

abbrev logged_in : (w : World) × Reach w
logged_in = (_, next (next here (login (codes "ann") true)) (login (codes "bob") false))

-- A third client logs in as a sender, joins and quits.
abbrev cat_writes : Str
cat_writes = codes "slogin:cat\njoin:r\nquit:bye\n"

abbrev cat :
    (after : Chat wire) × (worker wire 2 open_conn (with_input cat_writes) logged_in.0.store
      ≡ done after)
unfolding worker handle_client_login handle_client_communication send_login_success_response
    login_text chat_with_sender sender_loop sender_round on_request on_join leave_room close_chat
    respond is_open receive received divide_data store_data close send sent is_size message_text
    line_head line_tail str_eq c_str tokens getline_token getline_rest getline_loop read_wire
    find_or_create_room find_room put_room at_room add_member create_user
cat = (_, refl)

worker-Reach_example : WithThread wire logged_in.0.threads cat.0
worker-Reach_example =
    worker-Reach wire 2 open_conn (with_input cat_writes) logged_in.0 cat.0 logged_in.1 cat.1
