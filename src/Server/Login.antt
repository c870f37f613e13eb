-- ===== src/Server/Login.antt =====
-- The functions of server.cpp that a client's thread starts with: login, then the chat.
use csf_hw.Prelude.{ℕ, not, none, ◌||◌, if◌then◌else◌}
use csf_hw.Outcome.{Outcome, done, ◌>>=◌}
use csf_hw.Text.{Str, codes, str_eq}
use csf_hw.Message.{empty_message, tag_err, tag_ok, tag_slogin, tag_rlogin}
use csf_hw.Csapp.{Csapp}
use csf_hw.Connection.{Connection, receive}
use csf_hw.Server.{Store, create_user}
use csf_hw.Server.Chat.{Chat, reply, chat_with_sender}
use csf_hw.Server.Receiver.{chat_with_receiver}

unfoldable pub login_text : Str → Str
login_text tag =
    if str_eq tag tag_slogin
    then codes "Sender logged in"
    else if str_eq tag tag_rlogin
    then codes "Receiver logged in"
    else codes "Unknown login type"

module _ (cs : Csapp) where
  unfoldable pub send_login_success_response : Str → Chat cs → Chat cs
  send_login_success_response tag c = reply cs tag_ok (login_text tag) c

  unfoldable pub send_login_error_response : Chat cs → Chat cs
  send_login_error_response c = reply cs tag_err (codes "Login unsuccessful") c

  -- `rounds` bounds the loop of the chat.
  unfoldable pub handle_client_communication : ℕ → Str → Str → Chat cs → Outcome (Chat cs)
  handle_client_communication rounds user_type message_text c =
      let (user, st) = create_user message_text c.store in
      if str_eq user_type tag_slogin
      then chat_with_sender cs rounds user c.conn c.net st
      else if str_eq user_type tag_rlogin
      then chat_with_receiver cs rounds user c.conn c.net st
      else done (record c { store = st })

  unfoldable pub handle_client_login : ℕ → Chat cs → Outcome (Chat cs)
  handle_client_login rounds c = do
    r ← receive cs c.conn empty_message c.net
    let c' = record c { conn = r.conn; net = r.net }
    if not r.ok
        then done (send_login_error_response c')
        else if str_eq r.msg.tag tag_slogin || str_eq r.msg.tag tag_rlogin
        then handle_client_communication rounds r.msg.tag r.msg.payload
            (send_login_success_response r.msg.tag c')
        else done (send_login_error_response c')

  -- The thread of a new client. `pthread_detach` has no effect here.
  unfoldable pub worker : ℕ → Connection cs → cs.Net → Store → Outcome (Chat cs)
  worker rounds conn net st =
      handle_client_login rounds (record { conn = conn; net = net; store = st; room = none })
