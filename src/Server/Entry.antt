-- ===== src/Server/Entry.antt =====
-- How a client enters server.cpp: login as a sender or a receiver, and the error.
use csf_hw.Prelude.{
  ℕ, ◌+◌, ◌≤◌, ◌≡◌, refl, ap, ◌∙◌, Bool, true, false, [], ◌∷◌, ◌++◌, length, none, some, get_elem?,
  get_elem?-concat_last, arith, if◌then◌else◌,
}
use csf_hw.Outcome.{Outcome, done}
use csf_hw.Text.{Str, codes, str_eq, c_str, has}
use csf_hw.Message.{
  Message, make_message, empty_message, max_len, tag_slogin, tag_rlogin, tag_delivery, tag_err,
  tag_ok,
}
use csf_hw.Csapp.{Csapp, Documented}
use csf_hw.Connection.{Connection, Received, message_text, send, receive}
use csf_hw.Connection.Fields.{IsPlain}
use csf_hw.Connection.Send.{Sends, send-Sends}
use csf_hw.Connection.Receive.{Receives, receive_line}
use csf_hw.Server.{create_user}
use csf_hw.Server.Rooms.{IsValid}
use csf_hw.Server.Session.{InSession}
use csf_hw.Server.Session.NewUser.{create_user-InSession}
use csf_hw.Server.Chat.{Chat, respond, chat_with_sender}
use csf_hw.Server.Draining.{bytes_of}
use csf_hw.User.{new_user}
use csf_hw.Server.Receiver.{chat_with_receiver}
use csf_hw.Server.Login.{
  login_text, handle_client_login, handle_client_communication, send_login_success_response,
  send_login_error_response,
}

abbrev pub login_tag : Bool → Str
login_tag sender = if sender then tag_slogin else tag_rlogin

abbrev pub greeting : Bool → Str
greeting sender = if sender then codes "ok:Sender logged in\n" else codes "ok:Receiver logged in\n"

module _ (cs : Csapp) (doc : Documented cs) where
  open doc use {outgoing, incoming}

  -- `text` is written in answer to a line of the client, and `rest` stays unread.
  pub record Answered (text rest : Str) (c after : Chat cs) : Type 0 where
    pub fd : after.conn.m_fd ≡ c.conn.m_fd
    pub written : outgoing c.conn.m_fd after.net ≡ outgoing c.conn.m_fd c.net ++ text
    pub unread : incoming after.conn.m_fdbuf after.net ≡ rest

  -- The chat on which the thread then runs.
  abbrev pub chat : Bool → ℕ → ℕ → Chat cs → Outcome (Chat cs)
  chat sender rounds user c =
      if sender
      then chat_with_sender cs rounds user c.conn c.net c.store
      else chat_with_receiver cs rounds user c.conn c.net c.store

  respond-Answered :
      (response : Message) (c : Chat cs)
      → Answered (bytes_of response) (incoming c.conn.m_fdbuf c.net) c (respond cs response c)
  unfolding respond
  respond-Answered response c = record {
    fd = ap (λ (k : Connection cs). k.m_fd) sends.conn;
    written = sends.outgoing_lem;
    unread =
        ap (λ (k : Connection cs). incoming k.m_fdbuf (send cs c.conn response c.net).net)
          sends.conn
        ∙ sends.incoming_lem c.conn.m_fdbuf;
  }
    where
      sends : Sends cs doc c.conn response c.net
      sends = send-Sends cs doc c.conn response c.net

  -- The line `tag:field` is received, and `response` answered.
  pub record Heard (tag field rest : Str) (response : Message) (c : Chat cs) : Type 0 where
    pub received : Received cs
    pub returns : receive cs c.conn empty_message c.net ≡ done received
    pub ok : received.ok ≡ true
    pub msg_lem : received.msg ≡ make_message tag (field ++ b'\n' ∷ [])
    pub answered :
        Answered
          (bytes_of response)
          rest
          c
          (respond cs response (record c { conn = received.conn; net = received.net }))

  pub hear :
      (tag field rest : Str) (response : Message) (c : Chat cs)
      → incoming c.conn.m_fdbuf c.net ≡ tag ++ (b':' ∷ (field ++ b'\n' ∷ rest))
      → IsPlain tag
      → IsPlain field
      → str_eq tag tag_delivery ≡ false
      → length tag + length field + 3 ≤ max_len
      → Heard tag field rest response c
  hear tag field rest response c arrives pt pf nd fits = record {
    received = r.result;
    returns = r.returns;
    ok = r.ok;
    msg_lem = r.msg_lem;
    answered = record {
      fd = a.fd ∙ r.fd;
      written =
          rw r.fd at a.written ∙ ap (λ s. s ++ bytes_of response) (r.outgoing_lem c.conn.m_fd);
      unread = a.unread ∙ r.incoming_lem;
    };
  }
    where
      r : Receives cs doc c.conn c.net empty_message (make_message tag (field ++ b'\n' ∷ [])) rest
      r = receive_line cs doc c.conn c.net tag field rest empty_message arrives pt pf nd fits

      heard : Chat cs
      heard = record c { conn = r.result.conn; net = r.result.net }

      a :
          Answered
            (bytes_of response)
            (incoming heard.conn.m_fdbuf heard.net)
            heard
            (respond cs response heard)
      a = respond-Answered response heard

  -- The thread goes on with the chat that the login asks for, as a new user in no room.
  pub record Enters (sender : Bool) (field rest : Str) (rounds : ℕ) (c : Chat cs) : Type 0 where
    pub after : Chat cs
    pub returns : handle_client_login cs rounds c ≡ chat sender rounds (length c.store.users) after
    pub session : InSession (length c.store.users) none after.store
    pub user_lem :
        get_elem? after.store.users (length c.store.users) ≡ some (new_user (field ++ b'\n' ∷ []))
    pub answered : Answered (greeting sender) rest c after

  -- While the descriptors work as documented and the store is valid, if the first line of a client
  -- is `slogin` or `rlogin` with a name without colon, newline or NUL, at most 246 bytes long, then
  -- the thread writes exactly the greeting for that tag and goes on as `chat_with_sender` or
  -- `chat_with_receiver`, for a new last user with that name and a new queue, in a session in no
  -- room.
  pub handle_client_login-Enters :
      (sender : Bool) (rounds : ℕ) (field rest : Str) (c : Chat cs)
      → IsValid c.store
      → incoming c.conn.m_fdbuf c.net ≡ login_tag sender ++ (b':' ∷ (field ++ b'\n' ∷ rest))
      → IsPlain field
      → length field + 9 ≤ max_len
      → Enters sender field rest rounds c
  unfolding handle_client_login handle_client_communication send_login_success_response str_eq
      login_text c_str message_text has create_user respond
  handle_client_login-Enters true rounds field rest c v arrives pf fits =
      let h =
        hear tag_slogin field rest (make_message tag_ok (codes "Sender logged in")) c arrives
          (record { no_colon = refl; no_newline = refl; no_nul = refl }) pf refl
          (omega (arith, fits)) in
      record {
        after =
            record (respond cs (make_message tag_ok (codes "Sender logged in"))
              (record c { conn = h.received.conn; net = h.received.net })) {
                store = (create_user (field ++ b'\n' ∷ []) c.store).1;
              };
        returns = rw h.returns (rw (h.ok, h.msg_lem) refl);
        session = create_user-InSession (field ++ b'\n' ∷ []) c.store v;
        user_lem = get_elem?-concat_last c.store.users _;
        answered = record {
          fd = h.answered.fd;
          written = h.answered.written;
          unread = h.answered.unread;
        };
      }
  handle_client_login-Enters false rounds field rest c v arrives pf fits =
      let h =
        hear tag_rlogin field rest (make_message tag_ok (codes "Receiver logged in")) c arrives
          (record { no_colon = refl; no_newline = refl; no_nul = refl }) pf refl
          (omega (arith, fits)) in
      record {
        after =
            record (respond cs (make_message tag_ok (codes "Receiver logged in"))
              (record c { conn = h.received.conn; net = h.received.net })) {
                store = (create_user (field ++ b'\n' ∷ []) c.store).1;
              };
        returns = rw h.returns (rw (h.ok, h.msg_lem) refl);
        session = create_user-InSession (field ++ b'\n' ∷ []) c.store v;
        user_lem = get_elem?-concat_last c.store.users _;
        answered = record {
          fd = h.answered.fd;
          written = h.answered.written;
          unread = h.answered.unread;
        };
      }

  -- The thread ends after the error, and nothing of the server has changed.
  pub record Refuses (rest : Str) (rounds : ℕ) (c : Chat cs) : Type 0 where
    pub after : Chat cs
    pub returns : handle_client_login cs rounds c ≡ done after
    pub store : after.store ≡ c.store
    pub answered : Answered (codes "err:Login unsuccessful\n") rest c after

  -- While the descriptors work as documented, if the first line of a client is `tag:field`, both
  -- free of colons, newlines and NULs, at most 254 bytes, and the tag is none of `slogin`, `rlogin`
  -- and `delivery`, then the thread writes exactly the login error, changes nothing in the store,
  -- and returns.
  pub handle_client_login-Refuses :
      (rounds : ℕ) (tag field rest : Str) (c : Chat cs)
      → incoming c.conn.m_fdbuf c.net ≡ tag ++ (b':' ∷ (field ++ b'\n' ∷ rest))
      → IsPlain tag
      → IsPlain field
      → length tag + length field + 3 ≤ max_len
      → str_eq tag tag_delivery ≡ false
      → str_eq tag tag_slogin ≡ false
      → str_eq tag tag_rlogin ≡ false
      → Refuses rest rounds c
  unfolding handle_client_login send_login_error_response c_str message_text respond str_eq
  handle_client_login-Refuses rounds tag field rest c arrives pt pf fits nd ns nr =
      let response = make_message tag_err (codes "Login unsuccessful") in
      let h = hear tag field rest response c arrives pt pf nd fits in
      record {
        after = respond cs response (record c { conn = h.received.conn; net = h.received.net });
        returns = rw h.returns (rw (h.ok, h.msg_lem) (rw (ns, nr) refl));
        store = refl;
        answered = h.answered;
      }
