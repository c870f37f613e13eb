-- ===== src/Server/Replies.antt =====
-- The sender's loop on the wire: one answer for each line, and an end at `quit`.
use csf_hw.Prelude.{
  ℕ, ◌+◌, ◌≤◌, ◌≡◌, refl, ap, ◌∙◌, ◌≢◌, Bool, false, not, [], ◌∷◌, ◌++◌, none, length, arith,
}
use csf_hw.Outcome.{done}
use csf_hw.Text.{Str, str_eq, c_str}
use csf_hw.Message.{
  Message, make_message, empty_message, max_len, tag_quit, tag_leave, tag_delivery,
}
use csf_hw.Csapp.{Csapp, Documented}
use csf_hw.Connection.{Connection, message_text, send}
use csf_hw.Connection.Fields.{IsPlain}
use csf_hw.Connection.Send.{Sends, send-Sends, too_long}
use csf_hw.Connection.Receive.{Receives, receive_line}
use csf_hw.Server.Chat.{Chat, respond, sender_round}
use csf_hw.Server.Session.{in_room, InSession}
use csf_hw.Server.Session.Requests.{
  response_to, inside_after, held_after, is_held, Handles, on_request-Handles,
}

-- Every answer of the server is short and holds no NUL.
response-short : (msg : Message) (inside : Bool) → too_long (response_to msg inside) ≡ false
unfolding c_str
response-short msg inside = ground arith

response-c_str :
    (msg : Message) (inside : Bool)
    → c_str (message_text (response_to msg inside)) ≡ message_text (response_to msg inside)
unfolding c_str message_text str_eq
response-c_str msg inside = ground arith

module _ (cs : Csapp) (doc : Documented cs) where
  open doc use {outgoing, incoming}

  -- A response is written whole on the connection; its descriptor and its input stay.
  record Responds (response : Message) (c : Chat cs) : Type 0 where
    fd : (respond cs response c).conn.m_fd ≡ c.conn.m_fd
    written :
        outgoing c.conn.m_fd (respond cs response c).net
        ≡ outgoing c.conn.m_fd c.net ++ message_text response
    unread :
        incoming (respond cs response c).conn.m_fdbuf (respond cs response c).net
        ≡ incoming c.conn.m_fdbuf c.net

  respond-Responds :
      (msg : Message) (inside : Bool) (c : Chat cs) → Responds (response_to msg inside) c
  unfolding respond
  respond-Responds msg inside c = record {
    fd = ap (λ (k : Connection cs). k.m_fd) sends.conn;
    written = sends.outgoing_lem ∙ rw (response-short msg inside, response-c_str msg inside) refl;
    unread =
        ap
          (λ (k : Connection cs).
            incoming k.m_fdbuf (send cs c.conn (response_to msg inside) c.net).net)
          sends.conn
        ∙ sends.incoming_lem c.conn.m_fdbuf;
  }
    where
      sends : Sends cs doc c.conn (response_to msg inside) c.net
      sends = send-Sends cs doc c.conn (response_to msg inside) c.net

  respond-InSession :
      (user : ℕ) (response : Message) (c : Chat cs)
      → InSession user c.room c.store
      → InSession user (respond cs response c).room (respond cs response c).store
  unfolding respond
  respond-InSession user response c s = s

  -- One round: the line `msg.tag:field` is taken off the input, exactly the answer that
  -- `response_to` gives is written, and the session goes on.
  pub record Answers (user : ℕ) (msg : Message) (rest : Str) (c : Chat cs) : Type 0 where
    pub after : Chat cs
    pub returns : sender_round cs user c ≡ done (not (str_eq msg.tag tag_quit), after)
    pub session : InSession user after.room after.store
    pub inside_lem :
        in_room user after.room after.store ≡ inside_after msg (in_room user c.room c.store)
    pub held_lem : is_held after.room ≡ held_after msg (is_held c.room)
    pub fd : after.conn.m_fd ≡ c.conn.m_fd
    pub unread : incoming after.conn.m_fdbuf after.net ≡ rest
    pub written :
        outgoing c.conn.m_fd after.net
        ≡ outgoing c.conn.m_fd c.net ++ message_text (response_to msg (in_room user c.room c.store))

  -- While the descriptors work as documented, let the next line of a sender in a session be
  -- `tag:field`, both free of colons, newlines and NULs, the tag not `delivery`, the line at most
  -- 254 bytes, and not a `leave` while no room is held. Then one round of `chat_with_sender`
  -- succeeds, takes exactly that line off the input, writes exactly the answer that the independent
  -- table `response_to` gives for the tag and for whether the user is in the room, asks for another
  -- round unless the tag is `quit`, keeps the descriptor, and leaves the user in a session, in
  -- which the tag alone tells from before whether a room is held and whether the user is in it.
  pub sender_round-Answers :
      (user : ℕ) (tag field rest : Str) (c : Chat cs)
      → InSession user c.room c.store
      → incoming c.conn.m_fdbuf c.net ≡ tag ++ (b':' ∷ (field ++ b'\n' ∷ rest))
      → IsPlain tag
      → IsPlain field
      → str_eq tag tag_delivery ≡ false
      → length tag + length field + 3 ≤ max_len
      → (tag ≡ tag_leave → c.room ≢ none)
      → Answers user (make_message tag (field ++ b'\n' ∷ [])) rest c
  unfolding sender_round respond
  sender_round-Answers user tag field rest c s arrives pt pf nd fits held = record {
    after = respond cs response (record heard { room = h.room; store = h.after });
    returns = rw r.returns (rw (r.ok, r.msg_lem) h.returns);
    session =
        respond-InSession user response (record heard { room = h.room; store = h.after }) h.session;
    inside_lem = h.inside_lem;
    held_lem = h.held_lem;
    fd = w.fd ∙ r.fd;
    unread = w.unread ∙ r.incoming_lem;
    written =
        rw r.fd at w.written ∙ ap (λ s. s ++ message_text response) (r.outgoing_lem c.conn.m_fd);
  }
    where
      msg : Message
      msg = make_message tag (field ++ b'\n' ∷ [])

      r : Receives cs doc c.conn c.net empty_message msg rest
      r = receive_line cs doc c.conn c.net tag field rest empty_message arrives pt pf nd fits

      heard : Chat cs
      heard = record c { conn = r.result.conn; net = r.result.net }

      h : Handles cs user msg heard
      h = on_request-Handles cs user msg heard s held

      response : Message
      response = response_to msg (in_room user c.room c.store)

      w : Responds response (record heard { room = h.room; store = h.after })
      w = respond-Responds msg (in_room user c.room c.store) _
