-- ===== src/Client/Requests.antt =====
-- A request of a client and the response to it, on the wire.
use csf_hw.Prelude.{◌+◌, ◌≤◌, ◌≡◌, refl, ap, ◌∙◌, false, [], ◌∷◌, ◌++◌, length}
use csf_hw.Outcome.{done}
use csf_hw.Text.{Str, str_eq, c_str}
use csf_hw.Message.{Message, make_message, empty_message, max_len, tag_delivery}
use csf_hw.Csapp.{Csapp, Documented}
use csf_hw.Connection.{Connection, message_text, send}
use csf_hw.Connection.Fields.{IsPlain}
use csf_hw.Connection.Send.{too_long, Sends, send-Sends}
use csf_hw.Connection.Receive.{Receives, receive_line}
use csf_hw.Client.{Client, exchange}

module _ (cs : Csapp) (doc : Documented cs) where
  open doc use {outgoing, incoming}

  -- The line `tag:field` is the next to arrive.
  pub record Arrives (tag field rest : Str) (c : Client cs) : Type 0 where
    pub arrives : incoming c.conn.m_fdbuf c.net ≡ tag ++ (b':' ∷ (field ++ b'\n' ∷ rest))
    pub tag_plain : IsPlain tag
    pub field_plain : IsPlain field
    pub no_delivery : str_eq tag tag_delivery ≡ false
    pub fits : length tag + length field + 3 ≤ max_len

  -- The request is written whole and the response taken off the input; nothing is printed.
  pub record Exchanges (send_error receive_error : Str) (msg response : Message) (rest : Str)
      (c : Client cs) : Type 0 where
    pub after : Client cs
    pub returns : exchange cs send_error receive_error msg c ≡ done (response, after)
    pub fd : after.conn.m_fd ≡ c.conn.m_fd
    pub written :
        outgoing c.conn.m_fd after.net ≡ outgoing c.conn.m_fd c.net ++ c_str (message_text msg)
    pub unread : incoming after.conn.m_fdbuf after.net ≡ rest
    pub stdin : after.stdin ≡ c.stdin
    pub out : after.out ≡ c.out
    pub errors : after.errors ≡ c.errors

  pub exchange-Exchanges :
      (send_error receive_error : Str) (msg : Message) (tag field rest : Str) (c : Client cs)
      → too_long msg ≡ false
      → Arrives tag field rest c
      → Exchanges send_error receive_error msg (make_message tag (field ++ b'\n' ∷ [])) rest c
  unfolding exchange
  exchange-Exchanges send_error receive_error msg tag field rest c short a = record {
    after = record asked { conn = r.result.conn; net = r.result.net };
    returns = rw (s.ok, short) (rw (r.returns, r.ok, r.msg_lem) refl);
    fd = r.fd ∙ ap (λ (k : Connection cs). k.m_fd) s.conn;
    written = r.outgoing_lem c.conn.m_fd ∙ s.outgoing_lem ∙ rw short refl;
    unread = r.incoming_lem;
    stdin = refl;
    out = refl;
    errors = refl;
  }
    where
      s : Sends cs doc c.conn msg c.net
      s = send-Sends cs doc c.conn msg c.net

      asked : Client cs
      asked = let sent = send cs c.conn msg c.net in record c { conn = sent.conn; net = sent.net }

      r :
          Receives cs doc asked.conn asked.net empty_message
            (make_message tag (field ++ b'\n' ∷ []))
            rest
      r =
          receive_line cs doc asked.conn asked.net tag field rest empty_message
            (ap (λ (k : Connection cs). incoming k.m_fdbuf asked.net) s.conn
              ∙ s.incoming_lem c.conn.m_fdbuf
              ∙ a.arrives)
            a.tag_plain a.field_plain a.no_delivery a.fits
