-- ===== src/Connection/Send.antt =====
-- What `send` writes and reports.
use csf_hw.Prelude.{
  ℕ, ◌≡◌, Bool, true, not, [], ◌++◌, length, ltb, pos, arith, append-nil, if◌then◌else◌,
}
use csf_hw.Text.{Str, c_str}
use csf_hw.Message.{Message, max_len}
use csf_hw.Csapp.{Csapp, Documented}
use csf_hw.Connection.{Connection, success, invalid_msg, message_text, sent, send}

-- `send` refuses this message without writing.
abbrev pub too_long : Message → Bool
too_long msg = ltb max_len (length (c_str msg.payload))

sent_whole :
    (cs : Csapp) (n : ℕ) (c : Connection cs)
    → sent cs (pos n) n c ≡ (true, record c { m_last_result = success })
unfolding sent
sent_whole cs n c = ground arith

module _ (cs : Csapp) (doc : Documented cs) where
  open doc use {outgoing, incoming, writen_size, writen_outgoing, writen_incoming}

  pub record Sends (c : Connection cs) (msg : Message) (net : cs.Net) : Type 0 where
    pub ok : (send cs c msg net).ok ≡ not (too_long msg)
    pub conn :
        (send cs c msg net).conn
        ≡ record c { m_last_result = if too_long msg then invalid_msg else success }
    pub outgoing_lem :
        outgoing c.m_fd (send cs c msg net).net
        ≡ outgoing c.m_fd net ++ (if too_long msg then [] else c_str (message_text msg))
    pub incoming_lem : (rp : cs.Rio) → incoming rp (send cs c msg net).net ≡ incoming rp net

  -- While the descriptors work as documented, `send` either writes the encoded message whole,
  -- reports success and sets `m_last_result` to success, or, exactly if the data has more than 255
  -- bytes, writes nothing, reports failure and sets it to `invalid_msg`; unread input is left
  -- alone.
  pub send-Sends : (c : Connection cs) (msg : Message) (net : cs.Net) → Sends c msg net
  unfolding send
  send-Sends c msg net = record {
    ok = ground (arith, size, whole);
    conn = ground (arith, size, whole);
    outgoing_lem =
        ground (arith, writen_outgoing c.m_fd text net, append-nil (outgoing c.m_fd net));
    incoming_lem = λ rp. ground (arith, writen_incoming c.m_fd text net rp);
  }
    where
      text : Str
      text = c_str (message_text msg)

      size : (cs.rio_writen c.m_fd text net).0 ≡ pos (length text)
      size = writen_size c.m_fd text net

      whole :
          sent cs (pos (length text)) (length text) c ≡ (true, record c { m_last_result = success })
      whole = sent_whole cs (length text) c
