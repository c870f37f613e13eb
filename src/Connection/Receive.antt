-- ===== src/Connection/Receive.antt =====
-- What `receive` makes of the lines that arrive, and when it reads past its tokens.
use csf_hw.Prelude.{
  ℕ, ◌+◌, ◌≤◌, ◌≡◌, refl, sym, ap, ◌∙◌, ◌≢◌, Bool, true, false, [], ◌∷◌, ◌++◌, length,
  length-append, ℤ, is_neg, arith, append_assoc, if◌then◌else◌,
}
use csf_hw.Outcome.{done, ◌>>=◌}
use csf_hw.Text.{Str, str_eq, has}
use csf_hw.Text.Equality.{has-append_false, c_str_whole}
use csf_hw.Message.{Message, max_len, tag_delivery}
use csf_hw.Csapp.{Csapp, ReadLine, Documented}
use csf_hw.Csapp.Lines.{line_head-line, line_tail-line}
use csf_hw.Connection.Fields.{IsPlain, parse, parse_line}
use csf_hw.Connection.{Connection, Received, success, invalid_msg, divide_data, received, receive}

pub append-ne-nil : (s t : Str) (x : ℕ) → s ++ x ∷ t ≢ []
append-ne-nil [] t x e = cc
append-ne-nil (y ∷ s) t x e = cc

module _ (cs : Csapp) where
  -- What `received` returns once the tokens are stored.
  abbrev pub stored : ReadLine cs.Rio cs.Net → Connection cs → Bool × Message → Received cs
  stored r c (ok, msg) = record {
    ok = ok;
    msg = msg;
    conn = record c { m_fdbuf = r.rp; m_last_result = if ok then success else invalid_msg };
    net = r.net;
  }

  pub received-parse :
      (r : ReadLine cs.Rio cs.Net) (msg : Message) (c : Connection cs)
      → is_neg r.size ≡ false
      → received cs r msg c
        ≡ (parse (record msg { payload = r.shown }) >>= λ p. done (stored r c p))
  unfolding received divide_data
  received-parse r msg c h = rw h (ground arith)

module _ (cs : Csapp) (doc : Documented cs) (c : Connection cs) (net : cs.Net) where
  open doc use {
    outgoing, incoming, readlineb_size, readlineb_shown, readlineb_incoming, readlineb_outgoing,
  }

  -- `receive` succeeds with this message, takes one line off the input and writes nothing.
  pub record Receives (old msg : Message) (rest : Str) : Type 0 where
    pub result : Received cs
    pub returns : receive cs c old net ≡ done result
    pub ok : result.ok ≡ true
    pub msg_lem : result.msg ≡ msg
    pub fd : result.conn.m_fd ≡ c.m_fd
    pub last : result.conn.m_last_result ≡ success
    pub incoming_lem : incoming result.conn.m_fdbuf result.net ≡ rest
    pub outgoing_lem : (fd : ℤ) → outgoing fd result.net ≡ outgoing fd net

  abbrev line_read : ReadLine cs.Rio cs.Net
  line_read = cs.rio_readlineb c.m_fdbuf max_len net

  module _ (line rest : Str) (arrives : incoming c.m_fdbuf net ≡ line ++ b'\n' ∷ rest)
      (one_line : has b'\n' line ≡ false) (fits : length line + 2 ≤ max_len) where
    line_shown : has 0 line ≡ false → line_read.shown ≡ line ++ b'\n' ∷ []
    unfolding has
    line_shown whole =
        readlineb_shown c.m_fdbuf max_len net (omega arith)
          (rw arrives (append-ne-nil line rest b'\n'))
        ∙ (rw (arrives, line_head-line 254 line rest one_line (omega arith))
            (c_str_whole _ (has-append_false 0 line (b'\n' ∷ []) whole refl)))

    line_size : is_neg line_read.size ≡ false
    line_size = rw (readlineb_size c.m_fdbuf max_len net)

    line_left : incoming line_read.rp line_read.net ≡ rest
    line_left =
        readlineb_incoming c.m_fdbuf max_len net
        ∙ rw arrives (line_tail-line 254 line rest one_line (omega arith))

    -- A line that fits is received as the message that its text parses to.
    pub receive_parsed :
        (old msg : Message)
        → has 0 line ≡ false
        → parse (record old { payload = line ++ b'\n' ∷ [] }) ≡ done (true, msg)
        → Receives old msg rest
    unfolding receive
    receive_parsed old msg whole parsed = record {
      result = stored cs line_read c (true, msg);
      returns =
          received-parse cs line_read old c line_size
          ∙ rw (line_shown whole) (ap (λ p. p >>= λ q. done (stored cs line_read c q)) parsed);
      ok = refl;
      msg_lem = refl;
      fd = refl;
      last = refl;
      incoming_lem = line_left;
      outgoing_lem = readlineb_outgoing c.m_fdbuf max_len net;
    }

  -- A line `tag:field` is received whole, its newline left at the end of the data.
  pub receive_line :
      (tag field rest : Str) (old : Message)
      → incoming c.m_fdbuf net ≡ tag ++ (b':' ∷ (field ++ b'\n' ∷ rest))
      → IsPlain tag
      → IsPlain field
      → str_eq tag tag_delivery ≡ false
      → length tag + length field + 3 ≤ max_len
      → Receives old (record { tag = tag; payload = field ++ b'\n' ∷ [] }) rest
  unfolding has
  receive_line tag field rest old arrives pt pf nd fits =
      receive_parsed (tag ++ b':' ∷ field) rest
        (arrives ∙ sym (append_assoc tag (b':' ∷ field) (b'\n' ∷ rest)))
        (has-append_false b'\n' tag (b':' ∷ field) pt.no_newline pf.no_newline)
        (omega (arith, length-append tag (b':' ∷ field))) old
        (record { tag = tag; payload = field ++ b'\n' ∷ [] })
        (has-append_false 0 tag (b':' ∷ field) pt.no_nul pf.no_nul)
        (rw (append_assoc tag (b':' ∷ field) (b'\n' ∷ []))
          (parse_line tag field old pt.no_colon pf.no_colon nd))
