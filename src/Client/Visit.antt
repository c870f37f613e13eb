-- ===== src/Client/Visit.antt =====
-- All of sender.cpp: connecting, login, a session, and the end of the connection.
use csf_hw.Prelude.{
  ℕ, ◌+◌, ◌≤◌, ◌≡◌, refl, ap, ◌∙◌, true, false, List, [], ◌∷◌, ◌++◌, append_assoc, length, some, ℤ,
  pos, arith,
}
use csf_hw.Outcome.{done, ◌>>=◌}
use csf_hw.Text.{Str, codes, c_str, str_eq, has}
use csf_hw.Text.Equality.{c_str_whole}
use csf_hw.Text.Decimal.{to_string, in_range, stoi-to_string}
use csf_hw.Message.{make_message, max_len, tag_slogin, tag_ok}
use csf_hw.Csapp.{Csapp, Documented}
use csf_hw.Connection.{success, unconnected, connect, is_open, destroy, message_text}
use csf_hw.Connection.Fields.{IsPlain}
use csf_hw.Server.Script.{bytes, answers, IsScript}
use csf_hw.Server.Entry.{greeting}
use csf_hw.Client.{Client, new_client, connect_client, exit_on_err}
use csf_hw.Client.Sender.{sender_main}
use csf_hw.Client.Requests.{Arrives, Exchanges, exchange-Exchanges}
use csf_hw.Client.Play.Loop.{Plays, command_loop-Plays}
use csf_hw.Client.Play.{
  Command, lines_of, typed_all, complaints, AllCommands, line_text, sent_line, sent_lem,
}

module _ (cs : Csapp) (doc : Documented cs) where
  open doc use {outgoing, incoming}

  -- The client once connected.
  abbrev pub connected : ℕ → cs.Net → Str → Client cs
  connected fd net stdin = record {
    conn = record { m_fd = pos fd; m_fdbuf = cs.rio_readinitb (pos fd); m_last_result = success };
    net = net;
    stdin = stdin;
    out = [];
    errors = [];
  }

  -- `played` is the state before the descriptor is closed, which is the last step.
  pub record Attends (program host name : Str) (port : ℤ) (fd : ℕ) (idle : cs.Rio)
      (net began : cs.Net) (cmds : List Command) (more rest : Str) (rounds : ℕ) : Type 0 where
    pub played : Client cs
    pub returns :
        sender_main cs
          (length cmds + rounds)
          (program ∷ host ∷ to_string port ∷ name ∷ [])
          idle
          net
          (typed_all cmds more)
        ≡ (do net' ← cs.close_fd (pos fd) played.net; done (record played { net = net' }))
    pub written :
        outgoing (pos fd) played.net
        ≡ outgoing (pos fd) began
          ++ (tag_slogin ++ (b':' ∷ (name ++ b'\n' ∷ bytes (lines_of cmds) [])))
    pub unread : incoming played.conn.m_fdbuf played.net ≡ rest
    pub stdin : played.stdin ≡ more
    pub errors : played.errors ≡ complaints cmds false

  greeting_lem :
      (rest : Str) (c : Client cs)
      → incoming c.conn.m_fdbuf c.net ≡ greeting true ++ rest
      → Arrives cs doc tag_ok (codes "Sender logged in") rest c
  unfolding has str_eq
  greeting_lem rest c arrives = record {
    arrives = arrives;
    tag_plain = record { no_colon = refl; no_newline = refl; no_nul = refl };
    field_plain = record { no_colon = refl; no_newline = refl; no_nul = refl };
    no_delivery = refl;
    fits = omega arith;
  }

  pub connect_lem :
      (error host stdin : Str) (port : ℤ) (fd : ℕ) (idle : cs.Rio) (net began : cs.Net)
      → cs.open_clientfd (c_str host) (c_str (to_string port)) net ≡ (pos fd, began)
      → connect_client cs error host port (new_client cs idle net stdin)
        ≡ done (connected fd began stdin)
  unfolding connect_client connect new_client unconnected is_open
  connect_lem error host stdin port fd idle net began opens = rw opens refl

  -- While the descriptors work as documented, let sender.cpp be started with a host, the decimal
  -- text of a port that fits an `int`, and a name free of colons, newlines and NULs and at most 246
  -- bytes long, and let connecting give a descriptor. Let lines be typed, each standing for a
  -- request as in the independent table `Typed`: `/join ` in front joins, else `/leave` anywhere
  -- leaves, else `/quit` anywhere quits, and any other text is sent to all; let the lines sent for
  -- them form a script as in `worker-Visits`; and let the greeting and the answers arrive that
  -- `worker-Visits` says are written. Then `main`, allowed at least as many rounds as there are
  -- lines typed, writes exactly the login and the script, takes exactly those lines and those
  -- answers, prints on the error stream, in order, the texts of the `err` answers and nothing else,
  -- and ends with closing the descriptor.
  pub sender_main-Attends :
      (program host name : Str) (port : ℤ) (fd : ℕ) (idle : cs.Rio) (net began : cs.Net)
      (cmds : List Command) (more rest : Str) (rounds : ℕ)
      → in_range port ≡ some port
      → cs.open_clientfd (c_str host) (c_str (to_string port)) net ≡ (pos fd, began)
      → IsPlain name
      → length name + 9 ≤ max_len
      → AllCommands cmds
      → IsScript false (lines_of cmds)
      → incoming (cs.rio_readinitb (pos fd)) began
        ≡ greeting true ++ (answers (lines_of cmds) false ++ rest)
      → Attends program host name port fd idle net began cmds more rest rounds
  unfolding sender_main is_open destroy exit_on_err str_eq has line_text
  sender_main-Attends program host name port fd idle net began cmds more rest rounds int opens pn
        short all script arrives =
      record {
        played = p.after;
        returns = rw (stoi-to_string port int) (
            rw (connect_lem _ host (typed_all cmds more) port fd idle net began opens)
              (rw x.returns (rw p.returns (rw (p.fd, x.fd) refl))));
        written =
            rw x.fd at p.written
            ∙ ap (λ t. t ++ bytes (lines_of cmds) [])
                (x.written ∙ ap (λ t. outgoing (pos fd) began ++ t) asked_lem)
            ∙ simp append_assoc;
        unread = p.unread;
        stdin = p.stdin;
        errors = p.errors ∙ ap (λ t. t ++ complaints cmds false) x.errors;
      }
    where
      asked_lem :
          c_str (message_text (make_message tag_slogin name))
          ≡ line_text (sent_line (make_message tag_slogin name))
      asked_lem = sent_lem (make_message tag_slogin name) (record {
        tag_plain = record { no_colon = refl; no_newline = refl; no_nul = refl };
        field_plain = pn;
        no_delivery = refl;
        fits = omega (arith, short);
      })

      start : Client cs
      start = connected fd began (typed_all cmds more)

      x :
          Exchanges cs doc
            (codes "Send slogin not successful.\n")
            (codes "Received slogin not successful.\n")
            (make_message tag_slogin name)
            (make_message tag_ok (codes "Sender logged in\n"))
            (answers (lines_of cmds) false ++ rest)
            start
      x =
          exchange-Exchanges cs doc _ _ (make_message tag_slogin name) tag_ok
            (codes "Sender logged in") (answers (lines_of cmds) false ++ rest) start
            (ground (arith, c_str_whole name pn.no_nul))
            (greeting_lem (answers (lines_of cmds) false ++ rest) start arrives)

      p : Plays cs doc cmds false more rest rounds x.after
      p =
          command_loop-Plays cs doc cmds false false more rest rounds x.after all script x.stdin
            x.unread
