-- ===== src/Client/Play/Loop.antt =====
-- The loop of sender.cpp over a session.
use csf_hw.Prelude.{
  ℕ, suc, inl, inr, ◌+◌, ◌≡◌, refl, sym, ap, ◌∙◌, Bool, true, false, not, List, [], ◌∷◌, ◌++◌,
  length, append-nil, append_assoc, arith,
}
use csf_hw.Outcome.{done}
use csf_hw.Text.{Str, str_eq}
use csf_hw.Message.{Message, tag_err, tag_quit}
use csf_hw.Csapp.{Csapp, Documented}
use csf_hw.Connection.{message_text}
use csf_hw.Server.Session.Requests.{response_to, inside_after, held_after}
use csf_hw.Server.Script.{request, bytes, answers, IsLine, IsScript}
use csf_hw.Client.{Client}
use csf_hw.Client.Sender.{command_round, command_loop}
use csf_hw.Client.Requests.{Arrives}
use csf_hw.Client.Commands.{command_round-Obeys}
use csf_hw.Client.Play.{
  AllCommands, Command, IsCommand, IsScript-cases, IsScript-line, IsScript-nil, bytes_lem,
  complaint, complaint_lem, complaints, line_text, lines_of, lines_of-nil, response-IsPlain,
  response-message_text, response_tag-IsPlain, sent_lem, sent_line, short_lem, typed_all,
}

module _ (cs : Csapp) (doc : Documented cs) where
  open doc use {outgoing, incoming}

  Arrives-answers :
      (msg : Message) (inside : Bool) (rest : Str) (c : Client cs)
      → incoming c.conn.m_fdbuf c.net ≡ message_text (response_to msg inside) ++ rest
      → Arrives cs doc (response_to msg inside).tag (response_to msg inside).payload rest c
  unfolding str_eq
  Arrives-answers msg inside rest c arrives = record {
    arrives = arrives ∙ response-message_text msg inside rest;
    tag_plain = response_tag-IsPlain msg inside;
    field_plain = response-IsPlain msg inside;
    no_delivery = ground arith;
    fits = ground arith;
  }

  -- The client's loop ends after what was typed.
  pub record Plays (cmds : List Command) (inside : Bool) (more rest : Str) (rounds : ℕ)
      (c : Client cs) : Type 0 where
    pub after : Client cs
    pub returns : command_loop cs (length cmds + rounds) c ≡ done after
    pub fd : after.conn.m_fd ≡ c.conn.m_fd
    pub written :
        outgoing c.conn.m_fd after.net ≡ outgoing c.conn.m_fd c.net ++ bytes (lines_of cmds) []
    pub unread : incoming after.conn.m_fdbuf after.net ≡ rest
    pub stdin : after.stdin ≡ more
    pub errors : after.errors ≡ c.errors ++ complaints cmds inside

  record Steps (cmd : Command) (inside again : Bool) (more rest : Str) (c : Client cs)
      : Type 0 where
    after : Client cs
    returns : command_round cs c ≡ done (again, after)
    fd : after.conn.m_fd ≡ c.conn.m_fd
    written :
        outgoing c.conn.m_fd after.net ≡ outgoing c.conn.m_fd c.net ++ line_text (sent_line cmd.msg)
    unread : incoming after.conn.m_fdbuf after.net ≡ rest
    stdin : after.stdin ≡ more
    errors : after.errors ≡ c.errors ++ complaint cmd inside

  command_round-Steps :
      (cmd : Command) (inside : Bool) (more rest : Str) (c : Client cs)
      → IsCommand cmd
      → IsLine (sent_line cmd.msg)
      → c.stdin ≡ cmd.typed ++ b'\n' ∷ more
      → incoming c.conn.m_fdbuf c.net
        ≡ message_text (response_to (request (sent_line cmd.msg)) inside) ++ rest
      → Steps cmd inside (not (str_eq cmd.msg.tag tag_quit)) more rest c
  command_round-Steps cmd inside more rest c k l typed arrives =
      let response = response_to (request (sent_line cmd.msg)) inside in
      let (after, returns, o) =
        command_round-Obeys cs doc cmd.typed cmd.behind more response.tag response.payload rest
          cmd.msg c typed k.one_line k.stands_for
          (short_lem cmd.typed cmd.behind cmd.msg k.stands_for l)
          (Arrives-answers (request (sent_line cmd.msg)) inside rest c arrives) in
      record {
        after = after;
        returns = returns;
        fd = o.fd;
        written = o.written ∙ ap (λ b. outgoing c.conn.m_fd c.net ++ b) (sent_lem cmd.msg l);
        unread = o.unread;
        stdin = o.stdin;
        errors =
            o.errors
            ∙ complaint_lem (str_eq response.tag tag_err) c.errors response.payload cmd.behind
                (response-IsPlain (request (sent_line cmd.msg)) inside).no_nul;
      }

  loop_last :
      (n m : ℕ) (again : Bool) (c after : Client cs)
      → n ≡ suc m
      → command_round cs c ≡ done (again, after)
      → again ≡ false
      → command_loop cs n c ≡ done after
  unfolding command_loop
  loop_last n m again c after more e stops = ap (λ k. command_loop cs k c) more ∙ rw (e, stops) refl

  loop_next :
      (n m : ℕ) (again : Bool) (c after : Client cs)
      → n ≡ suc m
      → command_round cs c ≡ done (again, after)
      → again ≡ true
      → command_loop cs n c ≡ command_loop cs m after
  unfolding command_loop
  loop_next n m again c after more e goes = ap (λ k. command_loop cs k c) more ∙ rw (e, goes) refl

  -- While the descriptors work as documented, let lines be typed at a sending client, each standing
  -- for a request as in the independent table `Typed`: `/join ` in front joins, else `/leave`
  -- anywhere leaves, else `/quit` anywhere quits, and any other text is sent to all. Let the lines
  -- sent for them form a script as in `sender_loop-Serves`, and let the bytes to arrive be the
  -- answers that the automaton `answers` owes to that script. Then the client's loop returns after
  -- as many rounds as there are lines typed, whatever further rounds are allowed; it has written
  -- exactly the script, has taken exactly those lines and those answers, and has printed on the
  -- error stream, in order, the texts of the `err` answers and nothing else.
  pub command_loop-Plays :
      (cmds : List Command) (inside held : Bool) (more rest : Str) (rounds : ℕ) (c : Client cs)
      → AllCommands cmds
      → IsScript held (lines_of cmds)
      → c.stdin ≡ typed_all cmds more
      → incoming c.conn.m_fdbuf c.net ≡ answers (lines_of cmds) inside ++ rest
      → Plays cmds inside more rest rounds c
  command_loop-Plays [] inside held more rest rounds c all script typed arrives =
      absurd (IsScript-nil script refl)
  command_loop-Plays (cmd ∷ cmds) inside held more rest rounds c all script typed arrives =
      elim (IsScript-cases script) [
        | inl (q, last) ↦
            let none_left = lines_of-nil cmds last in
            record {
              after = first.after;
              fd = first.fd;
              returns =
                  loop_last _ (length cmds + rounds) _ c first.after (omega arith) first.returns
                    (ap not q);
              written =
                  first.written
                  ∙ ap (λ b. outgoing c.conn.m_fd c.net ++ b)
                      (sym (
                        bytes_lem (sent_line cmd.msg) (lines_of cmds)
                        ∙ ap (λ ls. line_text (sent_line cmd.msg) ++ bytes ls []) last
                        ∙ append-nil (line_text (sent_line cmd.msg))));
              unread = first.unread ∙ ap (λ ls. answers ls after_first ++ rest) last;
              stdin = first.stdin ∙ ap (λ cs. typed_all cs more) none_left;
              errors =
                  first.errors
                  ∙ ap (λ e. c.errors ++ e)
                      (sym (
                        ap (λ cs. complaint cmd inside ++ complaints cs after_first) none_left
                        ∙ append-nil (complaint cmd inside)));
            }
        | inr (no_quit, others) ↦
            let d =
              command_loop-Plays cmds after_first (held_after (request (sent_line cmd.msg)) held)
                more rest rounds first.after all.1 others first.stdin first.unread in
            record {
              after = d.after;
              fd = d.fd ∙ first.fd;
              returns =
                  loop_next _ (length cmds + rounds) _ c first.after (omega arith) first.returns
                    (ap not no_quit)
                  ∙ d.returns;
              written =
                  rw first.fd at d.written
                  ∙ ap (λ b. b ++ bytes (lines_of cmds) []) first.written
                  ∙ append_assoc (outgoing c.conn.m_fd c.net) (line_text (sent_line cmd.msg))
                      (bytes (lines_of cmds) [])
                  ∙ ap (λ b. outgoing c.conn.m_fd c.net ++ b)
                      (sym (bytes_lem (sent_line cmd.msg) (lines_of cmds)));
              unread = d.unread;
              stdin = d.stdin;
              errors =
                  d.errors
                  ∙ ap (λ e. e ++ complaints cmds after_first) first.errors
                  ∙ append_assoc c.errors (complaint cmd inside) (complaints cmds after_first);
            }
      ]
    where
      after_first : Bool
      after_first = inside_after (request (sent_line cmd.msg)) inside

      first :
          Steps cmd inside
            (not (str_eq cmd.msg.tag tag_quit))
            (typed_all cmds more)
            (answers (lines_of cmds) after_first ++ rest)
            c
      first =
          command_round-Steps cmd inside (typed_all cmds more)
            (answers (lines_of cmds) after_first ++ rest) c all.0 (IsScript-line script) typed
            (arrives ∙ append_assoc _ (answers (lines_of cmds) after_first) rest)
