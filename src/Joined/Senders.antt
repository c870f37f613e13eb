-- ===== src/Joined/Senders.antt =====
-- sender.cpp and the thread of server.cpp that serves it, each reading what the other writes.
use csf_hw.Prelude.{
  ℕ, ◌+◌, ◌≤◌, ◌≡◌, sym, ap, ◌∙◌, true, false, List, [], ◌∷◌, ◌++◌, append_assoc, length, ℤ, pos,
  is_neg,
}
use csf_hw.Text.{Str}
use csf_hw.Message.{max_len, tag_slogin}
use csf_hw.Csapp.{Csapp, Documented}
use csf_hw.Connection.{Connection}
use csf_hw.Connection.Fields.{IsPlain}
use csf_hw.Server.{Store}
use csf_hw.Server.Rooms.{IsValid}
use csf_hw.Server.Script.{Line, bytes, answers, IsScript}
use csf_hw.Server.Entry.{greeting}
use csf_hw.Server.Visit.{Visits, worker-Visits}
use csf_hw.Client.Play.{Command, lines_of}
use csf_hw.Client.Visit.{Attends}

module _ (cs : Csapp) (doc : Documented cs) where
  open doc use {outgoing, incoming}

  -- The thread reads all that the client has written, and has written all that the client reads.
  pub record Meets (lines : List Line) (heard rest : Str) (rounds : ℕ) (conn : Connection cs)
      (net : cs.Net) (st : Store) : Type 0 where
    pub visits : Visits cs doc lines [] rounds conn net st
    pub all_read : incoming visits.served.conn.m_fdbuf visits.served.net ≡ []
    pub all_answered : outgoing conn.m_fd visits.served.net ++ rest ≡ heard

  -- While the descriptors work as documented, let `sender_main-Attends` hold of a session of
  -- sender.cpp, with nothing written before it and nothing but the greeting, the answers and some
  -- further bytes arriving, and let exactly the bytes that the session has written be the input of
  -- a thread of server.cpp, with an open connection on which nothing has been written, a valid
  -- store and no other thread that changes it. Then the thread, allowed at least as many rounds as
  -- there are lines, ends as in `worker-Visits`, has read all that the client has written, and has
  -- written exactly what arrived at the client before the further bytes: client and server agree on
  -- every byte of the session, in both directions.
  pub sender_main-Meets :
      (program host name : Str) (port : ℤ) (fd : ℕ) (idle : cs.Rio) (net began : cs.Net)
      (cmds : List Command) (more rest : Str) (rounds rounds' : ℕ) (conn : Connection cs)
      (net' : cs.Net) (st : Store)
      (a : Attends cs doc program host name port fd idle net began cmds more rest rounds)
      → incoming (cs.rio_readinitb (pos fd)) began
        ≡ greeting true ++ (answers (lines_of cmds) false ++ rest)
      → outgoing (pos fd) began ≡ []
      → IsPlain name
      → length name + 9 ≤ max_len
      → IsScript false (lines_of cmds)
      → IsValid st
      → is_neg conn.m_fd ≡ false
      → outgoing conn.m_fd net' ≡ []
      → incoming conn.m_fdbuf net' ≡ outgoing (pos fd) a.played.net
      → Meets (lines_of cmds) (incoming (cs.rio_readinitb (pos fd)) began) rest rounds' conn net' st
  sender_main-Meets program host name port fd idle net began cmds more rest rounds rounds' conn net'
        st a arrives fresh pn short script v opened unwritten joined =
      record {
        visits = visits;
        all_read = visits.unread;
        all_answered =
            ap (λ t. t ++ rest)
              (visits.written
                ∙ ap (λ t. t ++ (greeting true ++ answers (lines_of cmds) false)) unwritten)
            ∙ append_assoc (greeting true) (answers (lines_of cmds) false) rest
            ∙ sym arrives;
      }
    where
      visits : Visits cs doc (lines_of cmds) [] rounds' conn net' st
      visits =
          worker-Visits cs doc name (lines_of cmds) [] rounds' conn net' st v opened
            (joined
              ∙ a.written
              ∙ ap (λ t. t ++ (tag_slogin ++ (b':' ∷ (name ++ b'\n' ∷ bytes (lines_of cmds) []))))
                  fresh)
            pn short script
