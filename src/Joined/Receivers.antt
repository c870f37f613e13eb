-- ===== src/Joined/Receivers.antt =====
-- receiver.cpp and the thread of server.cpp that serves it, each reading what the other writes.
use csf_hw.Prelude.{
  ℕ, ◌+◌, ◌≤◌, ◌≡◌, refl, sym, ap, ◌∙◌, false, List, [], ◌∷◌, ◌++◌, append_assoc, length, ℤ, pos,
  is_neg, map,
}
use csf_hw.Text.{Str, codes, str_eq}
use csf_hw.Message.{max_len, tag_rlogin, tag_join}
use csf_hw.Csapp.{Csapp, Documented}
use csf_hw.Connection.{Connection}
use csf_hw.Connection.Fields.{IsPlain}
use csf_hw.Server.{Store}
use csf_hw.Server.Rooms.{IsValid}
use csf_hw.Server.Entry.{greeting}
use csf_hw.Server.Draining.{bytes_of_all, AllForwarded, Waits, Drains, receiver_loop-Drains}
use csf_hw.Server.Visit.{Admitted, worker-Admitted}
use csf_hw.Client.Feed.{Told, message_of}
use csf_hw.Client.Follow.{Follows}

-- No broadcast stops the receiver's loop in the server.
message_of-AllForwarded : (ts : List Told) → AllForwarded (map message_of ts)
unfolding str_eq
message_of-AllForwarded [] = tt
message_of-AllForwarded (t ∷ ts) = (refl, message_of-AllForwarded ts)

module _ (cs : Csapp) (doc : Documented cs) where
  open doc use {outgoing, incoming}

  -- The thread reads all that the client has written, and has written all that the client reads,
  -- once it has delivered what the other threads have queued.
  pub record Hears (name room : Str) (ts : List Told) (heard rest : Str) (rounds : ℕ)
      (conn : Connection cs) (net : cs.Net) (st later : Store) : Type 0 where
    pub admitted : Admitted cs doc name room [] (length (map message_of ts) + rounds) conn net st
    pub all_read : incoming admitted.joined.conn.m_fdbuf admitted.joined.net ≡ []
    pub drains :
        Drains cs doc
          (length st.users)
          rounds
          (map message_of ts)
          (record admitted.joined { store = later })
    pub all_answered : outgoing conn.m_fd drains.after.net ++ rest ≡ heard

  -- While the descriptors work as documented, let `receiver_main-Follows` hold of a run of
  -- receiver.cpp that prints a sequence of broadcasts, with nothing written before it, and let
  -- exactly the bytes that the run has written be the input of a thread of server.cpp, with an open
  -- connection on which nothing has been written and a valid store that no other thread changes up
  -- to the loop. Then the thread, allowed at least as many rounds as there are broadcasts, reaches
  -- the loop of `chat_with_receiver` with its user, a new last one, a member of exactly the room
  -- with the name that the client was given, and all that the client has written read. If the other
  -- threads then leave, in any store, exactly the broadcasts in the user's queue, as many rounds
  -- empty the queue, and all that is written on the connection, from the greeting on, is what
  -- arrived at the client before the bytes that the client leaves unread.
  pub receiver_main-Hears :
      (program host name room : Str) (port : ℤ) (fd : ℕ) (idle : cs.Rio) (net began : cs.Net)
      (ts : List Told) (rest : Str) (rounds : ℕ) (conn : Connection cs) (net' : cs.Net)
      (st later : Store) (f : Follows cs doc program host name room port fd idle net began ts rest)
      → incoming (cs.rio_readinitb (pos fd)) began
        ≡ greeting false
          ++ (codes "ok:Join successful\n" ++ (bytes_of_all (map message_of ts) ++ rest))
      → outgoing (pos fd) began ≡ []
      → IsPlain name
      → length name + 9 ≤ max_len
      → IsPlain room
      → length room + 7 ≤ max_len
      → IsValid st
      → is_neg conn.m_fd ≡ false
      → outgoing conn.m_fd net' ≡ []
      → incoming conn.m_fdbuf net' ≡ outgoing (pos fd) f.after.net
      → Waits (length st.users) (map message_of ts) later
      → Hears name room ts
          (incoming (cs.rio_readinitb (pos fd)) began)
          rest
          rounds
          conn
          net'
          st
          later
  receiver_main-Hears program host name room port fd idle net began ts rest rounds conn net' st
        later f arrives fresh pn name_fits pr room_fits v opened unwritten joined waits =
      record {
        admitted = a;
        all_read = a.unread;
        drains = d;
        all_answered =
            ap (λ t. t ++ rest) (rw a.fd at d.written)
            ∙ ap (λ t. (t ++ bytes_of_all (map message_of ts)) ++ rest)
                (a.written
                  ∙ ap (λ t. t ++ (greeting false ++ codes "ok:Join successful\n")) unwritten)
            ∙ append_assoc (greeting false ++ codes "ok:Join successful\n") _ rest
            ∙ append_assoc (greeting false) (codes "ok:Join successful\n") _
            ∙ sym arrives;
      }
    where
      a : Admitted cs doc name room [] (length (map message_of ts) + rounds) conn net' st
      a =
          worker-Admitted cs doc name room [] (length (map message_of ts) + rounds) conn net' st v
            (joined
              ∙ f.written
              ∙ ap
                  (λ t.
                    t
                    ++ (tag_rlogin
                        ++ (b':' ∷ (name ++ b'\n' ∷ []))
                        ++ (tag_join ++ (b':' ∷ (room ++ b'\n' ∷ [])))))
                  fresh
              ∙ simp append_assoc)
            pn name_fits pr room_fits

      d :
          Drains cs doc
            (length st.users)
            rounds
            (map message_of ts)
            (record a.joined { store = later })
      d =
          receiver_loop-Drains cs doc (length st.users) rounds (map message_of ts)
            (record a.joined { store = later }) (ap is_neg a.fd ∙ opened) waits
            (message_of-AllForwarded ts)
