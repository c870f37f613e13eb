-- ===== src/Server/Visit.antt =====
-- The whole thread of a client: login, then a sender's session up to the end of the connection, or
-- a receiver's join.
use csf_hw.Prelude.{
  [], ℕ, ◌+◌, ◌≤◌, ◌≡◌, refl, ap, ◌∙◌, true, false, List, ◌∷◌, ◌++◌, append_assoc, length, none,
  some, get_elem?, arith, ==_iff, is_neg,
}
use csf_hw.Outcome.{done, ◌>>=◌}
use csf_hw.Text.{Str, codes}
use csf_hw.Text.Equality.{str_eq_refl}
use csf_hw.Message.{max_len, tag_slogin, tag_rlogin, tag_join}
use csf_hw.Csapp.{Csapp, Documented}
use csf_hw.Connection.{Connection, is_open, close}
use csf_hw.Connection.Fields.{IsPlain}
use csf_hw.Server.{Store, find_room}
use csf_hw.Server.Rooms.{IsValid}
use csf_hw.Server.Chat.{Chat, close_chat, chat_with_sender}
use csf_hw.Server.Session.{InSession}
use csf_hw.Server.Script.{Line, bytes, answers, IsScript, Serves, sender_loop-Serves}
use csf_hw.User.{new_user}
use csf_hw.Server.Membership.{member_at}
use csf_hw.Server.Draining.{Waits}
use csf_hw.Server.Receiver.{receiver_loop, chat_with_receiver}
use csf_hw.Server.Admission.{Admits, receiver_join-Admits}
use csf_hw.Server.Login.{worker}
use csf_hw.Server.Entry.{greeting, Enters, handle_client_login-Enters}

module _ (cs : Csapp) (doc : Documented cs) where
  open doc use {outgoing, incoming}

  -- `served` is the state before the descriptor is closed, which is the last step.
  pub record Visits (lines : List Line) (rest : Str) (rounds : ℕ) (conn : Connection cs)
      (net : cs.Net) (st : Store) : Type 0 where
    pub served : Chat cs
    pub returns :
        worker cs (length lines + rounds) conn net st
        ≡ (do net' ← cs.close_fd conn.m_fd served.net; done (record served { net = net' }))
    pub session : InSession (length st.users) served.room served.store
    pub unread : incoming served.conn.m_fdbuf served.net ≡ rest
    pub written :
        outgoing conn.m_fd served.net
        ≡ outgoing conn.m_fd net ++ (greeting true ++ answers lines false)

  -- While the descriptors work as documented and no other thread changes the store, let the store
  -- be valid, the connection open, and let there arrive `slogin:name`, the name free of colons,
  -- newlines and NULs and at most 246 bytes long, and then a script: lines `tag:field` of at most
  -- 254 bytes, both free of colons, newlines and NULs, no tag `delivery`, no `leave` before the
  -- first join, and `quit` exactly at the end. Then the thread's function, allowed at least as many
  -- rounds as the script has lines, writes exactly the greeting and the answers of the independent
  -- automaton `answers`, in order, leaves unread what follows the script, leaves its user, a new
  -- last one, in a session, and ends with closing the descriptor.
  pub worker-Visits :
      (name : Str) (lines : List Line) (rest : Str) (rounds : ℕ) (conn : Connection cs)
      (net : cs.Net) (st : Store)
      → IsValid st
      → is_neg conn.m_fd ≡ false
      → incoming conn.m_fdbuf net ≡ tag_slogin ++ (b':' ∷ (name ++ b'\n' ∷ bytes lines rest))
      → IsPlain name
      → length name + 9 ≤ max_len
      → IsScript false lines
      → Visits lines rest rounds conn net st
  unfolding worker chat_with_sender close_chat close is_open
  worker-Visits name lines rest rounds conn net st v opened arrives plain fits script = record {
    served = s.after;
    returns = e.returns ∙ rw s.returns (rw (s.fd, e.answered.fd, opened) refl);
    session = s.session;
    unread = s.unread;
    written =
        rw e.answered.fd at s.written
        ∙ ap (λ t. t ++ answers lines false) e.answered.written
        ∙ append_assoc (outgoing conn.m_fd net) (greeting true) (answers lines false);
  }
    where
      e :
          Enters cs doc true name
            (bytes lines rest)
            (length lines + rounds)
            (record { conn = conn; net = net; store = st; room = none })
      e =
          handle_client_login-Enters cs doc true (length lines + rounds) name (bytes lines rest) _ v
            arrives plain fits

      entered : Chat cs
      entered = record {
        conn = e.after.conn;
        net = e.after.net;
        store = e.after.store;
        room = none;
      }

      s : Serves cs doc (length st.users) lines rest rounds entered
      s =
          sender_loop-Serves cs doc (length st.users) rounds lines rest entered false e.session
            (ap is_neg e.answered.fd ∙ opened) refl script e.answered.unread

  -- The thread of a receiver at the head of its loop, `joined` the state there.
  pub record Admitted (name field rest : Str) (rounds : ℕ) (conn : Connection cs) (net : cs.Net)
      (st : Store) : Type 0 where
    pub joined : Chat cs
    pub returns :
        worker cs rounds conn net st
        ≡ (do c ← receiver_loop cs rounds (length st.users) joined; close_chat cs c)
    pub target : ℕ
    pub named : find_room (field ++ b'\n' ∷ []) joined.store.m_rooms ≡ some target
    pub session : InSession (length st.users) (some target) joined.store
    pub inside : member_at (length st.users) target joined.store.rooms ≡ true
    pub waits : Waits (length st.users) [] joined.store
    pub fd : joined.conn.m_fd ≡ conn.m_fd
    pub unread : incoming joined.conn.m_fdbuf joined.net ≡ rest
    pub written :
        outgoing conn.m_fd joined.net
        ≡ outgoing conn.m_fd net ++ (greeting false ++ codes "ok:Join successful\n")

  -- While the descriptors work as documented, the store is valid and no other thread changes it,
  -- let there arrive `rlogin:name` and then `join:field`, both fields free of colons, newlines and
  -- NULs and at most 246 and 248 bytes long. Then the thread's function goes on, for any number of
  -- rounds, with the loop of `chat_with_receiver` and the closing of the connection behind it, from
  -- a state in which its user, a new last one, is a member of the room that has the name `field`
  -- with its newline, and of no other, and nothing waits for the user; exactly the greeting and
  -- `ok:Join successful` are written, and exactly the two lines are taken off the input.
  pub worker-Admitted :
      (name field rest : Str) (rounds : ℕ) (conn : Connection cs) (net : cs.Net) (st : Store)
      → IsValid st
      → incoming conn.m_fdbuf net
        ≡ tag_rlogin ++ (b':' ∷ (name ++ b'\n' ∷ (tag_join ++ (b':' ∷ (field ++ b'\n' ∷ rest)))))
      → IsPlain name
      → length name + 9 ≤ max_len
      → IsPlain field
      → length field + 7 ≤ max_len
      → Admitted name field rest rounds conn net st
  unfolding worker chat_with_receiver
  worker-Admitted name field rest rounds conn net st v arrives plain fits plain_field fits_field =
      record {
        joined = a.after;
        returns = e.returns ∙ rw a.returns refl;
        target = a.target;
        named = a.joined.found (field ++ b'\n' ∷ []) ∙ rw (str_eq_refl (field ++ b'\n' ∷ [])) refl;
        session = a.joined.session;
        inside = ground (
          arith,
          a.joined.member (length st.users) a.target,
          ==_iff (length st.users) (length st.users),
          ==_iff a.target a.target,
        );
        waits = record {
          receiver = new_user (name ++ b'\n' ∷ []);
          at = ap (λ us. get_elem? us (length st.users)) a.joined.users ∙ e.user_lem;
          counted = refl;
          queued = refl;
        };
        fd = a.answered.fd ∙ e.answered.fd;
        unread = a.answered.unread;
        written =
            rw e.answered.fd at a.answered.written
            ∙ ap (λ t. t ++ codes "ok:Join successful\n") e.answered.written
            ∙ append_assoc (outgoing conn.m_fd net) (greeting false) (codes "ok:Join successful\n");
      }
    where
      after_login : Str
      after_login = tag_join ++ (b':' ∷ (field ++ b'\n' ∷ rest))

      e :
          Enters cs doc false name after_login rounds
            (record { conn = conn; net = net; store = st; room = none })
      e = handle_client_login-Enters cs doc false rounds name after_login _ v arrives plain fits

      entered : Chat cs
      entered = record {
        conn = e.after.conn;
        net = e.after.net;
        store = e.after.store;
        room = none;
      }

      a : Admits cs doc (length st.users) field rest entered
      a =
          receiver_join-Admits cs doc (length st.users) field rest entered refl e.session
            e.answered.unread plain_field fits_field
