-- ===== src/Server/Draining.antt =====
-- The loop of `chat_with_receiver` empties the user's queue onto the wire.
use csf_hw.Prelude.{
  ℕ, suc, ◌+◌, ◌≡◌, refl, ap, ◌∙◌, true, false, List, [], ◌∷◌, ◌++◌, some, length, get_elem?, set,
  get_elem?-set_self, get_elem?-lt, is_neg, append-nil, append_assoc, arith, if◌then◌else◌,
}
use csf_hw.Outcome.{done}
use csf_hw.Text.{Str, str_eq, c_str}
use csf_hw.Message.{Message, tag_err}
use csf_hw.MessageQueue.{MessageQueue}
use csf_hw.MessageQueue.Fifo.{IsCounted, dequeue_lem, tail_of}
use csf_hw.User.{User}
use csf_hw.Csapp.{Csapp, Documented}
use csf_hw.Connection.{Connection, message_text, is_open}
use csf_hw.Connection.Send.{too_long, send-Sends}
use csf_hw.Server.{Store}
use csf_hw.Server.Chat.{Chat, respond}
use csf_hw.Server.Receiver.{forward, receiver_round, receiver_loop}

-- The bytes of a message; nothing is written of one whose data is too long.
abbrev pub bytes_of : Message → Str
bytes_of msg = if too_long msg then [] else c_str (message_text msg)

abbrev pub bytes_of_all : List Message → Str
bytes_of_all [] = []
bytes_of_all (msg ∷ msgs) = bytes_of msg ++ bytes_of_all msgs

-- No message asks the loop to stop.
abbrev pub AllForwarded : List Message → Type 0
AllForwarded [] = Unit
AllForwarded (msg ∷ msgs) = (str_eq msg.tag tag_err ≡ false) × AllForwarded msgs

-- These messages wait for the user.
pub record Waits (user : ℕ) (msgs : List Message) (st : Store) : Type 0 where
  pub receiver : User
  pub at : get_elem? st.users user ≡ some receiver
  pub counted : IsCounted receiver.mqueue
  pub queued : receiver.mqueue.m_messages ≡ msgs

-- The store when `queue` is what the user's queue has become.
abbrev with_queue : ℕ → User → MessageQueue → Store → Store
with_queue user receiver queue st = record st {
  users = set st.users user (record receiver { mqueue = queue });
}

module _ (cs : Csapp) (doc : Documented cs) where
  open doc use {outgoing}

  record Forwards (user : ℕ) (msg : Message) (msgs : List Message) (c : Chat cs) : Type 0 where
    after : Chat cs
    returns : receiver_round cs user c ≡ done (true, after)
    waits : Waits user msgs after.store
    fd : after.conn.m_fd ≡ c.conn.m_fd
    written : outgoing c.conn.m_fd after.net ≡ outgoing c.conn.m_fd c.net ++ bytes_of msg

  receiver_round-Forwards :
      (user : ℕ) (msg : Message) (msgs : List Message) (c : Chat cs)
      → Waits user (msg ∷ msgs) c.store
      → str_eq msg.tag tag_err ≡ false
      → Forwards user msg msgs c
  unfolding receiver_round forward respond
  receiver_round-Forwards user msg msgs c w forwarded =
      let (queue, returns, left, counted) = dequeue_lem w.receiver.mqueue w.counted in
      let sends = send-Sends cs doc c.conn msg c.net in
      record {
        after = respond cs msg (record c { store = with_queue user w.receiver queue c.store });
        returns = rw w.at (rw (returns, w.queued) (rw forwarded refl));
        waits = record {
          receiver = record w.receiver { mqueue = queue };
          at = get_elem?-set_self c.store.users user _ (get_elem?-lt c.store.users user w.at);
          counted = counted;
          queued = left ∙ ap tail_of w.queued;
        };
        fd = ap (λ (k : Connection cs). k.m_fd) sends.conn;
        written = sends.outgoing_lem;
      }

  pub record Drains (user rounds : ℕ) (msgs : List Message) (c : Chat cs) : Type 0 where
    pub after : Chat cs
    pub goes_on :
        receiver_loop cs (length msgs + rounds) user c ≡ receiver_loop cs rounds user after
    pub emptied : Waits user [] after.store
    pub fd : after.conn.m_fd ≡ c.conn.m_fd
    pub written : outgoing c.conn.m_fd after.net ≡ outgoing c.conn.m_fd c.net ++ bytes_of_all msgs

  -- While the descriptors work as documented and the connection is open, let any messages, none of
  -- them tagged `err`, wait in the queue of a receiver's user, and let no other thread touch the
  -- queue. Then as many rounds of `chat_with_receiver` as there are messages bring the loop to a
  -- state with an empty queue in which it goes on; what was written on the connection is the
  -- messages' bytes, in order, where a message with more than 255 bytes of data contributes none.
  pub receiver_loop-Drains :
      (user rounds : ℕ) (msgs : List Message) (c : Chat cs)
      → is_neg c.conn.m_fd ≡ false
      → Waits user msgs c.store
      → AllForwarded msgs
      → Drains user rounds msgs c
  unfolding receiver_loop is_open
  receiver_loop-Drains user rounds [] c opened w all = record {
    after = c;
    goes_on = ap (λ n. receiver_loop cs n user c) (omega arith);
    emptied = w;
    fd = refl;
    written = simp append-nil;
  }
  receiver_loop-Drains user rounds (msg ∷ msgs) c opened w all =
      let f = receiver_round-Forwards user msg msgs c w all.0 in
      let d =
        receiver_loop-Drains user rounds msgs f.after (ap is_neg f.fd ∙ opened) f.waits all.1 in
      record {
        after = d.after;
        goes_on =
            ap (λ n. receiver_loop cs n user c) {x = length (msg ∷ msgs) + rounds}
              {y = suc (length msgs + rounds)} (omega arith)
            ∙ rw opened (rw f.returns d.goes_on);
        emptied = d.emptied;
        fd = d.fd ∙ f.fd;
        written =
            rw f.fd at d.written
            ∙ ap (λ s. s ++ bytes_of_all msgs) f.written
            ∙ append_assoc (outgoing c.conn.m_fd c.net) (bytes_of msg) (bytes_of_all msgs);
      }
