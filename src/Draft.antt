-- ===== src/Draft.antt =====
-- sev.h and sev.cpp: an earlier server, with the rooms, users and queues of the present one.
pub mod Listen
pub mod Compare
use csf_hw.Prelude.{
  ℕ, zero, suc, Bool, true, false, not, List, [], ◌∷◌, ◌++◌, Option, none, some, length, get_elem?,
  set, if◌then◌else◌,
}
use csf_hw.Outcome.{Outcome, done, undefined, unfinished, ◌>>=◌, deref}
use csf_hw.Text.{Str, codes, str_eq}
use csf_hw.Message.{
  Message, empty_message, make_message, tag_err, tag_ok, tag_join, tag_leave, tag_quit, tag_slogin,
  tag_rlogin,
}
use csf_hw.Csapp.{Csapp}
use csf_hw.MessageQueue.{dequeue}
use csf_hw.Room.{new_room, add_member, remove_member, member_exists}
use csf_hw.Connection.{Connection, is_open, receive}
use csf_hw.Server.{Store, create_user, at_room, find_room}
use csf_hw.Server.Chat.{Chat, respond, reply, broadcast_in, close_chat}

-- `m_rooms.insert (temp)`: a key that is there keeps its value.
unfoldable pub insert_room : Str → ℕ → List (Str × ℕ) → List (Str × ℕ)
insert_room k r [] = (k, r) ∷ []
insert_room k r ((j, q) ∷ m) = if str_eq j k then (j, q) ∷ m else (j, q) ∷ insert_room k r m

unfoldable pub draft_find_or_create_room : Str → Store → ℕ × Store
unfolding insert_room
draft_find_or_create_room room_name st = elim (find_room room_name st.m_rooms) [
  | none ↦ (
    length st.rooms,
    record st {
      rooms = st.rooms ++ new_room room_name ∷ [];
      m_rooms = insert_room room_name (length st.rooms) st.m_rooms;
    },
  )
  | some r ↦ (r, st)
]

module _ (cs : Csapp) where
  -- `room = server->find_or_create_room (message.data); room->add_member (user);`, then the response.
  unfoldable pub enter_room : ℕ → Str → Str → Store → Chat cs → Outcome (Chat cs)
  enter_room user name text st c = do
    let found = draft_find_or_create_room name st
    joined ← at_room found.0 (add_member user) found.1
    done (reply cs tag_ok text (record c { room = some found.0; store = joined }))

  unfoldable pub draft_join : ℕ → Str → Option ℕ → Chat cs → Outcome (Chat cs)
  draft_join user name none c = enter_room user name (codes "succeeded in joining room") c.store c
  draft_join user name (some r) c = do
    left ← at_room r (remove_member user) c.store
    enter_room user name (codes "succeeded in joining new room") left c

  -- The null pointer is followed here too.
  unfoldable pub draft_leave : ℕ → Option ℕ → Chat cs → Outcome (Chat cs)
  draft_leave user none c = undefined
  draft_leave user (some r) c = do
    room ← deref (get_elem? c.store.rooms r)
    if member_exists user room
        then (do
          left ← at_room r (remove_member user) c.store
          done (reply cs tag_ok (codes "succeeded in leaving room") (record c { store = left })))
        else done (reply cs tag_err (codes "tried to leave room when not within one") c)

  -- Membership is not tested.
  unfoldable pub draft_sendall : ℕ → Str → Option ℕ → Chat cs → Outcome (Chat cs)
  draft_sendall user text none c = done (reply cs tag_err (codes "not within a room") c)
  draft_sendall user text (some r) c = do
    told ← broadcast_in r user text c.store
    done (reply cs tag_ok (codes "message sent") (record c { store = told }))

  -- The chain of tests on the tag; `quit` sends back the request itself.
  unfoldable pub draft_request : ℕ → Message → Chat cs → Outcome (Bool × Chat cs)
  draft_request user message c =
      if str_eq message.tag tag_join
      then (do c' ← draft_join user message.payload c.room c; done (true, c'))
      else if str_eq message.tag tag_quit
      then done (false, respond cs (record message { payload = codes "bye" }) c)
      else if str_eq message.tag tag_leave
      then (do c' ← draft_leave user c.room c; done (true, c'))
      else (do c' ← draft_sendall user message.payload c.room c; done (true, c'))

  unfoldable pub com_sender_round : ℕ → Chat cs → Outcome (Bool × Chat cs)
  com_sender_round user c = do
    r ← receive cs c.conn empty_message c.net
    let c' = record c { conn = r.conn; net = r.net }
    if not r.ok
        then done (false, reply cs tag_err (codes "failed to receive message") c')
        else draft_request user r.msg c'

  -- With a bound on the rounds.
  unfoldable pub com_sender_loop : ℕ → ℕ → Chat cs → Outcome (Chat cs)
  com_sender_loop zero user c = unfinished
  com_sender_loop (suc rounds) user c = if not (is_open cs c.conn) then done c else (do
    (again, c') ← com_sender_round user c
    let rest = com_sender_loop rounds user c'
    if again then rest else done c')

  unfoldable pub com_sender : ℕ → ℕ → Connection cs → cs.Net → Store → Outcome (Chat cs)
  com_sender rounds user conn net st = do
    c ← com_sender_loop rounds user (record { conn = conn; net = net; store = st; room = none })
    close_chat cs c

  unfoldable pub com_receiver_join : ℕ → Chat cs → Outcome (Bool × Chat cs)
  com_receiver_join user c = do
    r ← receive cs c.conn empty_message c.net
    let c' = record c { conn = r.conn; net = r.net }
    if not r.ok
        then done (false, reply cs tag_err (codes "failed to receive message") c')
        else if str_eq r.msg.tag tag_join
        then (do
          c'' ← enter_room user r.msg.payload (codes "succeeded in joining room") c.store c'
          done (true, c''))
        else done (false, reply cs tag_err (codes "not a valid message") c')

  unfoldable pub draft_forward : Option Message → Chat cs → Bool × Chat cs
  draft_forward none c = (true, c)
  draft_forward (some new_message_send) c =
      if str_eq new_message_send.tag tag_err
      then (false, reply cs tag_err (codes "received an error message") c)
      else (true, respond cs new_message_send c)

  unfoldable pub com_receiver_round : ℕ → Chat cs → Outcome (Bool × Chat cs)
  com_receiver_round user c = do
    u ← deref (get_elem? c.store.users user)
    (msg, queue) ← dequeue u.mqueue
    let users = set c.store.users user (record u { mqueue = queue })
    done (draft_forward msg (record c { store = record c.store { users = users } }))

  -- With a bound on the rounds.
  unfoldable pub com_receiver_loop : ℕ → ℕ → Chat cs → Outcome (Chat cs)
  com_receiver_loop zero user c = unfinished
  com_receiver_loop (suc rounds) user c = if not (is_open cs c.conn) then done c else (do
    (again, c') ← com_receiver_round user c
    let rest = com_receiver_loop rounds user c'
    if again then rest else done c')

  unfoldable pub com_receiver : ℕ → ℕ → Connection cs → cs.Net → Store → Outcome (Chat cs)
  com_receiver rounds user conn net st = do
    (joined, c) ←
        com_receiver_join user (record { conn = conn; net = net; store = st; room = none })
    if joined then (do c' ← com_receiver_loop rounds user c; close_chat cs c') else done c

  -- What `worker` answers to the login message.
  unfoldable pub login_response : Message → Chat cs → Chat cs
  login_response login_message c =
      if str_eq login_message.tag tag_err
      then reply cs tag_err login_message.payload c
      else if str_eq login_message.tag tag_slogin
      then reply cs tag_ok (codes "logged in as sender") c
      else if str_eq login_message.tag tag_rlogin
      then reply cs tag_ok (codes "logged in as receiver") c
      else c

  -- The result of `receive` is not used. `pthread_detach` has no effect here.
  unfoldable pub draft_worker : ℕ → Connection cs → cs.Net → Store → Outcome (Chat cs)
  draft_worker rounds conn net st = do
    r ← receive cs conn empty_message net
    let c = login_response r.msg (record { conn = r.conn; net = r.net; store = st; room = none })
    let (user, st') = create_user r.msg.payload st
    if str_eq r.msg.tag tag_slogin
        then com_sender rounds user c.conn c.net st'
        else if str_eq r.msg.tag tag_rlogin
        then com_receiver rounds user c.conn c.net st'
        else done (record c { store = st' })
