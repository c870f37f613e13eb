-- ===== src/Server/Chat.antt =====
-- The functions of server.cpp that talk to a client, each step on the whole state that it touches.
-- Between two steps other threads may change the store: a step takes it as it finds it.
use csf_hw.Prelude.{
  ℕ, zero, suc, Bool, true, false, not, Option, none, some, get_elem?, set, if◌then◌else◌,
}
use csf_hw.Outcome.{Outcome, done, undefined, unfinished, ◌>>=◌, deref}
use csf_hw.Text.{Str, codes, str_eq}
use csf_hw.Message.{
  Message, empty_message, make_message, tag_err, tag_ok, tag_join, tag_leave, tag_quit,
}
use csf_hw.Csapp.{Csapp}
use csf_hw.Room.{add_member, remove_member, member_exists, broadcast_message}
use csf_hw.Connection.{Connection, is_open, close, send, receive}
use csf_hw.Server.{Store, find_or_create_room, at_room}

-- `if (room != nullptr) room->remove_member (user);`
unfoldable pub leave_room : ℕ → Option ℕ → Store → Outcome Store
leave_room user none st = done st
leave_room user (some r) st = at_room r (remove_member user) st

-- `room->broadcast_message (user->username, msg.data);`
unfoldable pub broadcast_in : ℕ → ℕ → Str → Store → Outcome Store
broadcast_in r user text st = do
  room ← deref (get_elem? st.rooms r)
  sender ← deref (get_elem? st.users user)
  (room', users) ← broadcast_message sender.username text room st.users
  done (record st { rooms = set st.rooms r room'; users = users })

module _ (cs : Csapp) where
  -- What a client's thread works on: `room` is the local variable, null at first.
  pub record Chat : Type 0 where
    pub conn : Connection cs
    pub net : cs.Net
    pub store : Store
    pub room : Option ℕ

module _ (cs : Csapp) where
  -- `Message response (tag, text); conn->send (response);`: the result of `send` is not used.
  unfoldable pub respond : Message → Chat cs → Chat cs
  respond response c =
      let r = send cs c.conn response c.net in record c { conn = r.conn; net = r.net }

  abbrev pub reply : Str → Str → Chat cs → Chat cs
  reply tag text c = respond (make_message tag text) c

  unfoldable pub on_join : ℕ → Str → Chat cs → Outcome (Chat cs)
  on_join user name c = do
    left ← leave_room user c.room c.store
    let found = find_or_create_room name left
    joined ← at_room found.0 (add_member user) found.1
    done (reply tag_ok (codes "Join successful") (record c { room = some found.0; store = joined }))

  -- `room->member_exists (user)` follows the pointer also when it is null.
  unfoldable pub on_leave : ℕ → Option ℕ → Chat cs → Outcome (Chat cs)
  on_leave user none c = undefined
  on_leave user (some r) c = do
    room ← deref (get_elem? c.store.rooms r)
    if member_exists user room
        then (do
          left ← at_room r (remove_member user) c.store
          done (reply tag_ok (codes "Leave successful") (record c { store = left })))
        else done (reply tag_err (codes "Leave unsuccessful, user isn't in the room") c)

  unfoldable pub on_sendall : ℕ → Str → Option ℕ → Chat cs → Outcome (Chat cs)
  on_sendall user text none c =
      done (reply tag_err (codes "Sendall unsuccessful, user isn't in a room") c)
  on_sendall user text (some r) c = do
    room ← deref (get_elem? c.store.rooms r)
    if member_exists user room
        then (do
          told ← broadcast_in r user text c.store
          done (reply tag_ok (codes "Sendall successful") (record c { store = told })))
        else done (reply tag_err (codes "Sendall unsuccessful, user isn't in a room") c)

  -- The chain of tests on the tag; `true` means that the loop goes on.
  unfoldable pub on_request : ℕ → Message → Chat cs → Outcome (Bool × Chat cs)
  on_request user msg c =
      if str_eq msg.tag tag_quit
      then done (false, reply tag_ok (codes "Quit successful") c)
      else if str_eq msg.tag tag_join
      then (do c' ← on_join user msg.payload c; done (true, c'))
      else if str_eq msg.tag tag_leave
      then (do c' ← on_leave user c.room c; done (true, c'))
      else (do c' ← on_sendall user msg.payload c.room c; done (true, c'))

  -- One round of the loop of `chat_with_sender`.
  unfoldable pub sender_round : ℕ → Chat cs → Outcome (Bool × Chat cs)
  sender_round user c = do
    r ← receive cs c.conn empty_message c.net
    let c' = record c { conn = r.conn; net = r.net }
    if r.ok
        then on_request user r.msg c'
        else done (false, reply tag_err (codes "Receive error") c')

  -- With a bound on the rounds.
  unfoldable pub sender_loop : ℕ → ℕ → Chat cs → Outcome (Chat cs)
  sender_loop zero user c = unfinished
  sender_loop (suc rounds) user c = if not (is_open cs c.conn) then done c else (do
    (again, c') ← sender_round user c
    let rest = sender_loop rounds user c'
    if again then rest else done c')

  unfoldable pub close_chat : Chat cs → Outcome (Chat cs)
  close_chat c = do net ← close cs c.conn c.net; done (record c { net = net })

  unfoldable pub chat_with_sender : ℕ → ℕ → Connection cs → cs.Net → Store → Outcome (Chat cs)
  chat_with_sender rounds user conn net st = do
    c ← sender_loop rounds user (record { conn = conn; net = net; store = st; room = none })
    close_chat c
