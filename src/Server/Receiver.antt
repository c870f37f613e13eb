-- ===== src/Server/Receiver.antt =====
-- `chat_with_receiver` of server.cpp: the join, and the loop that sends what is queued for the user.
use csf_hw.Prelude.{
  ℕ, zero, suc, Bool, true, false, not, Option, none, some, get_elem?, set, if◌then◌else◌,
}
use csf_hw.Outcome.{Outcome, done, unfinished, ◌>>=◌, deref}
use csf_hw.Text.{codes, str_eq}
use csf_hw.Message.{Message, empty_message, tag_err, tag_ok, tag_join}
use csf_hw.Csapp.{Csapp}
use csf_hw.MessageQueue.{dequeue}
use csf_hw.Room.{add_member}
use csf_hw.Connection.{Connection, is_open, receive}
use csf_hw.Server.{Store, find_or_create_room, at_room}
use csf_hw.Server.Chat.{Chat, respond, reply, close_chat}

module _ (cs : Csapp) where
  -- The part before the loop; `false` means that the function returns, and closes nothing.
  unfoldable pub receiver_join : ℕ → Chat cs → Outcome (Bool × Chat cs)
  receiver_join user c = do
    r ← receive cs c.conn empty_message c.net
    let c' = record c { conn = r.conn; net = r.net }
    if not r.ok
        then done (false, reply cs tag_err (codes "Receive error") c')
        else if not (str_eq r.msg.tag tag_join)
        then done (false, reply cs tag_err (codes "First message must be a join") c')
        else (do
          let found = find_or_create_room r.msg.payload c.store
          joined ← at_room found.0 (add_member user) found.1
          done (
            true,
            reply cs tag_ok (codes "Join successful")
                (record c' { room = some found.0; store = joined }),
          ))

  -- The three branches on what `dequeue` returned; `true` means that the loop goes on.
  unfoldable pub forward : Option Message → Chat cs → Bool × Chat cs
  forward none c = (true, c)
  forward (some msg) c =
      if not (str_eq msg.tag tag_err)
      then (true, respond cs msg c)
      else (false, reply cs tag_err (codes "Receive error") c)

  -- One round of the loop.
  unfoldable pub receiver_round : ℕ → Chat cs → Outcome (Bool × Chat cs)
  receiver_round user c = do
    u ← deref (get_elem? c.store.users user)
    (msg, queue) ← dequeue u.mqueue
    let users = set c.store.users user (record u { mqueue = queue })
    done (forward msg (record c { store = record c.store { users = users } }))

  -- With a bound on the rounds.
  unfoldable pub receiver_loop : ℕ → ℕ → Chat cs → Outcome (Chat cs)
  receiver_loop zero user c = unfinished
  receiver_loop (suc rounds) user c = if not (is_open cs c.conn) then done c else (do
    (again, c') ← receiver_round user c
    let rest = receiver_loop rounds user c'
    if again then rest else done c')

  unfoldable pub chat_with_receiver : ℕ → ℕ → Connection cs → cs.Net → Store → Outcome (Chat cs)
  chat_with_receiver rounds user conn net st = do
    (joined, c) ← receiver_join user (record { conn = conn; net = net; store = st; room = none })
    if joined then (do c' ← receiver_loop rounds user c; close_chat cs c') else done c
