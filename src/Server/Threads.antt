-- ===== src/Server/Threads.antt =====
-- The clients' threads of server.cpp side by side: each call of a method of a room, of the server
-- or of a queue is one act, and the acts of all threads interleave in any order. The methods hold
-- their lock throughout (`member_exists` reads without it, which is taken for one act too).
-- What a client sends is left open: at each `receive` any message may arrive, or none.
pub mod Effects
pub mod Fits
pub mod Acts
pub mod Reachable
pub mod Progress
pub mod History
pub mod Delivery
pub mod Sessions
pub mod Senders
pub mod Receivers
pub mod Embedding
pub mod Workers
use csf_hw.Prelude.{
  ℕ, ◌≡◌, Bool, true, false, List, [], ◌∷◌, ◌++◌, Option, none, some, get_elem?, set, if◌then◌else◌,
}
use csf_hw.Outcome.{done}
use csf_hw.Text.{Str, String, codes, str_eq}
use csf_hw.Message.{Message, make_message, tag_ok, tag_err, tag_quit, tag_join, tag_leave}
use csf_hw.MessageQueue.{MessageQueue, dequeue}
use csf_hw.User.{User}
use csf_hw.Room.{Room, add_member, remove_member, member_exists}
use csf_hw.Server.{Store, new_store, find_or_create_room, create_user, at_room}
use csf_hw.Server.Chat.{broadcast_in}

-- Where a thread stands, with the room that it holds (the local variable `room`) or is about to
-- hold.
pub data Place : Type 0 where
  -- `chat_with_sender`
  awaiting : Option ℕ → Place  -- at the loop's head
  parting : Str → ℕ → Place  -- join, before `remove_member`
  seeking : Str → Place  -- before `find_or_create_room`
  entering : ℕ → Place  -- before `add_member`
  leaving : ℕ → Place  -- leave, before `member_exists`
  removing : ℕ → Place  -- before `remove_member`
  checking : Str → ℕ → Place  -- sendall, before `member_exists`
  telling : Str → ℕ → Place  -- before `broadcast_message`
  answering : Bool → Message → Option ℕ → Place  -- before `send`; `true` if the loop goes on
  closing : Option ℕ → Place  -- behind the loop
  -- `chat_with_receiver`
  greeting : Place  -- at the first `receive`
  admitting : Str → Place  -- before `find_or_create_room`
  joining : ℕ → Place  -- before `add_member`
  draining : ℕ → Place  -- at the loop's head
  -- The function has returned, or has followed a null pointer.
  ended : Option ℕ → Place
  crashed : Place

abbrev pub ok : String → Message
ok text = make_message tag_ok (codes text)

abbrev pub err : String → Message
err text = make_message tag_err (codes text)

-- Which branch a message takes.
pub data Request : Type 0 where
  quit join leave text : Request

unfoldable pub request_of : Message → Request
request_of msg =
    if str_eq msg.tag tag_quit
    then quit
    else if str_eq msg.tag tag_join
    then join
    else if str_eq msg.tag tag_leave
    then leave
    else text

-- The branch, up to the first call of a method.
unfoldable pub take : Request → Str → Option ℕ → Place
take quit payload room = answering false (ok "Quit successful") room
take join payload none = seeking payload
take join payload (some r) = parting payload r
take leave payload none = crashed
take leave payload (some r) = leaving r
take text payload none = answering true (err "Sendall unsuccessful, user isn't in a room") none
take text payload (some r) = checking payload r

-- Behind `conn->receive (msg)`: `none` if it failed.
unfoldable pub heard : Option Message → Option ℕ → Place
heard none room = answering false (err "Receive error") room
heard (some msg) room = take (request_of msg) msg.payload room

-- The same in `chat_with_receiver`; what is sent before a return is left out here.
unfoldable pub greeted : Option Message → Place
greeted none = ended none
greeted (some msg) = if str_eq msg.tag tag_join then admitting msg.payload else ended none

-- `if (room->member_exists (user))`, in leave and in sendall.
unfoldable pub leave_if : Bool → ℕ → Place
leave_if true r = removing r
leave_if false r = answering true (err "Leave unsuccessful, user isn't in the room") (some r)

unfoldable pub tell_if : Bool → Str → ℕ → Place
tell_if true payload r = telling payload r
tell_if false payload r = answering true (err "Sendall unsuccessful, user isn't in a room") (some r)

-- Behind `conn->send (response)`.
unfoldable pub answered : Bool → Option ℕ → Place
answered true room = awaiting room
answered false room = closing room

-- Behind `user->mqueue.dequeue ()`.
unfoldable pub drained : Option Message → ℕ → Place
drained none r = draining r
drained (some msg) r = if str_eq msg.tag tag_err then closing (some r) else draining r

abbrev pub put_queue : ℕ → User → MessageQueue → Store → Store
put_queue user u queue st = record st { users = set st.users user (record u { mqueue = queue }) }

-- One act of the thread of `user`.
pub data Act (user : ℕ) (st : Store) : Place → Store → Place → Type 0 where
  hear : (msg : Option Message) {room : Option ℕ} → Act user st (awaiting room) st (heard msg room)
  part :
      {name : Str} {r : ℕ} {after : Store}
      → at_room r (remove_member user) st ≡ done after
      → Act user st (parting name r) after (seeking name)
  seek :
      {name : Str} {out : ℕ × Store}
      → find_or_create_room name st ≡ out
      → Act user st (seeking name) out.1 (entering out.0)
  enter :
      {r : ℕ} {after : Store}
      → at_room r (add_member user) st ≡ done after
      → Act user st (entering r) after (answering true (ok "Join successful") (some r))
  look_leave :
      {r : ℕ} {room : Room}
      → get_elem? st.rooms r ≡ some room
      → Act user st (leaving r) st (leave_if (member_exists user room) r)
  remove :
      {r : ℕ} {after : Store}
      → at_room r (remove_member user) st ≡ done after
      → Act user st (removing r) after (answering true (ok "Leave successful") (some r))
  look_tell :
      {payload : Str} {r : ℕ} {room : Room}
      → get_elem? st.rooms r ≡ some room
      → Act user st (checking payload r) st (tell_if (member_exists user room) payload r)
  tell :
      {payload : Str} {r : ℕ} {after : Store}
      → broadcast_in r user payload st ≡ done after
      → Act user st (telling payload r) after (answering true (ok "Sendall successful") (some r))
  answer :
      {again : Bool} {msg : Message} {room : Option ℕ}
      → Act user st (answering again msg room) st (answered again room)
  stop : {room : Option ℕ} → Act user st (awaiting room) st (closing room)  -- no longer open
  close : {room : Option ℕ} → Act user st (closing room) st (ended room)
  greet : (msg : Option Message) → Act user st greeting st (greeted msg)
  admit :
      {name : Str} {out : ℕ × Store}
      → find_or_create_room name st ≡ out
      → Act user st (admitting name) out.1 (joining out.0)
  enroll :
      {r : ℕ} {after : Store}
      → at_room r (add_member user) st ≡ done after
      → Act user st (joining r) after (draining r)
  drain :
      {r : ℕ} {u : User} {out : Option Message} {queue : MessageQueue}
      → get_elem? st.users user ≡ some u
      → dequeue u.mqueue ≡ done (out, queue)
      → Act user st (draining r) (put_queue user u queue st) (drained out r)
  stop_drain : {r : ℕ} → Act user st (draining r) st (closing (some r))  -- no longer open

-- The thread at `i` is that of the user at `i`.
pub record World : Type 0 where
  pub store : Store
  pub threads : List Place

pub data Turn (w : World) : World → Type 0 where
  -- A client has logged in, as a sender or as a receiver.
  login :
      (username : Str) (sender : Bool)
      → Turn w (record {
        store = (create_user username w.store).1;
        threads = w.threads ++ (if sender then awaiting none else greeting) ∷ [];
      })
  act :
      (i : ℕ) {p q : Place} {st : Store}
      → get_elem? w.threads i ≡ some p
      → Act i w.store p st q
      → Turn w (record { store = st; threads = set w.threads i q })

abbrev pub new_world : World
new_world = record { store = new_store; threads = [] }

pub data Reach : World → Type 0 where
  here : Reach new_world
  next : {v w : World} → Reach v → Turn v w → Reach w

-- The room that a thread holds and of which its user may be a member.
abbrev pub held : Place → Option ℕ
held (awaiting room) = room
held (parting name r) = some r
held (leaving r) = some r
held (removing r) = some r
held (checking msg r) = some r
held (telling msg r) = some r
held (answering again msg room) = room
held (closing room) = room
held (draining r) = some r
held (ended room) = room
held _ = none

-- The room that it is about to enter.
abbrev pub target : Place → Option ℕ
target (entering r) = some r
target (joining r) = some r
target _ = none

-- The room of which its user is a member for sure.
abbrev pub inside : Place → Option ℕ
inside (removing r) = some r
inside (telling msg r) = some r
inside (draining r) = some r
inside _ = none
