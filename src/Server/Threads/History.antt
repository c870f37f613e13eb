-- ===== src/Server/Threads/History.antt =====
-- What is queued for a user and what its thread takes, over a whole run of the server's threads.
use csf_hw.Prelude.{
  ℕ, zero, suc, ◌<◌, ◌≡◌, refl, sym, ap, ◌∙◌, List, [], ◌∷◌, ◌++◌, append-nil, append_assoc, Option,
  none, some, length, get_elem?, get_elem?-set_self, get_elem?-set_ne, get_elem?-lt, ℕ_discrete,
  arith, ◌==◌, ==_iff, if◌then◌else◌, subst,
}
use csf_hw.Outcome.{done, done-injective}
use csf_hw.Text.{Str}
use csf_hw.Message.{Message}
use csf_hw.MessageQueue.{MessageQueue, dequeue}
use csf_hw.MessageQueue.Fifo.{IsCounted, dequeue_lem, head_of, tail_of}
use csf_hw.User.{User, new_user}
use csf_hw.Room.{Room, add_member, remove_member}
use csf_hw.Server.Rooms.{IsValid}
use csf_hw.Server.{Store, at_room, find_or_create_room, create_user}
use csf_hw.Server.Chat.{broadcast_in}
use csf_hw.Server.Session.Sendall.{broadcast_in-Tells}
use csf_hw.Server.Spec.{queue_in}
use csf_hw.Server.Spec.Tell.{delivery_to, queue_in-delivery_to}
use csf_hw.Server.Threads.{
  Place, Act, hear, part, seek, enter, look_leave, remove, look_tell, tell, answer, stop, close,
  greet, admit, enroll, drain, stop_drain, World, login, act, Reach, here, next, put_queue,
}
use csf_hw.Server.Threads.Effects.{AllCounted}
use csf_hw.Server.Threads.Fits.{Fits}
use csf_hw.Server.Threads.Reachable.{Reach-IsSafe}

abbrev pub list_of : Option Message → List Message
list_of none = []
list_of (some msg) = msg ∷ []

-- What one act puts on the queue of `j`, and what it takes off it.
unfoldable pub queued_by :
    (j : ℕ) {i : ℕ} {st after : Store} {p q : Place} → Act i st p after q → List Message
queued_by j {i} {st} (tell {payload} {r} e) = delivery_to j i r payload st
queued_by j a = []

unfoldable pub taken_by :
    (j : ℕ) {i : ℕ} {st after : Store} {p q : Place} → Act i st p after q → List Message
taken_by j {i} (drain {r} {u} {out} at e) = if i == j then list_of out else []
taken_by j a = []

-- Over a run from the start, oldest first.
unfoldable pub queued_in : (j : ℕ) {w : World} → Reach w → List Message
queued_in j here = []
queued_in j (next reach (login username sender)) = queued_in j reach
queued_in j (next reach (act i at a)) = queued_in j reach ++ queued_by j a

unfoldable pub taken_in : (j : ℕ) {w : World} → Reach w → List Message
taken_in j here = []
taken_in j (next reach (login username sender)) = taken_in j reach
taken_in j (next reach (act i at a)) = taken_in j reach ++ taken_by j a

at_room-users :
    (r : ℕ) (method : Room → Room) (st after : Store)
    → at_room r method st ≡ done after
    → after.users ≡ st.users
unfolding at_room
at_room-users r method st after e = ground arith

find_or_create_room-users :
    (name : Str) (st : Store) (out : ℕ × Store)
    → find_or_create_room name st ≡ out
    → out.1.users ≡ st.users
unfolding find_or_create_room
find_or_create_room-users name st out e = ground arith

tell_lem :
    (i r : ℕ) (payload : Str) (st after : Store) (j : ℕ)
    → IsValid st
    → i < length st.users
    → r < length st.rooms
    → broadcast_in r i payload st ≡ done after
    → queue_in after.users j ≡ queue_in st.users j ++ delivery_to j i r payload st
tell_lem i r payload st after j v lt r_in e =
    let t = broadcast_in-Tells r i payload st v lt r_in in
    subst (λ (x : Store). queue_in x.users j ≡ queue_in st.users j ++ delivery_to j i r payload st)
      (done-injective (sym t.returns ∙ e)) (queue_in-delivery_to r i payload st v t j)

head-tail : (msgs : List Message) → msgs ≡ list_of (head_of msgs) ++ tail_of msgs
head-tail [] = refl
head-tail (msg ∷ msgs) = refl

dequeued_lem :
    (before queue : MessageQueue) (out : Option Message)
    → IsCounted before
    → dequeue before ≡ done (out, queue)
    → before.m_messages ≡ list_of out ++ queue.m_messages
dequeued_lem before queue out counted e =
    let (q, returns, left, _) = dequeue_lem before counted in
    let same = done-injective (sym returns ∙ e) in
    head-tail before.m_messages
    ∙ ap (◌++◌ (list_of (head_of before.m_messages))) (sym left)
    ∙ ap (λ (x : Option Message × MessageQueue). list_of x.0 ++ x.1.m_messages) same

drain_lem :
    (i : ℕ) (st : Store) (u : User) (out : Option Message) (queue : MessageQueue) (j : ℕ)
    → AllCounted st
    → get_elem? st.users i ≡ some u
    → dequeue u.mqueue ≡ done (out, queue)
    → queue_in st.users j
      ≡ (if i == j then list_of out else []) ++ queue_in (put_queue i u queue st).users j
drain_lem i st u out queue j c at e = elim (ℕ_discrete i j) [
  | yes same ↦ rw (← same) (
      ground (
        arith,
        at,
        ==_iff i i,
        dequeued_lem u.mqueue queue out (c i u at) e,
        get_elem?-set_self st.users i (record u { mqueue = queue }) (get_elem?-lt st.users i at),
      ))
  | no differ ↦
      ground (arith, ==_iff i j, get_elem?-set_ne st.users i j (record u { mqueue = queue }) differ)
]

-- An act that leaves the users as they are neither queues nor takes.
same_lem :
    (j : ℕ) (st after : Store)
    → after.users ≡ st.users
    → queue_in st.users j ++ [] ≡ queue_in after.users j
same_lem j st after e = append-nil (queue_in st.users j) ∙ rw e refl

act_lem :
    {i : ℕ} {st after : Store} {p q : Place} (j : ℕ) (a : Act i st p after q)
    → IsValid st
    → AllCounted st
    → i < length st.users
    → Fits i p st
    → queue_in st.users j ++ queued_by j a ≡ taken_by j a ++ queue_in after.users j
unfolding queued_by taken_by
act_lem {i} {st} {after} j (part {name} {r} e) v c lt f =
    same_lem j st after (at_room-users r (remove_member i) st after e)
act_lem {i} {st} j (seek {name} {out} e) v c lt f =
    same_lem j st out.1 (find_or_create_room-users name st out e)
act_lem {i} {st} {after} j (enter {r} e) v c lt f =
    same_lem j st after (at_room-users r (add_member i) st after e)
act_lem {i} {st} {after} j (remove {r} e) v c lt f =
    same_lem j st after (at_room-users r (remove_member i) st after e)
act_lem {i} {st} {after} j (tell {payload} {r} e) v c lt f =
    sym (tell_lem i r payload st after j v lt f.held_in e)
act_lem {i} {st} j (admit {name} {out} e) v c lt f =
    same_lem j st out.1 (find_or_create_room-users name st out e)
act_lem {i} {st} {after} j (enroll {r} e) v c lt f =
    same_lem j st after (at_room-users r (add_member i) st after e)
act_lem {i} {st} j (drain {r} {u} {out} {queue} at e) v c lt f =
    append-nil (queue_in st.users j) ∙ drain_lem i st u out queue j c at e
act_lem {i} {st} j (hear msg) v c lt f = same_lem j st st refl
act_lem {i} {st} j (look_leave at) v c lt f = same_lem j st st refl
act_lem {i} {st} j (look_tell at) v c lt f = same_lem j st st refl
act_lem {i} {st} j answer v c lt f = same_lem j st st refl
act_lem {i} {st} j stop v c lt f = same_lem j st st refl
act_lem {i} {st} j close v c lt f = same_lem j st st refl
act_lem {i} {st} j (greet msg) v c lt f = same_lem j st st refl
act_lem {i} {st} j stop_drain v c lt f = same_lem j st st refl

-- A new user has nothing queued.
pub new_user_lem :
    (users : List User) (username : Str) (j : ℕ)
    → queue_in (users ++ new_user username ∷ []) j ≡ queue_in users j
new_user_lem [] username zero = refl
new_user_lem [] username (suc j) = refl
new_user_lem (u ∷ users) username zero = refl
new_user_lem (u ∷ users) username (suc j) = new_user_lem users username j

login_lem :
    (username : Str) (st : Store) (j : ℕ)
    → queue_in (create_user username st).1.users j ≡ queue_in st.users j
unfolding create_user
login_lem username st j = new_user_lem st.users username j

-- Over every run of the server's threads from the start, in whatever order they act, and for every
-- user: the deliveries that the texts sent to all owe to the user, one for each text sent in a room
-- of which the user was then a member by a user of another name, in the order of sending, are the
-- messages that the user's thread has taken off its queue, in order, followed by those that wait on
-- it. Nothing is lost, doubled or overtaken, and nothing else is queued.
pub queued_in-taken_in :
    {w : World} (j : ℕ) (reach : Reach w)
    → queued_in j reach ≡ taken_in j reach ++ queue_in w.store.users j
unfolding queued_in taken_in
queued_in-taken_in j here = refl
queued_in-taken_in {w} j (next {v} reach (login username sender)) =
    queued_in-taken_in j reach ∙ ap (◌++◌ (taken_in j reach)) (sym (login_lem username v.store j))
queued_in-taken_in {w} j (next {v} reach (act i {p} {q} {st} at a)) =
    let s = Reach-IsSafe reach in
    ap (λ x. x ++ queued_by j a) (queued_in-taken_in j reach)
    ∙ append_assoc (taken_in j reach) (queue_in v.store.users j) (queued_by j a)
    ∙ ap (◌++◌ (taken_in j reach)) (
        act_lem j a s.valid s.counted (rw (← s.thread_count) (get_elem?-lt v.threads i at))
          (s.fits i p at))
    ∙ sym (append_assoc (taken_in j reach) (taken_by j a) (queue_in st.users j))
