-- ===== src/Server/Threads/Progress.antt =====
-- What the server's threads can always do, and what a text to all reaches.
use csf_hw.Prelude.{
  ℕ, subst, ◌<◌, ◌≡◌, refl, sym, ◌∙◌, Bool, true, false, [], ◌∷◌, ◌++◌, none, some, length,
  get_elem?, get_elem?-lt, get_elem?-total, arith,
}
use mathlib.Core.Option.{some-injective}
use csf_hw.Outcome.{Outcome, done, done-injective}
use csf_hw.Text.{Str, str_eq}
use csf_hw.User.{User}
use csf_hw.Room.{Room, add_member, remove_member}
use csf_hw.MessageQueue.{MessageQueue, dequeue}
use csf_hw.MessageQueue.Fifo.{dequeue_lem, head_of, tail_of}
use csf_hw.Room.Broadcast.{delivery}
use csf_hw.Server.{Store, at_room}
use csf_hw.Server.Chat.{broadcast_in}
use csf_hw.Server.Rooms.{IsValid}
use csf_hw.Server.Membership.{member_at, Changes, at_room-Changes}
use csf_hw.Server.Session.Sendall.{Tells, broadcast_in-Tells}
use csf_hw.Server.Spec.{queue_in}
use csf_hw.Server.Spec.Tell.{queue_in-delivery_to}
use csf_hw.Server.Threads.{
  Place, awaiting, parting, seeking, entering, leaving, removing, checking, telling, answering,
  closing, greeting, admitting, joining, draining, ended, crashed, Act, hear, part, seek, enter,
  look_leave, remove, look_tell, tell, answer, close, greet, admit, enroll, drain, World, Reach,
}
use csf_hw.Server.Threads.Effects.{AllCounted}
use csf_hw.Server.Threads.Fits.{Fits}
use csf_hw.Server.Threads.Reachable.{Reach-IsSafe}

-- The thread's function has returned or has followed a null pointer.
abbrev pub is_over : Place → Bool
is_over (ended room) = true
is_over crashed = true
is_over _ = false

abbrev pub CanAct : ℕ → Store → Place → Type 0
CanAct user st p = (after : Store) × (q : Place) × Act user st p after q

abbrev Succeeds : Outcome Store → Type 0
Succeeds o = (after : Store) × (o ≡ done after)

-- The call that is next at a place, if there is one that could go wrong, is defined there.
abbrev pub Calls : ℕ → Store → Place → Type 0
Calls user st (parting name r) = Succeeds (at_room r (remove_member user) st)
Calls user st (entering r) = Succeeds (at_room r (add_member user) st)
Calls user st (leaving r) = (room : Room) × (get_elem? st.rooms r ≡ some room)
Calls user st (removing r) = Succeeds (at_room r (remove_member user) st)
Calls user st (checking payload r) = (room : Room) × (get_elem? st.rooms r ≡ some room)
Calls user st (telling payload r) = Succeeds (broadcast_in r user payload st)
Calls user st (joining r) = Succeeds (at_room r (add_member user) st)
Calls user st (draining r) =
    (u : User) × (get_elem? st.users user ≡ some u)
    × (queue : MessageQueue) × (dequeue u.mqueue ≡ done (head_of u.mqueue.m_messages, queue))
    × (queue.m_messages ≡ tail_of u.mqueue.m_messages)
Calls user st _ = Unit

module _ (user : ℕ) (st : Store) (v : IsValid st) (c : AllCounted st)
    (lt : user < length st.users) where
  ch : (r : ℕ) → r < length st.rooms → Changes user r st
  ch r h = at_room-Changes user r st v lt h

  Fits-Calls : (p : Place) → Fits user p st → Calls user st p
  Fits-Calls (parting name r) f = (_, (ch r f.held_in).leaves)
  Fits-Calls (entering r) f = (_, (ch r f.target_in).joins)
  Fits-Calls (leaving r) f = get_elem?-total st.rooms r f.held_in
  Fits-Calls (removing r) f = (_, (ch r f.held_in).leaves)
  Fits-Calls (checking payload r) f = get_elem?-total st.rooms r f.held_in
  Fits-Calls (telling payload r) f =
      (_, (broadcast_in-Tells r user payload st v lt f.held_in).returns)
  Fits-Calls (joining r) f = (_, (ch r f.target_in).joins)
  Fits-Calls (draining r) f =
      let (u, at) = get_elem?-total st.users user lt in
      let (queue, returns, left, _) = dequeue_lem u.mqueue (c user u at) in
      (u, at, queue, returns, left)
  Fits-Calls _ f = tt

-- The act that makes the call.
Calls-CanAct :
    (user : ℕ) (st : Store) (p : Place) → Calls user st p → is_over p ≡ false → CanAct user st p
Calls-CanAct user st (awaiting room) k e = (_, _, hear none)
Calls-CanAct user st (parting name r) (_, k) e = (_, _, part k)
Calls-CanAct user st (seeking name) k e = (_, _, seek refl)
Calls-CanAct user st (entering r) (_, k) e = (_, _, enter k)
Calls-CanAct user st (leaving r) (_, k) e = (_, _, look_leave k)
Calls-CanAct user st (removing r) (_, k) e = (_, _, remove k)
Calls-CanAct user st (checking text r) (_, k) e = (_, _, look_tell k)
Calls-CanAct user st (telling text r) (_, k) e = (_, _, tell k)
Calls-CanAct user st (answering again msg room) k e = (_, _, answer)
Calls-CanAct user st (closing room) k e = (_, _, close)
Calls-CanAct user st greeting k e = (_, _, greet none)
Calls-CanAct user st (admitting name) k e = (_, _, admit refl)
Calls-CanAct user st (joining r) (_, k) e = (_, _, enroll k)
Calls-CanAct user st (draining r) (u, at, queue, k, _) e = (_, _, drain at k)
Calls-CanAct user st (ended room) k e = absurd (ground arith)
Calls-CanAct user st crashed k e = absurd (ground arith)

-- In every reachable state, for each thread that has not returned and has not followed a null
-- pointer, the call that is next is defined, and the thread can act: the room whose method is
-- called exists, a broadcast finds all its members, and `dequeue` returns the oldest message of the
-- user's queue and leaves the others, or returns null if there is none.
pub Reach-CanAct :
    {w : World} (i : ℕ) (p : Place)
    → Reach w
    → get_elem? w.threads i ≡ some p
    → is_over p ≡ false
    → Calls i w.store p × CanAct i w.store p
Reach-CanAct {w} i p reach at e =
    let s = Reach-IsSafe reach in
    let k =
      Fits-Calls i w.store s.valid s.counted (rw (← s.thread_count) (get_elem?-lt w.threads i at)) p
        (s.fits i p at) in
    (k, Calls-CanAct i w.store p k e)

-- The act in which a text to all is sent has the effect of the call.
tell-returns :
    {user r : ℕ} {payload : Str} {st after : Store} {q : Place}
    → Act user st (telling payload r) after q
    → broadcast_in r user payload st ≡ done after
tell-returns (tell e) = e

-- What a broadcast does to one member of the room.
Tells-queue :
    {r user : ℕ} {payload : Str} {st : Store}
    → IsValid st
    → (t : Tells r user payload st) (v : ℕ) (u : User) → get_elem? st.users v ≡ some u
    → member_at v r st.rooms ≡ true
    → str_eq u.username t.sender.username ≡ false
    → queue_in t.told.users v
      ≡ queue_in st.users v ++ delivery t.room.room_name t.sender.username payload ∷ []
Tells-queue {r} {user} {payload} {st} valid t v u at is_in differ =
    queue_in-delivery_to r user payload st valid t v ∙ ground (arith, t.at, t.at_user)

-- In every reachable state in which one thread is at `broadcast_message` for a room, and another
-- thread is in its receiver's loop for that room, with a user of another name, the act of the first
-- thread puts the text, as a delivery with the room's and the sender's name, in the other user's
-- queue behind what is there.
pub telling-draining :
    {w : World} {st : Store} {q : Place} (i j r : ℕ) (payload : Str) (sender receiver : User)
    → Reach w
    → get_elem? w.threads i ≡ some (telling payload r)
    → get_elem? w.threads j ≡ some (draining r)
    → get_elem? w.store.users i ≡ some sender
    → get_elem? w.store.users j ≡ some receiver
    → str_eq receiver.username sender.username ≡ false
    → Act i w.store (telling payload r) st q
    → (room : Room) × (get_elem? w.store.rooms r ≡ some room)
      × (queue_in st.users j
          ≡ queue_in w.store.users j ++ delivery room.room_name sender.username payload ∷ [])
telling-draining {w} {st} i j r payload sender receiver reach at_i at_j is_i is_j differ a =
    let s = Reach-IsSafe reach in
    let t =
      broadcast_in-Tells r i payload w.store s.valid (get_elem?-lt w.store.users i is_i)
        (s.fits i (telling payload r) at_i).held_in in
    let named : t.sender ≡ sender = some-injective t.sender sender (sym t.at_user ∙ is_i) in
    let told : t.told ≡ st = done-injective (sym t.returns ∙ tell-returns a) in
    (
      t.room,
      t.at,
      subst
          (λ (x : Store × User).
            queue_in x.0.users j
            ≡ queue_in w.store.users j ++ delivery t.room.room_name x.1.username payload ∷ [])
          (λ k. (told k, named k))
          (Tells-queue s.valid t j receiver is_j ((s.fits j (draining r) at_j).surely r refl)
            (rw named differ)),
    )
