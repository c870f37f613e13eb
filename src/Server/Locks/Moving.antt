-- ===== src/Server/Locks/Moving.antt =====
-- Which threads can move.
use csf_hw.Prelude.{
  ℕ, ◌<◌, ◌≡◌, refl, sym, ◌≢◌, inl, inr, Bool, true, false, List, [], ◌∷◌, Option, none, some,
  length, get_elem?, set, get_elem?-lt, get_elem?-total, Bool-cases, arith, ==_iff, subst,
}
use csf_hw.Outcome.{done}
use csf_hw.Text.{str_eq}
use csf_hw.Message.{Message}
use csf_hw.MessageQueue.{MessageQueue, take_message}
use csf_hw.User.{User}
use csf_hw.Room.{Room}
use csf_hw.Room.{set_has}
use csf_hw.Server.{Store, at_room}
use csf_hw.Server.Membership.{member_at}
use csf_hw.Server.Session.{RoomIn}
use csf_hw.Server.Spec.{queue_in}
use csf_hw.Server.Threads.{
  Place, awaiting, parting, seeking, entering, leaving, removing, checking, telling, answering,
  closing, greeting, admitting, joining, draining, ended, crashed, Act, hear, part, seek, enter,
  look_leave, remove, look_tell, answer, close, greet, admit, enroll, World, held, target,
}
use csf_hw.Server.Threads as Threads
use csf_hw.Server.Threads.Fits.{Fits}
use csf_hw.Server.Threads.Progress.{is_over}
use csf_hw.Server.Threads.Reachable.{Reach-IsSafe}
use csf_hw.Server.Locks.{
  Lock, of_queue, Memory, guard_of, is_broadcast, is_unguarded, Loop, Spot, outside, within,
  releasing, visiting, asking, pushing, posting, unlocking, fetching, taking, Move, go_on, lock,
  run, unlock, begin, skip, compose, finish, lock_queue, push_back, post, unlock_queue, wait,
  lock_own, take, Machine, Reach,
}
use csf_hw.Server.Locks.Loops.{Visits, Stands, Reach-AllStand}
use csf_hw.Server.Locks.Alike.{user_count, room_count}
use csf_hw.Server.Locks.Owed.{is_user, Visits-member}
use csf_hw.Server.Locks.Shows.{place_of, Shows, place_at}
use csf_hw.Server.Locks.Waiting.{granted_finds}

-- The lock that the thread's next step takes.
unfoldable pub waits : Spot → Option Lock
waits (outside p) = guard_of p
waits (asking loop u msg) = some (of_queue u)
waits (fetching u granted r) = some (of_queue u)
waits _ = none

-- The function of the thread has returned, or has followed a null pointer.
unfoldable pub is_finished : Spot → Bool
is_finished (outside p) = is_over p
is_finished _ = false

abbrev pub CanMove : ℕ → Memory → Spot → Type 0
CanMove i m p = (after : Memory) × (q : Spot) × Move i m p after q

-- With the user, the rooms that the thread points to, and the members before it.
module _ (i : ℕ) (m : Memory) (user_lt : i < length m.store.users) where
  get_room :
      (r : ℕ) → r < length m.store.rooms → (room : Room) × (get_elem? m.store.rooms r ≡ some room)
  get_room r h = get_elem?-total m.store.rooms r h

  method_done :
      (r : ℕ) (method : Room → Room)
      → r < length m.store.rooms
      → (after : Store) × (at_room r method m.store ≡ done after)
  unfolding at_room
  method_done r method h =
      let (room, at) = get_room r h in
      (record m.store { rooms = set m.store.rooms r (method room) }, rw at refl)

  place-CanMove :
      (p : Place)
      → RoomIn (held p) (length m.store.rooms)
      → is_over p ≡ false
      → ((l : Lock) → guard_of p ≡ some l → m.locks l ≡ false)
      → CanMove i m (outside p)
  unfolding guard_of is_unguarded
  place-CanMove (awaiting room) h o free = (_, _, go_on refl (hear none))
  place-CanMove (leaving r) h o free = (_, _, go_on refl (look_leave (get_room r h).1))
  place-CanMove (checking text r) h o free = (_, _, go_on refl (look_tell (get_room r h).1))
  place-CanMove (answering again msg room) h o free = (_, _, go_on refl answer)
  place-CanMove (closing room) h o free = (_, _, go_on refl close)
  place-CanMove greeting h o free = (_, _, go_on refl (greet none))
  place-CanMove (draining r) h o free =
      (_, _, wait (get_elem?-total m.store.users i user_lt).1 refl)
  place-CanMove (ended room) h o free = absurd (ground arith)
  place-CanMove crashed h o free = absurd (ground arith)
  place-CanMove p h o free = (_, _, lock {p = p} refl (free _ refl))

  within-CanMove :
      (p : Place) (l : Lock)
      → RoomIn (held p) (length m.store.rooms)
      → RoomIn (target p) (length m.store.rooms)
      → guard_of p ≡ some l
      → CanMove i m (within p)
  unfolding guard_of is_broadcast
  within-CanMove (parting name r) l h t g = (_, _, run refl refl (part (method_done r _ h).1))
  within-CanMove (seeking name) l h t g = (_, _, run refl refl (seek refl))
  within-CanMove (entering r) l h t g = (_, _, run refl refl (enter (method_done r _ t).1))
  within-CanMove (removing r) l h t g = (_, _, run refl refl (remove (method_done r _ h).1))
  within-CanMove (telling payload r) l h t g =
      (_, _, begin (get_room r h).1 (get_elem?-total m.store.users i user_lt).1)
  within-CanMove (admitting name) l h t g = (_, _, run refl refl (admit refl))
  within-CanMove (joining r) l h t g = (_, _, run refl refl (enroll (method_done r _ t).1))
  within-CanMove _ l h t g = absurd (ground arith)

  module _
      (users_in : (v r : ℕ) → member_at v r m.store.rooms ≡ true → v < length m.store.users) where
    next_user :
        (u : ℕ) (us : List ℕ) (r : ℕ)
        → Visits (u ∷ us) r m.store.rooms
        → (x : User) × (get_elem? m.store.users u ≡ some x)
    unfolding set_has
    next_user u us r h =
        get_elem?-total m.store.users u
          (users_in u r (Visits-member u (u ∷ us) r m.store.rooms h (ground (arith, ==_iff u u))))

    loop-CanMove :
        (loop : Loop) → Visits loop.rest loop.room m.store.rooms → CanMove i m (visiting loop)
    loop-CanMove loop h = split loop.rest refl
      where
        split : (rest : List ℕ) → loop.rest ≡ rest → CanMove i m (visiting loop)
        split [] e = (_, _, finish e)
        split (u ∷ us) e =
            let (x, at) =
              next_user u us loop.room (subst (λ ms. Visits ms loop.room m.store.rooms) e h) in
            elim (Bool-cases (str_eq x.username loop.sender)) [
              | inl same ↦ (_, _, skip e at same)
              | inr differ ↦ (_, _, compose e at differ h.1)
            ]

taken_from :
    (q : MessageQueue) (granted : Bool)
    → (granted ≡ true → q.m_messages ≢ [])
    → (out : Option Message) × (queue : MessageQueue) × (take_message granted q ≡ done (out, queue))
unfolding take_message
taken_from q false h = (_, _, refl)
taken_from q true h = go q.m_messages refl
  where
    go :
        (ms : List Message)
        → q.m_messages ≡ ms
        → (out : Option Message) × (queue : MessageQueue) × (take_message true q
            ≡ done (out, queue))
    go [] e = absurd (h refl e)
    go (msg ∷ rest) e = (some msg, record q { m_messages = rest }, rw e refl)

module _ {w : World} {s : Machine} (reach_w : Threads.Reach w) (reach : Reach s) (shows : Shows w s)
    (i : ℕ) where
  abbrev m : Memory
  m = s.memory

  stands : {p : Spot} → get_elem? s.threads i ≡ some p → Stands i p m.store.rooms
  stands {p} at = Reach-AllStand reach i p at

  fits : {p : Spot} → get_elem? s.threads i ≡ some p → Fits i (place_of p) w.store
  fits {p} at = (Reach-IsSafe reach_w).fits i (place_of p) (place_at i p shows at)

  users_in : (v r : ℕ) → member_at v r m.store.rooms ≡ true → v < length m.store.users
  users_in v r = is_user v r (Reach-IsSafe reach_w).valid shows.like

  room_in :
      (room : Option ℕ) → RoomIn room (length w.store.rooms) → RoomIn room (length m.store.rooms)
  room_in room h = subst (RoomIn room) (room_count shows.like) h

  user_in : {p : Spot} → get_elem? s.threads i ≡ some p → i < length m.store.users
  user_in {p} at = omega (
    arith,
    get_elem?-lt w.threads i (place_at i p shows at),
    (Reach-IsSafe reach_w).thread_count,
    user_count shows.like,
  )

  take-CanMove :
      (r : ℕ) (granted : Bool)
      → get_elem? s.threads i ≡ some (taking i granted r)
      → CanMove i m (taking i granted r)
  take-CanMove r granted at =
      let (x, at_user) = get_elem?-total m.store.users i (user_in at) in
      let (out, queue, e) = taken_from x.mqueue granted (λ is_granted is_empty.
        granted_finds i r reach
          (subst (λ b. get_elem? s.threads i ≡ some (taking i b r)) is_granted at)
          (rw (queue_in, at_user) is_empty)) in
      (_, _, take at_user e)

  -- A thread that waits for no lock, or for a free one, can move.
  pub spot-CanMove :
      (p : Spot)
      → get_elem? s.threads i ≡ some p
      → is_finished p ≡ false
      → ((l : Lock) → waits p ≡ some l → s.memory.locks l ≡ false)
      → CanMove i s.memory p
  unfolding waits is_finished place_of
  spot-CanMove (outside p) at o free =
      place-CanMove i m (user_in at) p (room_in (held p) (fits at).held_in) o free
  spot-CanMove (within p) at o free =
      let (l, g) = stands at in
      within-CanMove i m (user_in at) p l (room_in (held p) (fits at).held_in)
        (room_in (target p) (fits at).target_in) g
  spot-CanMove (releasing l q) at o free = (_, _, unlock)
  spot-CanMove (visiting loop) at o free = loop-CanMove i m (user_in at) users_in loop (stands at)
  spot-CanMove (asking loop u msg) at o free = (_, _, lock_queue (free (of_queue u) refl))
  spot-CanMove (pushing loop u msg) at o free =
      (_, _, push_back (next_user i m (user_in at) users_in u loop.rest loop.room (stands at)).1)
  spot-CanMove (posting loop u) at o free =
      (_, _, post (next_user i m (user_in at) users_in u loop.rest loop.room (stands at)).1)
  spot-CanMove (unlocking loop u) at o free = (_, _, unlock_queue)
  spot-CanMove (fetching u granted r) at o free =
      subst (λ n. CanMove n m (fetching u granted r)) (stands at)
        (_, _, lock_own (free (of_queue u) refl))
  spot-CanMove (taking u granted r) at o free =
      subst
        (λ n. get_elem? s.threads i ≡ some (taking n granted r) → CanMove i m (taking n granted r))
        (sym (stands at)) (take-CanMove r granted) at
