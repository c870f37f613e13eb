-- ===== src/Server/Locks/Races.antt =====
-- Two threads never change the same thing at once.
use csf_hw.Prelude.{
  ℕ, ◌+◌, ◌≤◌, ◌≡◌, refl, zero, suc, ◌∙◌, ◌≢◌, ◌⊎◌, inl, inr, false, some, get_elem?, arith, ==_iff,
  subst,
}
use csf_hw.Outcome.{done}
use csf_hw.Room.{Room}
use csf_hw.Server.{Store, at_room}
use csf_hw.Server.Spec.{queue_in}
use csf_hw.Server.Threads.{Place, Act, part, enter, remove, enroll}
use csf_hw.Server.Locks.{
  Lock, of_server, of_room, of_queue, lock_eq, Memory, put_lock, guard_of, is_broadcast, Spot,
  within, Move, go_on, run, push_back, post, wait, take, Machine, Reach,
}
use csf_hw.Server.Locks.Owners.{one_if, owns, one_owner}
use csf_hw.Server.Locks.Calls.{at_room-done, go_on-store, Move-get}
use csf_hw.Server.Locks.Counts.{run-users}
use csf_hw.Server.Locks.Steady.{queue_in-set, queue_in-set_same}

-- The map of rooms changes only under the server's lock.
at_room-map :
    (r : ℕ) (method : Room → Room) (st after : Store)
    → at_room r method st ≡ done after
    → after.m_rooms ≡ st.m_rooms
at_room-map r method st after e =
    let (room, at, same) = at_room-done r method st after e in
    subst (λ (s : Store). s.m_rooms ≡ st.m_rooms) same refl

run-map :
    {user : ℕ} {st after : Store} {p q : Place} {l : Lock}
    → Act user st p after q
    → guard_of p ≡ some l
    → is_broadcast p ≡ false
    → owns of_server (within p) ≡ 0
    → after.m_rooms ≡ st.m_rooms
unfolding guard_of is_broadcast owns
run-map {st = st} {after = after} (part {r = x} e) g b o = at_room-map x _ st after e
run-map {st = st} {after = after} (enter {r = x} e) g b o = at_room-map x _ st after e
run-map {st = st} {after = after} (remove {r = x} e) g b o = at_room-map x _ st after e
run-map {st = st} {after = after} (enroll {r = x} e) g b o = at_room-map x _ st after e
run-map _ g b o = absurd (ground arith)

Move-map :
    {user : ℕ} {m after : Memory} {p q : Spot}
    → Move user m p after q
    → owns of_server p ≡ 0
    → after.store.m_rooms ≡ m.store.m_rooms
unfolding owns put_lock
Move-map (go_on u a) o = rw (go_on-store u a) refl
Move-map (run g b a) o = run-map a g b o
Move-map _ o = refl

-- A deque changes only under the lock of its queue.
other_queue : (u v : ℕ) (n : ℕ) → n + one_if (lock_eq (of_queue v) (of_queue u)) ≡ 0 → u ≢ v
other_queue u v n h e = ground (arith, ==_iff v u)

Move-queue :
    (v user : ℕ) {m after : Memory} {p q : Spot}
    → Move user m p after q
    → owns (of_queue v) p ≡ 0
    → queue_in after.store.users v ≡ queue_in m.store.users v
unfolding owns put_lock
Move-queue v user {m = m} (go_on u a) o = rw (go_on-store u a) refl
Move-queue v user (run g b a) o = rw (run-users g b a) refl
Move-queue v user {m = m} (push_back {loop} {u} {x = x} at) o =
    queue_in-set m.store.users u x _ v at
    ∙ ground
        (arith, ==_iff u v, other_queue u v (one_if (lock_eq (of_queue v) (of_room loop.room))) o)
Move-queue v user {m = m} (post {u = u} {x} at) o = queue_in-set_same m.store.users u x _ v at refl
Move-queue v user {m = m} (wait {x = x} at e) o = queue_in-set_same m.store.users user x _ v at refl
Move-queue v user {m = m} (take {x = x} at e) o =
    queue_in-set m.store.users user x _ v at
    ∙ ground (arith, ==_iff user v, other_queue user v 0 (omega (arith, o)))
Move-queue v user _ o = refl

one_is_zero : (a b : ℕ) → a + b ≤ 1 → (a ≡ 0) ⊎ (b ≡ 0)
one_is_zero zero b h = inl refl
one_is_zero (suc a) b h = inr (omega arith)

-- Of two threads at most one has the lock.
not_both :
    {s : Machine} {i j : ℕ} {p q : Spot} (l : Lock)
    → Reach s
    → get_elem? s.threads i ≡ some p
    → get_elem? s.threads j ≡ some q
    → i ≢ j
    → (owns l p ≡ 0) ⊎ (owns l q ≡ 0)
not_both {s} {i} {j} {p} {q} l reach at_i at_j differ =
    one_is_zero _ _ (one_owner reach l i j p q at_i at_j differ)

-- In every state that the server's threads can reach with their locks, let two different threads be
-- able to step. Then not both steps change the map of rooms, not both change the same existing
-- room, its name or its members, and not both change the messages of the same queue. The
-- semaphores, which are atomic, may be changed by both.
pub Moves-exclude :
    {s : Machine} (i j : ℕ) (p q p' q' : Spot) (m n : Memory) (r v : ℕ) (room : Room)
    → Reach s
    → get_elem? s.threads i ≡ some p
    → get_elem? s.threads j ≡ some q
    → i ≢ j
    → Move i s.memory p m p'
    → Move j s.memory q n q'
    → get_elem? s.memory.store.rooms r ≡ some room
    → ((m.store.m_rooms ≡ s.memory.store.m_rooms) ⊎ (n.store.m_rooms ≡ s.memory.store.m_rooms))
      × ((get_elem? m.store.rooms r ≡ some room) ⊎ (get_elem? n.store.rooms r ≡ some room))
      × ((queue_in m.store.users v ≡ queue_in s.memory.store.users v)
          ⊎ (queue_in n.store.users v ≡ queue_in s.memory.store.users v))
Moves-exclude i j p q p' q' m n r v room reach at_i at_j differ mv nv at = (
  elim (not_both of_server reach at_i at_j differ) [
    | inl o ↦ inl (Move-map mv o)
    | inr o ↦ inr (Move-map nv o)
  ],
  elim (not_both (of_room r) reach at_i at_j differ) [
    | inl o ↦ inl (Move-get r room mv o at)
    | inr o ↦ inr (Move-get r room nv o at)
  ],
  elim (not_both (of_queue v) reach at_i at_j differ) [
    | inl o ↦ inl (Move-queue v i mv o)
    | inr o ↦ inr (Move-queue v j nv o)
  ],
)
