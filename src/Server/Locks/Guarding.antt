-- ===== src/Server/Locks/Guarding.antt =====
-- What a thread in a method can rely on, whatever step comes next.
use csf_hw.Prelude.{
  ℕ, ◌+◌, ◌≤◌, ◌≡◌, refl, sym, ap, ◌∙◌, true, Option, none, some, List, ◌∷◌, ◌++◌, get_elem?, set,
  get_elem?-set_self, get_elem?-lt, arith, subst, ℕ_discrete, total-ge,
}
use mathlib.Core.Option.{some-injective}
use csf_hw.Room.{Room}
use csf_hw.Server.{create_user}
use csf_hw.Server.Threads.{Place}
use csf_hw.Server.Locks.{
  Lock, of_room, of_queue, lock_eq, Memory, put_lock, guard_of, Spot, outside, within, releasing,
  visiting, asking, pushing, posting, unlocking, fetching, taking, cut_name, Move, skip, compose,
  finish, lock_queue, push_back, post, unlock_queue, Machine, Step, login, move, Reach,
}
use csf_hw.Server.Locks.Owners.{one_if, owns, one_owner, lock_eq_refl, Reach-IsOwned}
use csf_hw.Server.Locks.Calls.{Move-get}
use csf_hw.Server.Locks.Loops.{Visits, Reach-Stands, owns_room}

-- The members still to visit are the last of the room's, and the room keeps its members.
abbrev pub Keeps : List ℕ → ℕ → Memory → Memory → Type 0
Keeps rest r m after =
    (room : Room) × (get_elem? m.store.rooms r ≡ some room)
    × (visited : List ℕ) × (room.members ≡ visited ++ rest)
    × (later : Room) × (get_elem? after.store.rooms r ≡ some later)
    × (later.members ≡ room.members)

-- For a thread at a spot, when a step leads from one memory to another.
abbrev pub Guards : ℕ → Spot → Memory → Memory → Type 0
Guards i (outside p) m after = Unit
Guards i (within p) m after = (l : Lock) × (guard_of p ≡ some l) × (m.locks l ≡ true)
Guards i (releasing l p) m after = m.locks l ≡ true
Guards i (visiting loop) m after =
    (m.locks (of_room loop.room) ≡ true) × Keeps loop.rest loop.room m after
Guards i (asking loop u msg) m after =
    (m.locks (of_room loop.room) ≡ true) × Keeps (u ∷ loop.rest) loop.room m after
Guards i (pushing loop u msg) m after =
    (m.locks (of_room loop.room) ≡ true)
    × (m.locks (of_queue u) ≡ true)
    × Keeps (u ∷ loop.rest) loop.room m after
Guards i (posting loop u) m after =
    (m.locks (of_room loop.room) ≡ true)
    × (m.locks (of_queue u) ≡ true)
    × Keeps (u ∷ loop.rest) loop.room m after
Guards i (unlocking loop u) m after =
    (m.locks (of_room loop.room) ≡ true)
    × (m.locks (of_queue u) ≡ true)
    × Keeps (u ∷ loop.rest) loop.room m after
Guards i (fetching u granted r) m after = u ≡ i
Guards i (taking u granted r) m after = (u ≡ i) × (m.locks (of_queue u) ≡ true)

-- The room that a broadcast under way goes through.
room_of : Spot → Option ℕ
room_of (visiting loop) = some loop.room
room_of (asking loop u msg) = some loop.room
room_of (pushing loop u msg) = some loop.room
room_of (posting loop u) = some loop.room
room_of (unlocking loop u) = some loop.room
room_of _ = none

abbrev SameMembers : Room → ℕ → Memory → Type 0
SameMembers room r after =
    (later : Room) × (get_elem? after.store.rooms r ≡ some later) × (later.members ≡ room.members)

-- The broadcast itself changes at most the name of its room.
Move-SameMembers :
    {user : ℕ} {m after : Memory} {p q : Spot} (r : ℕ) (room : Room)
    → Move user m p after q
    → room_of p ≡ some r
    → get_elem? m.store.rooms r ≡ some room
    → SameMembers room r after
unfolding room_of put_lock
Move-SameMembers r room (skip e at_u same) is at = (room, at, refl)
Move-SameMembers {m = m} r room (compose {loop} {room = x} e at_u differ at_room) is at =
    let same : loop.room ≡ r = some-injective loop.room r is in
    (
      cut_name x,
      subst (λ k. get_elem? (set m.store.rooms loop.room (cut_name x)) k ≡ some (cut_name x)) same
          (get_elem?-set_self m.store.rooms loop.room (cut_name x)
            (get_elem?-lt m.store.rooms loop.room at_room)),
      ap (λ (y : Room). y.members)
          (some-injective x room (sym at_room ∙ ap (get_elem? m.store.rooms) same ∙ at)),
    )
Move-SameMembers r room (finish e) is at = (room, at, refl)
Move-SameMembers r room (lock_queue free) is at = (room, at, refl)
Move-SameMembers r room (push_back at_u) is at = (room, at, refl)
Move-SameMembers r room (post at_u) is at = (room, at, refl)
Move-SameMembers r room unlock_queue is at = (room, at, refl)
Move-SameMembers r room _ is at = absurd (ground arith)

-- And no other thread changes anything in it.
Step-SameMembers :
    {s t : Machine} (i : ℕ) (p : Spot) (r : ℕ) (room : Room)
    → Reach s
    → get_elem? s.threads i ≡ some p
    → room_of p ≡ some r
    → 1 ≤ owns (of_room r) p
    → get_elem? s.memory.store.rooms r ≡ some room
    → Step s t
    → SameMembers room r t.memory
unfolding create_user
Step-SameMembers i p r room reach at is o at_r (login username sender) = (room, at_r, refl)
Step-SameMembers {s} i p r room reach at is o at_r (move j {p = q} at_j mv) =
    elim (ℕ_discrete j i) [
      | yes same ↦
          let here : q ≡ p = some-injective q p (sym at_j ∙ ap (get_elem? s.threads) same ∙ at) in
          Move-SameMembers r room mv (ap room_of here ∙ is) at_r
      | no differ ↦ (
        room,
        Move-get r room mv (omega (arith, o, one_owner reach (of_room r) j i q p at_j at differ))
            at_r,
        refl,
      )
    ]

owner-locked :
    {s : Machine} (l : Lock) (i : ℕ) (p : Spot)
    → Reach s
    → get_elem? s.threads i ≡ some p
    → 1 ≤ owns l p
    → s.memory.locks l ≡ true
owner-locked {s} l i p reach at o =
    ground (arith, Reach-IsOwned reach l, total-ge (owns l) s.threads i p at)

owns_one : (l : Lock) (n : ℕ) → 1 ≤ one_if (lock_eq l l) + n
owns_one l n = rw (lock_eq_refl l) (omega arith)

kept :
    {s t : Machine} (i : ℕ) (p : Spot) (rest : List ℕ) (r : ℕ)
    → Reach s
    → get_elem? s.threads i ≡ some p
    → room_of p ≡ some r
    → 1 ≤ owns (of_room r) p
    → Visits rest r s.memory.store.rooms
    → Step s t
    → Keeps rest r s.memory t.memory
kept i p rest r reach at is o (room, at_r, visited, e) st =
    let (later, there, same) = Step-SameMembers i p r room reach at is o at_r st in
    (room, at_r, visited, e, later, there, same)

guard-owns : (p : Place) (l : Lock) → guard_of p ≡ some l → 1 ≤ owns l (within p)
unfolding owns
guard-owns p l g = rw (owns, g) (omega (arith, owns_one l 0))

-- With the lock of the room, and the members kept.
in_room :
    {s t : Machine} (i : ℕ) (p : Spot) (rest : List ℕ) (r : ℕ)
    → Reach s
    → get_elem? s.threads i ≡ some p
    → room_of p ≡ some r
    → 1 ≤ owns (of_room r) p
    → Visits rest r s.memory.store.rooms
    → Step s t
    → (s.memory.locks (of_room r) ≡ true) × Keeps rest r s.memory t.memory
in_room i p rest r reach at is o v st =
    (owner-locked (of_room r) i p reach at o, kept i p rest r reach at is o v st)

-- With the lock of a queue as well.
in_queue :
    {s t : Machine} (i : ℕ) (p : Spot) (rest : List ℕ) (r u : ℕ)
    → Reach s
    → get_elem? s.threads i ≡ some p
    → room_of p ≡ some r
    → ((l : Lock) → owns l p ≡ one_if (lock_eq l (of_room r)) + one_if (lock_eq l (of_queue u)))
    → Visits rest r s.memory.store.rooms
    → Step s t
    → (s.memory.locks (of_room r) ≡ true)
      × (s.memory.locks (of_queue u) ≡ true)
      × Keeps rest r s.memory t.memory
in_queue i p rest r u reach at is o v st =
    let owned : 1 ≤ owns (of_room r) p = omega (arith, o (of_room r), owns_one (of_room r) 0) in
    let (held, keeps) = in_room i p rest r reach at is owned v st in
    (
      held,
      owner-locked (of_queue u) i p reach at
          (omega (arith, o (of_queue u), owns_one (of_queue u) 0)),
      keeps,
    )

-- In every state that the server's threads can reach with their locks, and for every step of any
-- thread from there: a thread within a method with a guard has that guard's lock held, as has one
-- before the guard's destructor. A thread in a broadcast has the lock of its room held, and from
-- `push_back` to the end of `enqueue` that of the queue; the members that it has still to visit,
-- with the one whose queue it is at, are the last of its room's, and the step leaves all the room's
-- members as they are, so that nobody joins or leaves before the broadcast ends. A thread in
-- `dequeue` has its own user's queue, with its lock held from the guard on.
pub Step-Guards :
    {s t : Machine} (i : ℕ) (p : Spot)
    → Reach s
    → get_elem? s.threads i ≡ some p
    → Step s t
    → Guards i p s.memory t.memory
unfolding owns room_of
Step-Guards i (outside p) reach at st = tt
Step-Guards i (within p) reach at st =
    let (l, g) = Reach-Stands i (within p) reach at in
    (l, g, owner-locked l i (within p) reach at (guard-owns p l g))
Step-Guards i (releasing l p) reach at st =
    owner-locked l i (releasing l p) reach at (omega (arith, owns_one l 0))
Step-Guards i (visiting loop) reach at st =
    in_room i (visiting loop) loop.rest loop.room reach at refl
      (omega (arith, owns_room loop.room 0)) (Reach-Stands i (visiting loop) reach at) st
Step-Guards i (asking loop u msg) reach at st =
    in_room i (asking loop u msg) (u ∷ loop.rest) loop.room reach at refl
      (omega (arith, owns_room loop.room 0)) (Reach-Stands i (asking loop u msg) reach at) st
Step-Guards i (pushing loop u msg) reach at st =
    in_queue i (pushing loop u msg) (u ∷ loop.rest) loop.room u reach at refl (λ l. refl)
      (Reach-Stands i (pushing loop u msg) reach at) st
Step-Guards i (posting loop u) reach at st =
    in_queue i (posting loop u) (u ∷ loop.rest) loop.room u reach at refl (λ l. refl)
      (Reach-Stands i (posting loop u) reach at) st
Step-Guards i (unlocking loop u) reach at st =
    in_queue i (unlocking loop u) (u ∷ loop.rest) loop.room u reach at refl (λ l. refl)
      (Reach-Stands i (unlocking loop u) reach at) st
Step-Guards i (fetching u granted r) reach at st = Reach-Stands i (fetching u granted r) reach at
Step-Guards i (taking u granted r) reach at st = (
  Reach-Stands i (taking u granted r) reach at,
  owner-locked (of_queue u) i (taking u granted r) reach at
      (omega (arith, owns_one (of_queue u) 0)),
)
