-- ===== src/Server/Locks/Loops.antt =====
-- Where a broadcast under way stands in its room.
use mathlib.Core.Option.{some-injective}
use csf_hw.Prelude.{
  ℕ, ◌+◌, ◌≤◌, ◌≡◌, refl, sym, ap, ◌∙◌, List, [], ◌∷◌, ◌++◌, append_assoc, some, get_elem?, set,
  get_elem?-set_self, get_elem?-set_ne, get_elem?-lt, inl, inr, arith, subst, ℕ_discrete,
}
use csf_hw.Room.{Room}
use csf_hw.Server.{create_user, at_room}
use csf_hw.Server.Threads.Reachable.{concat_cases}
use csf_hw.Server.Locks.{
  Lock, of_room, of_queue, lock_eq, Memory, put_lock, guard_of, Spot, outside, within, releasing,
  visiting, asking, pushing, posting, unlocking, fetching, taking, cut_name, Move, lock, begin,
  skip, compose, lock_queue, push_back, post, unlock_queue, wait, lock_own, Machine, Step, login,
  move, Reach, here, next,
}
use csf_hw.Server.Locks.Owners.{one_if, owns, one_owner, lock_eq_refl}
use csf_hw.Server.Locks.Calls.{Move-get}

-- The members that a loop has still to visit are the last ones of those in the room now.
abbrev pub Visits : List ℕ → ℕ → List Room → Type 0
Visits rest r rooms =
    (room : Room) × (get_elem? rooms r ≡ some room)
    × (before : List ℕ) × (room.members ≡ before ++ rest)

-- The members that the thread has before it, with the room; a thread that dequeues has its own
-- user's queue.
abbrev pub Stands : ℕ → Spot → List Room → Type 0
Stands i (visiting loop) rooms = Visits loop.rest loop.room rooms
Stands i (asking loop u msg) rooms = Visits (u ∷ loop.rest) loop.room rooms
Stands i (pushing loop u msg) rooms = Visits (u ∷ loop.rest) loop.room rooms
Stands i (posting loop u) rooms = Visits (u ∷ loop.rest) loop.room rooms
Stands i (unlocking loop u) rooms = Visits (u ∷ loop.rest) loop.room rooms
Stands i (within p) rooms = (l : Lock) × (guard_of p ≡ some l)
Stands i (fetching u granted r) rooms = u ≡ i
Stands i (taking u granted r) rooms = u ≡ i
Stands i _ rooms = Unit

-- The loop goes on behind the member that it has before it.
pub Visits-tail :
    (u : ℕ) (us : List ℕ) (r : ℕ) (rooms : List Room) → Visits (u ∷ us) r rooms → Visits us r rooms
Visits-tail u us r rooms (room, at, before, e) =
    (room, at, before ++ u ∷ [], e ∙ sym (append_assoc before (u ∷ []) us))

Visits-cut :
    (rest : List ℕ) (r : ℕ) (room : Room) (rooms : List Room)
    → get_elem? rooms r ≡ some room
    → Visits rest r rooms
    → Visits rest r (set rooms r (cut_name room))
Visits-cut rest r room rooms at (found, at', before, e) = (
  cut_name room,
  get_elem?-set_self rooms r (cut_name room) (get_elem?-lt rooms r at),
  before,
  ap (λ (x : Room). x.members) (some-injective room found (sym at ∙ at')) ∙ e,
)

Move-Stands :
    {user : ℕ} {m after : Memory} {p q : Spot}
    → Move user m p after q
    → Stands user p m.store.rooms
    → Stands user q after.store.rooms
unfolding put_lock
Move-Stands (lock {l = l} g free) h = (l, g)
Move-Stands {m = m} (begin {room = room} at at_user) h = (room, at, [], refl)
Move-Stands {m = m} (skip {loop} {u} {us} e at same) h =
    Visits-tail u us loop.room m.store.rooms (subst (λ x. Visits x loop.room m.store.rooms) e h)
Move-Stands {m = m} (compose {loop} {u} {us} {room = room} e at differ at_room) h =
    Visits-cut (u ∷ us) loop.room room m.store.rooms at_room
      (subst (λ x. Visits x loop.room m.store.rooms) e h)
Move-Stands (lock_queue free) h = h
Move-Stands (push_back at) h = h
Move-Stands (post at) h = h
Move-Stands {m = m} (unlock_queue {loop} {u}) h = Visits-tail u loop.rest loop.room m.store.rooms h
Move-Stands (wait at e) h = refl
Move-Stands (lock_own free) h = refl
Move-Stands _ h = tt

Visits-kept :
    (rest : List ℕ) (r : ℕ) (rooms rooms' : List Room)
    → ((room : Room) → get_elem? rooms r ≡ some room → get_elem? rooms' r ≡ some room)
    → Visits rest r rooms
    → Visits rest r rooms'
Visits-kept rest r rooms rooms' keep (room, at, before, e) = (room, keep room at, before, e)

pub owns_room : (r n : ℕ) → 1 ≤ one_if (lock_eq (of_room r) (of_room r)) + n
owns_room r n = rw (lock_eq_refl (of_room r)) (omega arith)

-- Who goes through a room has its lock.
Stands-kept :
    (i : ℕ) (p : Spot) (rooms rooms' : List Room)
    → ((r : ℕ) (room : Room)
        → 1 ≤ owns (of_room r) p
        → get_elem? rooms r ≡ some room
        → get_elem? rooms' r ≡ some room)
    → Stands i p rooms
    → Stands i p rooms'
unfolding owns
Stands-kept i (visiting loop) rooms rooms' keep h =
    Visits-kept _ loop.room rooms rooms'
      (λ room. keep loop.room room (omega (arith, owns_room loop.room 0))) h
Stands-kept i (asking loop u msg) rooms rooms' keep h =
    Visits-kept _ loop.room rooms rooms'
      (λ room. keep loop.room room (omega (arith, owns_room loop.room 0))) h
Stands-kept i (pushing loop u msg) rooms rooms' keep h =
    Visits-kept _ loop.room rooms rooms'
      (λ room.
        keep loop.room room
          (owns_room loop.room (one_if (lock_eq (of_room loop.room) (of_queue u)))))
      h
Stands-kept i (posting loop u) rooms rooms' keep h =
    Visits-kept _ loop.room rooms rooms'
      (λ room.
        keep loop.room room
          (owns_room loop.room (one_if (lock_eq (of_room loop.room) (of_queue u)))))
      h
Stands-kept i (unlocking loop u) rooms rooms' keep h =
    Visits-kept _ loop.room rooms rooms'
      (λ room.
        keep loop.room room
          (owns_room loop.room (one_if (lock_eq (of_room loop.room) (of_queue u)))))
      h
Stands-kept i (outside p) rooms rooms' keep h = tt
Stands-kept i (within p) rooms rooms' keep h = h
Stands-kept i (releasing l p) rooms rooms' keep h = tt
Stands-kept i (fetching u granted r) rooms rooms' keep h = h
Stands-kept i (taking u granted r) rooms rooms' keep h = h

abbrev pub AllStand : Machine → Type 0
AllStand s = (i : ℕ) (p : Spot) → get_elem? s.threads i ≡ some p → Stands i p s.memory.store.rooms

Step-AllStand : {s t : Machine} → Reach s → Step s t → AllStand s → AllStand t
unfolding create_user
Step-AllStand {s} reach (login username sender) h i p at = elim (concat_cases s.threads _ p i at) [
  | inl there ↦ h i p there
  | inr (last, same) ↦ subst (λ x. Stands i x s.memory.store.rooms) same tt
]
Step-AllStand {s} reach (move i {p} {q} {m} at mv) h j x there = elim (ℕ_discrete i j) [
  | yes same ↦
      subst (λ n. Stands n x m.store.rooms) same
        (subst (λ y. Stands i y m.store.rooms)
          (some-injective q x (
            sym (get_elem?-set_self s.threads i q (get_elem?-lt s.threads i at))
            ∙ ap (get_elem? (set s.threads i q)) same
            ∙ there))
          (Move-Stands mv (h i p at)))
  | no differ ↦
      let at_j = sym (get_elem?-set_ne s.threads i j q differ) ∙ there in
      Stands-kept j x s.memory.store.rooms m.store.rooms
        (λ r room o.
          Move-get r room mv (omega (arith, o, one_owner reach (of_room r) i j p x at at_j differ)))
        (h j x at_j)
]

pub Reach-AllStand : {s : Machine} → Reach s → AllStand s
Reach-AllStand here i p e = absurd (ground arith)
Reach-AllStand (next r st) i p e = Step-AllStand r st (Reach-AllStand r) i p e

-- The members that a broadcast has still to visit, with the one whose queue it is at, are the last
-- of those that are in its room now.
pub Reach-Stands :
    {s : Machine} (i : ℕ) (p : Spot)
    → Reach s
    → get_elem? s.threads i ≡ some p
    → Stands i p s.memory.store.rooms
Reach-Stands i p reach at = Reach-AllStand reach i p at
