-- ===== src/Server/Locks/Owed.antt =====
-- What the broadcasts under way have still to deliver, and that each user waits for one at most.
use csf_hw.Prelude.{
  ℕ, ◌≤◌, ◌<◌, ◌≡◌, refl, ◌≢◌, ◌⊎◌, inl, inr, true, false, not, ◌&&◌, List, [], ◌∷◌, ◌++◌, none,
  some, length, get_elem?, Bool-cases, Option-cases, arith, ◌==◌, if◌then◌else◌, subst,
}
use csf_hw.Text.{Str, str_eq}
use csf_hw.Message.{Message}
use csf_hw.Room.{Room, set_has, member_exists}
use csf_hw.Room.Members.{set_has_above}
use csf_hw.Room.Broadcast.{delivery}
use csf_hw.Server.{Store}
use csf_hw.Server.Rooms.{IsValid}
use csf_hw.Server.Membership.{member_at, AllMembers-get}
use csf_hw.Server.Threads.{World}
use csf_hw.Server.Threads as Threads
use csf_hw.Server.Threads.Reachable.{Reach-IsSafe, member_at_unique}
use csf_hw.Server.Locks.{
  of_room, Loop, Spot, visiting, asking, pushing, posting, unlocking, Machine, Reach,
}
use csf_hw.Server.Locks.Owners.{owns, one_owner}
use csf_hw.Server.Locks.Loops.{owns_room, Visits, Stands, Reach-AllStand}
use csf_hw.Server.Locks.Alike.{Alike, room_like, user_count, members_like}

-- An entry, or the empty string.
abbrev pub entry : List Str → ℕ → Str
entry names v = elim (get_elem? names v) [ none ↦ [] | some name ↦ name ]

-- What the loop will put on the queue of `v`, given the rooms' and the users' names.
unfoldable pub owed_rest : ℕ → List Str → List Str → Loop → List Message
owed_rest v rooms names loop =
    if set_has v loop.rest && not (str_eq (entry names v) loop.sender)
    then delivery (entry rooms loop.room) loop.sender loop.text ∷ []
    else []

-- The message in hand is for `u`.
abbrev pub owed_next : ℕ → ℕ → Message → List Message
owed_next v u msg = if u == v then msg ∷ [] else []

unfoldable pub owed : ℕ → List Str → List Str → Spot → List Message
owed v rooms names (visiting loop) = owed_rest v rooms names loop
owed v rooms names (asking loop u msg) = owed_next v u msg ++ owed_rest v rooms names loop
owed v rooms names (pushing loop u msg) = owed_next v u msg ++ owed_rest v rooms names loop
owed v rooms names (posting loop u) = owed_rest v rooms names loop
owed v rooms names (unlocking loop u) = owed_rest v rooms names loop
owed v rooms names _ = []

set_has-append : (v : ℕ) (xs ys : List ℕ) → set_has v ys ≡ true → set_has v (xs ++ ys) ≡ true
unfolding set_has
set_has-append v [] ys h = h
set_has-append v (x ∷ xs) ys h = rw (set_has-append v xs ys h) (ground arith)

pub Visits-member :
    (v : ℕ) (rest : List ℕ) (r : ℕ) (rooms : List Room)
    → Visits rest r rooms
    → set_has v rest ≡ true
    → member_at v r rooms ≡ true
unfolding member_exists
Visits-member v rest r rooms (room, at, before, e) h =
    rw (member_at, at, e) (set_has-append v before rest h)

-- The thread is on its way to the user: it goes through a room where the user is, with its lock.
abbrev pub IsHeading : ℕ → List Room → Spot → Type 0
IsHeading v rooms p = (r : ℕ) × (member_at v r rooms ≡ true) × (1 ≤ owns (of_room r) p)

pub owed_rest_none :
    (v : ℕ) (rooms names : List Str) (loop : Loop)
    → set_has v loop.rest ≡ false
    → owed_rest v rooms names loop ≡ []
unfolding owed_rest
owed_rest_none v rooms names loop h = rw h refl

owed_next_none :
    (v u : ℕ) (msg : Message) (rooms names : List Str) (loop : Loop)
    → set_has v (u ∷ loop.rest) ≡ false
    → owed_next v u msg ++ owed_rest v rooms names loop ≡ []
unfolding owed_rest set_has
owed_next_none v u msg rooms names loop h = ground arith

owed_tail_none :
    (v u : ℕ) (rooms names : List Str) (loop : Loop)
    → set_has v (u ∷ loop.rest) ≡ false
    → owed_rest v rooms names loop ≡ []
unfolding owed_rest set_has
owed_tail_none v u rooms names loop h = ground arith

owed-cases :
    (i v : ℕ) (ts ns : List Str) (p : Spot) (rooms : List Room)
    → Stands i p rooms
    → (owed v ts ns p ≡ []) ⊎ IsHeading v rooms p
unfolding owed owns
owed-cases i v ts ns (visiting loop) rooms h = elim (Bool-cases (set_has v loop.rest)) [
  | inl has ↦
      inr (loop.room, Visits-member v _ loop.room rooms h has, omega (arith, owns_room loop.room 0))
  | inr misses ↦ inl (owed_rest_none v ts ns loop misses)
]
owed-cases i v ts ns (asking loop u msg) rooms h = elim (Bool-cases (set_has v (u ∷ loop.rest))) [
  | inl has ↦
      inr (loop.room, Visits-member v _ loop.room rooms h has, omega (arith, owns_room loop.room 0))
  | inr misses ↦ inl (owed_next_none v u msg ts ns loop misses)
]
owed-cases i v ts ns (pushing loop u msg) rooms h = elim (Bool-cases (set_has v (u ∷ loop.rest))) [
  | inl has ↦ inr (loop.room, Visits-member v _ loop.room rooms h has, owns_room loop.room _)
  | inr misses ↦ inl (owed_next_none v u msg ts ns loop misses)
]
owed-cases i v ts ns (posting loop u) rooms h = elim (Bool-cases (set_has v (u ∷ loop.rest))) [
  | inl has ↦ inr (loop.room, Visits-member v _ loop.room rooms h has, owns_room loop.room _)
  | inr misses ↦ inl (owed_tail_none v u ts ns loop misses)
]
owed-cases i v ts ns (unlocking loop u) rooms h = elim (Bool-cases (set_has v (u ∷ loop.rest))) [
  | inl has ↦ inr (loop.room, Visits-member v _ loop.room rooms h has, owns_room loop.room _)
  | inr misses ↦ inl (owed_tail_none v u ts ns loop misses)
]
owed-cases i v ts ns _ rooms h = inl refl

-- A member is a user.
pub member_at-lt :
    (v r : ℕ) (st : Store) → IsValid st → member_at v r st.rooms ≡ true → v < length st.users
unfolding member_exists
member_at-lt v r st valid h = elim (Option-cases (get_elem? st.rooms r)) [
  | inl missing ↦ absurd (ground arith)
  | inr (room, at) ↦ ground (
    arith,
    at,
    set_has_above (length st.users) v room.members,
    (AllMembers-get (length st.users) st.rooms r valid.members at).1,
  )
]

pub member_at-like :
    {a s : Store} (v r : ℕ)
    → Alike a s
    → member_at v r s.rooms ≡ true
    → member_at v r a.rooms ≡ true
unfolding member_exists
member_at-like {a} {s} v r like h = elim (Option-cases (get_elem? s.rooms r)) [
  | inl missing ↦ absurd (ground arith)
  | inr (room, at) ↦
      let (room', at', cut) = room_like like r room at in
      ground (arith, at', members_like room' room cut)
]

module _ {w : World} {s : Machine} (reach_w : Threads.Reach w) (reach : Reach s)
    (like : Alike w.store s.memory.store) where
  -- In the whole server at most one broadcast is on its way to a user.
  pub others_owe_nothing :
      (i j v : ℕ) (p q : Spot) (ts ns : List Str)
      → get_elem? s.threads i ≡ some p
      → get_elem? s.threads j ≡ some q
      → i ≢ j
      → IsHeading v s.memory.store.rooms p
      → owed v ts ns q ≡ []
  others_owe_nothing i j v p q ts ns at_i at_j differ (r, is_in, mine) =
      elim (owed-cases j v ts ns q s.memory.store.rooms (Reach-AllStand reach j q at_j)) [
        | inl none_owed ↦ none_owed
        | inr (x, is_in', others) ↦ absurd (
            omega (
              arith,
              mine,
              subst (λ y. 1 ≤ owns (of_room y) q) (unique v x r is_in' is_in) others,
              one_owner reach (of_room r) i j p q at_i at_j differ,
            ))
      ]
    where
      unique :
          (v r q : ℕ)
          → member_at v r s.memory.store.rooms ≡ true
          → member_at v q s.memory.store.rooms ≡ true
          → r ≡ q
      unique v r q in_r in_q =
          member_at_unique v r q reach_w
            (member_at-lt v r w.store (Reach-IsSafe reach_w).valid (member_at-like v r like in_r))
            (member_at-like v r like in_r) (member_at-like v q like in_q)

-- A member of a room of the server with locks is a user.
pub is_user :
    {a s : Store} (v r : ℕ)
    → IsValid a
    → Alike a s
    → member_at v r s.rooms ≡ true
    → v < length s.users
is_user {a} v r valid like h =
    omega (arith, member_at-lt v r a valid (member_at-like v r like h), user_count like)
