-- ===== src/Server.antt =====
-- server.h and server.cpp: the rooms of the server, and what its threads share. A `Room *` is an
-- index into the list of all rooms, a `User *` one into the list of all users; neither is freed.
-- `find_or_create_room` holds the server's lock throughout, so it is one step here.
pub mod Rooms
pub mod Membership
pub mod Chat
pub mod Session
pub mod Replies
pub mod Script
pub mod Spec
pub mod Threads
pub mod Locks
pub mod Receiver
pub mod Draining
pub mod Login
pub mod Entry
pub mod Admission
pub mod Visit
pub mod Listen
pub mod Accepting
pub mod Started
use csf_hw.Prelude.{
  ℕ, List, [], ◌∷◌, ◌++◌, Option, none, some, length, get_elem?, set, if◌then◌else◌,
}
use csf_hw.Outcome.{Outcome, done, ◌>>=◌, deref}
use csf_hw.Text.{Str, str_eq}
use csf_hw.User.{User, new_user}
use csf_hw.Room.{Room, new_room}

-- `m_rooms` of the server, and every `Room` and `User` made so far.
pub record Store : Type 0 where
  pub m_rooms : List (Str × ℕ)
  pub rooms : List Room
  pub users : List User

abbrev pub new_store : Store
new_store = record { m_rooms = []; rooms = []; users = [] }

-- `m_rooms.find (room_name)`
unfoldable pub find_room : Str → List (Str × ℕ) → Option ℕ
find_room k [] = none
find_room k ((j, r) ∷ m) = if str_eq j k then some r else find_room k m

-- `m_rooms[room_name] = new_room`
unfoldable pub put_room : Str → ℕ → List (Str × ℕ) → List (Str × ℕ)
put_room k r [] = (k, r) ∷ []
put_room k r ((j, q) ∷ m) = if str_eq j k then (j, r) ∷ m else (j, q) ∷ put_room k r m

unfoldable pub find_or_create_room : Str → Store → ℕ × Store
unfolding find_room put_room
find_or_create_room room_name st = elim (find_room room_name st.m_rooms) [
  | none ↦ (
    length st.rooms,
    record st {
      rooms = st.rooms ++ new_room room_name ∷ [];
      m_rooms = put_room room_name (length st.rooms) st.m_rooms;
    },
  )
  | some r ↦ (r, st)
]

-- `new User (username)`
unfoldable pub create_user : Str → Store → ℕ × Store
create_user username st =
    (length st.users, record st { users = st.users ++ new_user username ∷ [] })

-- A method of the room that a pointer refers to.
unfoldable pub at_room : ℕ → (Room → Room) → Store → Outcome Store
at_room r method st = do
  room ← deref (get_elem? st.rooms r)
  done (record st { rooms = set st.rooms r (method room) })
