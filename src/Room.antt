-- ===== src/Room.antt =====
-- room.h and room.cpp: a chat room. `members`, a `std::set<User *>`, is a list in increasing order.
-- Each method is one step here: all but `member_exists` hold the room's lock throughout.
pub mod Members
pub mod Newline
pub mod Broadcast
use mathlib.Core.Option
use csf_hw.Prelude.{
  ℕ, zero, suc, ◌+◌, Bool, true, false, not, ◌||◌, List, [], ◌∷◌, ◌++◌, Option, none, some,
  get_elem?, set, take, ltb, ◌==◌, if◌then◌else◌,
}
use csf_hw.Outcome.{Outcome, done, ◌>>=◌, deref}
use csf_hw.Text.{Str, str_eq}
use csf_hw.Message.{Message, make_message, tag_delivery}
use csf_hw.MessageQueue.{enqueue}
use csf_hw.User.{User}

pub record Room : Type 0 where
  pub room_name : Str
  pub members : List ℕ

-- `Room (room_name)`
abbrev pub new_room : Str → Room
new_room room_name = record { room_name = room_name; members = [] }

-- `std::set::insert`, which keeps the order and adds nothing twice.
unfoldable pub set_insert : ℕ → List ℕ → List ℕ
set_insert u [] = u ∷ []
set_insert u (x ∷ xs) =
    let rest = set_insert u xs in
    if ltb u x then u ∷ x ∷ xs else if u == x then x ∷ xs else x ∷ rest

-- `std::set::erase (key)`
unfoldable pub set_erase : ℕ → List ℕ → List ℕ
set_erase u [] = []
set_erase u (x ∷ xs) = if x == u then xs else x ∷ set_erase u xs

-- `find (u) != end ()`
unfoldable pub set_has : ℕ → List ℕ → Bool
set_has u [] = false
set_has u (x ∷ xs) = x == u || set_has u xs

unfoldable pub add_member : ℕ → Room → Room
unfolding set_insert
add_member user room = record room { members = set_insert user room.members }

unfoldable pub remove_member : ℕ → Room → Room
unfolding set_erase
remove_member user room = record room { members = set_erase user room.members }

unfoldable pub member_exists : ℕ → Room → Bool
unfolding set_has
member_exists user room = set_has user room.members

-- `std::string::find` of one character; `none` is `npos`.
unfoldable pub find_char : ℕ → Str → Option ℕ
find_char d [] = none
find_char d (c ∷ s) = if c == d then some 0 else Option.map suc (find_char d s)

unfoldable pub remove_newline : Str → Str
unfolding find_char
remove_newline str = elim (find_char b'\n' str) [ none ↦ str | some pos ↦ take pos str ]

-- The text of the message that `broadcast_message` queues.
unfoldable pub delivery_text : Str → Str → Str → Str
delivery_text room_name sender_username message_text =
    remove_newline room_name
    ++ (b':' ∷ (remove_newline sender_username ++ b':' ∷ remove_newline message_text))

-- The body of the loop for one member; the room's own name loses its newline too.
unfoldable pub deliver : Str → Str → ℕ → User → Room × List User → Room × List User
deliver sender_username message_text u user (room, users) =
    if not (str_eq user.username sender_username)
    then (let text = delivery_text room.room_name sender_username message_text in
        (
          record room { room_name = remove_newline room.room_name },
          set users u
              (record user { mqueue = enqueue (make_message tag_delivery text) user.mqueue }),
        ))
    else (room, users)

unfoldable pub broadcast_loop : Str → Str → List ℕ → Room × List User → Outcome (Room × List User)
broadcast_loop sender_username message_text [] s = done s
broadcast_loop sender_username message_text (u ∷ us) s = do
  user ← deref (get_elem? s.1 u)
  broadcast_loop sender_username message_text us (deliver sender_username message_text u user s)

-- `broadcast_message` on the room and on all users.
unfoldable pub broadcast_message : Str → Str → Room → List User → Outcome (Room × List User)
unfolding broadcast_loop
broadcast_message sender_username message_text room users =
    broadcast_loop sender_username message_text room.members (room, users)
