-- ===== src/Server/Session/Sendall.antt =====
-- What a broadcast in a room does to the store.
use mathlib.Core.Option
use csf_hw.Prelude.{
  ℕ, ◌<◌, ◌≡◌, refl, some, length, get_elem?, set, length-set, get_elem?-total, arith,
}
use csf_hw.Outcome.{done}
use csf_hw.Text.{Str}
use csf_hw.User.{User}
use csf_hw.Room.{Room, member_exists}
use csf_hw.Room.Members.{IsOrdered, AllBelow}
use csf_hw.Room.Broadcast.{delivered, delivery, Broadcasts, broadcast_message-Broadcasts}
use csf_hw.Server.{Store}
use csf_hw.Server.Rooms.{IsValid}
use csf_hw.Server.Membership.{member_at, member_at-set, AllMembers-get, set_room-IsValid}
use csf_hw.Server.Chat.{broadcast_in}

member_exists-members :
    (v : ℕ) (a b : Room) → a.members ≡ b.members → member_exists v a ≡ member_exists v b
unfolding member_exists
member_exists-members v a b e = rw e

-- A broadcast by `user` in the room at `r` succeeds. The store stays valid, nobody joins or leaves
-- a room, and each member whose name is not that of `user` gets one delivery, nobody else any.
pub record Tells (r user : ℕ) (text : Str) (st : Store) : Type 0 where
  pub told : Store
  pub returns : broadcast_in r user text st ≡ done told
  pub room : Room
  pub at : get_elem? st.rooms r ≡ some room
  pub sender : User
  pub at_user : get_elem? st.users user ≡ some sender
  pub valid : IsValid told
  pub map_lem : told.m_rooms ≡ st.m_rooms
  pub member : (v q : ℕ) → member_at v q told.rooms ≡ member_at v q st.rooms
  pub user_count : length told.users ≡ length st.users
  pub room_count : length told.rooms ≡ length st.rooms
  pub each :
      (v : ℕ)
      → get_elem? told.users v
        ≡ Option.map
            (delivered sender.username
              (delivery room.room_name sender.username text)
              (member_exists v room))
            (get_elem? st.users v)

-- On a valid store, with an existing user and room, a broadcast by the user in the room succeeds,
-- keeps the store valid, changes no membership and no number of users or rooms, and delivers the
-- text once to each member whose name is not the user's, and to nobody else.
pub broadcast_in-Tells :
    (r user : ℕ) (text : Str) (st : Store)
    → IsValid st
    → user < length st.users
    → r < length st.rooms
    → Tells r user text st
unfolding broadcast_in
broadcast_in-Tells r user text st v hu hr =
    go (get_elem?-total st.rooms r hr) (get_elem?-total st.users user hu)
  where
    go :
        (room : Room) × (get_elem? st.rooms r ≡ some room)
        → (sender : User) × (get_elem? st.users user ≡ some sender)
        → Tells r user text st
    go (room, at) (sender, at_user) = record {
      told = record st { rooms = set st.rooms r b.result.0; users = b.result.1 };
      returns = rw at (rw at_user (rw b.returns refl));
      room = room;
      at = at;
      sender = sender;
      at_user = at_user;
      valid =
          set_room-IsValid st r room b.result.0 b.result.1 at v b.count b.name_lem
            (rw b.members proper.0) (rw b.members proper.1);
      map_lem = refl;
      member = λ w q. ground (
        arith,
        member_at-set w q r st.rooms room b.result.0 at,
        member_exists-members w b.result.0 room b.members,
      );
      user_count = b.count;
      room_count = length-set st.rooms r b.result.0;
      each = b.each;
    }
      where
        proper : IsOrdered room.members × AllBelow (length st.users) room.members
        proper = AllMembers-get (length st.users) st.rooms r v.members at

        b : Broadcasts sender.username text room st.users
        b = broadcast_message-Broadcasts sender.username text room st.users proper.0 proper.1
