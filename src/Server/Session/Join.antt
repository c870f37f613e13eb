-- ===== src/Server/Session/Join.antt =====
-- A join moves the user to the named room, and nobody else.
use csf_hw.Prelude.{
  ℕ, zero, suc, ◌≡◌, refl, ap, ap₂, ◌∙◌, inl, inr, not, ◌&&◌, List, [], ◌∷◌, ◌++◌, Option, none,
  some, get_elem?-lt, length, arith, ◌==◌, if◌then◌else◌,
}
use csf_hw.Outcome.{done}
use csf_hw.Text.{Str, codes, str_eq}
use csf_hw.Message.{tag_ok}
use csf_hw.Csapp.{Csapp}
use csf_hw.Room.{Room, new_room, member_exists}
use csf_hw.Server.{Store, find_room, find_or_create_room}
use csf_hw.Server.Rooms.{IsValid, Named, Finds, pointer_or, pointer_of, find_or_create_room-Finds}
use csf_hw.Server.Membership.{member_at, Changes, at_room-Changes}
use csf_hw.Server.Chat.{Chat, reply, leave_room, on_join}
use csf_hw.Server.Session.{InSession}

-- A new room has no members.
pub member_at_new :
    (v q : ℕ) (rooms : List Room) (name : Str)
    → member_at v q (rooms ++ new_room name ∷ []) ≡ member_at v q rooms
unfolding member_exists
member_at_new v zero [] name = refl
member_at_new v (suc q) [] name = refl
member_at_new v zero (room ∷ rooms) name = refl
member_at_new v (suc q) (room ∷ rooms) name = member_at_new v q rooms name

-- The store after the old room, if any, is left.
record Leaves (user : ℕ) (room : Option ℕ) (st : Store) : Type 0 where
  left : Store
  leaves : leave_room user room st ≡ done left
  valid : IsValid left
  map_lem : left.m_rooms ≡ st.m_rooms
  count : length left.rooms ≡ length st.rooms
  users : left.users ≡ st.users
  member : (v q : ℕ) → member_at v q left.rooms ≡ (not (user == v) && member_at v q st.rooms)

leave_room-Leaves :
    (user : ℕ) (room : Option ℕ) (st : Store) → InSession user room st → Leaves user room st
unfolding leave_room
leave_room-Leaves user none st s = record {
  left = st;
  leaves = refl;
  valid = s.valid;
  map_lem = refl;
  count = refl;
  users = refl;
  member = λ v q. ground (arith, s.alone q);
}
leave_room-Leaves user (some r) st s = record {
  left = c.left;
  leaves = c.leaves;
  valid = c.left_valid;
  map_lem = c.left_map;
  count = c.left_count;
  users = c.left_users;
  member = λ v q. ground (arith, s.alone q, c.left_member v q);
}
  where
    c : Changes user r st
    c = at_room-Changes user r st s.valid s.user_lt s.room_in

-- The user of `st` is a member of exactly the room with this name, which is at `pointer`; every
-- other membership and all users are as in `old`; the session goes on in that room.
pub record JoinedTo (user : ℕ) (name : Str) (pointer : ℕ) (old st : Store) : Type 0 where
  pub session : InSession user (some pointer) st
  pub named : Named st.rooms name pointer
  pub found :
      (k : Str)
      → find_room k st.m_rooms ≡ (if str_eq name k then some pointer else find_room k old.m_rooms)
  pub at : pointer ≡ pointer_of name old
  pub users : st.users ≡ old.users
  pub member :
      (v q : ℕ)
      → member_at v q st.rooms ≡ (if user == v then pointer == q else member_at v q old.rooms)

module _ (user : ℕ) (room : Option ℕ) (name : Str) (st : Store) (s : InSession user room st) where
  gone : Leaves user room st
  gone = leave_room-Leaves user room st s

  found : Finds name gone.left (find_or_create_room name gone.left)
  unfolding gone
  found = find_or_create_room-Finds name gone.left gone.valid

  pointer : ℕ
  unfolding gone
  pointer = (find_or_create_room name gone.left).0

  middle : Store
  unfolding gone
  middle = (find_or_create_room name gone.left).1

  middle-users : middle.users ≡ st.users
  unfolding middle
  middle-users = found.users_lem ∙ gone.users

  middle-member :
      (v q : ℕ) → member_at v q middle.rooms ≡ (not (user == v) && member_at v q st.rooms)
  unfolding middle
  middle-member v q = elim found.rooms_lem [
    | inl same ↦ rw same (gone.member v q)
    | inr (grown, _) ↦ rw grown (member_at_new v q gone.left.rooms name ∙ gone.member v q)
  ]

  arrived : Changes user pointer middle
  unfolding pointer middle
  arrived =
      at_room-Changes user pointer middle found.valid (rw middle-users s.user_lt)
        (get_elem?-lt middle.rooms pointer found.named.1)

  arrived-JoinedTo : JoinedTo user name pointer st arrived.joined
  unfolding arrived pointer middle
  arrived-JoinedTo = record {
    session = record {
      valid = arrived.joined_valid;
      user_lt = rw (arrived.joined_users, middle-users) s.user_lt;
      room_in = rw arrived.joined_count (get_elem?-lt middle.rooms pointer found.named.1);
      alone = λ q. ground (arith, arrived.joined_member user q, middle-member user q);
    };
    named = arrived.joined_named name pointer found.named;
    found = λ k. rw arrived.joined_map (found.found k ∙ rw gone.map_lem refl);
    at = found.at ∙ ap₂ pointer_or gone.count (ap (find_room name) gone.map_lem);
    users = arrived.joined_users ∙ middle-users;
    member = λ v q. ground (arith, arrived.joined_member v q, middle-member v q);
  }

-- In a session `on_join` succeeds: the user ends as a member of exactly the room with that name,
-- nobody else moves, and the answer is sent on the connection.
pub record Joins (cs : Csapp) (user : ℕ) (name : Str) (c : Chat cs) : Type 0 where
  pub target : ℕ
  pub after : Store
  pub returns :
      on_join cs user name c
      ≡ done (
          reply cs tag_ok
            (codes "Join successful")
            (record c { room = some target; store = after }))
  pub joined : JoinedTo user name target c.store after

-- In a session, a join succeeds and answers `ok`: afterwards the user is a member of exactly the
-- room with the given name, whether or not that room or another one was joined before, every other
-- membership and all users are as they were, and the session goes on in that room.
pub on_join-Joins :
    (cs : Csapp) (user : ℕ) (name : Str) (c : Chat cs)
    → InSession user c.room c.store
    → Joins cs user name c
unfolding on_join pointer middle arrived
on_join-Joins cs user name c s = record {
  target = pointer user c.room name c.store s;
  after = (arrived user c.room name c.store s).joined;
  returns =
      rw ((gone user c.room name c.store s).leaves)
        (rw ((arrived user c.room name c.store s).joins) refl);
  joined = arrived-JoinedTo user c.room name c.store s;
}
