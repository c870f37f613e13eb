-- ===== src/Server/Session/NewUser.antt =====
-- A new user of server.cpp starts a session in no room.
use csf_hw.Prelude.{
  ℕ, ◌≤◌, ◌≡◌, refl, false, List, [], ◌∷◌, length, length-append, none, get_elem?, Option-cases,
  inl, inr, arith,
}
use csf_hw.Text.{Str}
use csf_hw.Room.{Room, member_exists}
use csf_hw.Room.Members.{AllBelow-mono, set_has_above}
use csf_hw.Server.{Store, create_user}
use csf_hw.Server.Rooms.{IsValid, AllMembers}
use csf_hw.Server.Membership.{member_at, AllMembers-get}
use csf_hw.Server.Session.{InSession}

AllMembers-mono : (m n : ℕ) (rooms : List Room) → m ≤ n → AllMembers m rooms → AllMembers n rooms
AllMembers-mono m n [] h v = tt
AllMembers-mono m n (room ∷ rooms) h v =
    (v.0, AllBelow-mono m n room.members h v.1, AllMembers-mono m n rooms h v.2)

-- Nobody has joined a room before being a user.
member_at_above : (n r : ℕ) (rooms : List Room) → AllMembers n rooms → member_at n r rooms ≡ false
unfolding member_exists
member_at_above n r rooms v = elim (Option-cases (get_elem? rooms r)) [
  | inl missing ↦ rw (member_at, missing) refl
  | inr (room, at) ↦
      rw (member_at, at)
        (set_has_above n n room.members (omega arith) (AllMembers-get n rooms r v at).1)
]

-- A new user starts a session in no room.
pub create_user-InSession :
    (username : Str) (st : Store)
    → IsValid st
    → InSession (create_user username st).0 none (create_user username st).1
unfolding create_user
create_user-InSession username st v = record {
  valid = record {
    keyed = v.keyed;
    members =
        AllMembers-mono (length st.users) _ st.rooms
          (omega (arith, length-append st.users (_ ∷ []))) v.members;
  };
  user_lt = omega (arith, length-append st.users (_ ∷ []));
  room_in = tt;
  alone =
      λ r is_in. absurd (ground (arith, member_at_above (length st.users) r st.rooms v.members));
}
