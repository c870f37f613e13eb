-- ===== src/Server/Membership.antt =====
-- What the methods of one room do to a valid store, and who is a member of which room after them.
use mathlib.Core.Option.{some-injective}
use csf_hw.Prelude.{
  ℕ, zero, suc, ◌<◌, ◌≡◌, refl, sym, ◌∙◌, Bool, false, not, ◌&&◌, ◌||◌, List, [], ◌∷◌, none, some,
  length, length-set, get_elem?, set, get_elem?-set_self, get_elem?-set_ne, get_elem?-lt,
  get_elem?-total, arith, ◌==◌, if◌then◌else◌, ℕ_discrete,
}
use csf_hw.Outcome.{done}
use csf_hw.Text.{Str}
use csf_hw.User.{User}
use csf_hw.Room.{Room, remove_newline, add_member, remove_member, member_exists}
use csf_hw.Room.Members.{
  IsOrdered, AllBelow, set_insert-AllBelow, set_erase-AllBelow, Membership, Membership_lem,
}
use csf_hw.Server.{Store, at_room}
use csf_hw.Server.Rooms.{Named, IsKeyed, AllMembers, IsValid}

-- Whether `user` is a member of the room at `r`.
abbrev pub member_at : ℕ → ℕ → List Room → Bool
member_at user r rooms = elim (get_elem? rooms r) [
  | none ↦ false
  | some room ↦ member_exists user room
]

pub AllMembers-get :
    (n : ℕ) (rooms : List Room) (r : ℕ) {room : Room}
    → AllMembers n rooms
    → get_elem? rooms r ≡ some room
    → IsOrdered room.members × AllBelow n room.members
AllMembers-get n [] r v e = ground arith
AllMembers-get n (x ∷ rooms) zero v e = ground arith
AllMembers-get n (x ∷ rooms) (suc r) v e = AllMembers-get n rooms r v.2 e

AllMembers-set :
    (n : ℕ) (rooms : List Room) (r : ℕ) (room : Room)
    → AllMembers n rooms
    → IsOrdered room.members
    → AllBelow n room.members
    → AllMembers n (set rooms r room)
AllMembers-set n [] r room v o b = v
AllMembers-set n (x ∷ rooms) zero room v o b = (o, b, v.2)
AllMembers-set n (x ∷ rooms) (suc r) room v o b = (v.0, v.1, AllMembers-set n rooms r room v.2 o b)

Named-set :
    (rooms : List Room) (r : ℕ) (old new : Room) (k : Str) (q : ℕ)
    → get_elem? rooms r ≡ some old
    → remove_newline new.room_name ≡ remove_newline old.room_name
    → Named rooms k q
    → Named (set rooms r new) k q
Named-set rooms r old new k q at same (room, at_q, named) = elim (ℕ_discrete r q) [
  | yes e ↦ (
    new,
    rw (← e) (get_elem?-set_self rooms r new (get_elem?-lt rooms r at)),
    same ∙ (rw (some-injective old room (sym at ∙ rw e at_q)) named),
  )
  | no e ↦ (room, get_elem?-set_ne rooms r q new e ∙ at_q, named)
]

IsKeyed-set :
    (rooms : List Room) (r : ℕ) (old new : Room) (n : ℕ) (m : List (Str × ℕ))
    → get_elem? rooms r ≡ some old
    → remove_newline new.room_name ≡ remove_newline old.room_name
    → IsKeyed rooms n m
    → IsKeyed (set rooms r new) n m
IsKeyed-set rooms r old new n [] at same v = tt
IsKeyed-set rooms r old new n ((k, q) ∷ m) at same v = (
  v.0,
  Named-set rooms r old new k q at same v.1,
  IsKeyed-set rooms r old new (suc q) m at same v.2,
)

-- A room may be replaced by one of the same name, up to a newline, with proper members.
pub set_room-IsValid :
    (st : Store) (r : ℕ) (old new : Room) (users : List User)
    → get_elem? st.rooms r ≡ some old
    → IsValid st
    → length users ≡ length st.users
    → remove_newline new.room_name ≡ remove_newline old.room_name
    → IsOrdered new.members
    → AllBelow (length st.users) new.members
    → IsValid (record st { rooms = set st.rooms r new; users = users })
set_room-IsValid st r old new users at v count same o b = record {
  keyed = IsKeyed-set st.rooms r old new 0 st.m_rooms at same v.keyed;
  members = rw count (AllMembers-set (length st.users) st.rooms r new v.members o b);
}

add_member-name :
    (user : ℕ) (room : Room)
    → remove_newline (add_member user room).room_name ≡ remove_newline room.room_name
unfolding add_member
add_member-name user room = refl

remove_member-name :
    (user : ℕ) (room : Room)
    → remove_newline (remove_member user room).room_name ≡ remove_newline room.room_name
unfolding remove_member
remove_member-name user room = refl

add_member-AllBelow :
    (n user : ℕ) (room : Room)
    → user < n
    → AllBelow n room.members
    → AllBelow n (add_member user room).members
unfolding add_member
add_member-AllBelow n user room h b = set_insert-AllBelow n user room.members h b

remove_member-AllBelow :
    (n user : ℕ) (room : Room)
    → AllBelow n room.members
    → AllBelow n (remove_member user room).members
unfolding remove_member
remove_member-AllBelow n user room b = set_erase-AllBelow n user room.members b

pub member_at-set :
    (v q r : ℕ) (rooms : List Room) (old new : Room)
    → get_elem? rooms r ≡ some old
    → member_at v q (set rooms r new)
      ≡ (if r == q then member_exists v new else member_at v q rooms)
member_at-set v q r rooms old new at = ground (
  arith,
  get_elem?-set_self rooms r new (get_elem?-lt rooms r at),
  get_elem?-set_ne rooms r q new,
)

-- `add_member` and `remove_member` on the room at `r` of a valid store.
pub record Changes (user r : ℕ) (st : Store) : Type 0 where
  pub joined : Store
  pub left : Store
  pub joins : at_room r (add_member user) st ≡ done joined
  pub leaves : at_room r (remove_member user) st ≡ done left
  pub joined_valid : IsValid joined
  pub left_valid : IsValid left
  pub joined_map : joined.m_rooms ≡ st.m_rooms
  pub left_map : left.m_rooms ≡ st.m_rooms
  pub joined_users : joined.users ≡ st.users
  pub left_users : left.users ≡ st.users
  pub joined_count : length joined.rooms ≡ length st.rooms
  pub left_count : length left.rooms ≡ length st.rooms
  pub joined_member :
      (v q : ℕ) → member_at v q joined.rooms ≡ ((r == q && user == v) || member_at v q st.rooms)
  pub joined_named : (k : Str) (q : ℕ) → Named st.rooms k q → Named joined.rooms k q
  pub left_member :
      (v q : ℕ) → member_at v q left.rooms ≡ (not (r == q && user == v) && member_at v q st.rooms)

pub at_room-Changes :
    (user r : ℕ) (st : Store)
    → IsValid st
    → user < length st.users
    → r < length st.rooms
    → Changes user r st
unfolding at_room
at_room-Changes user r st v hu hr = go (get_elem?-total st.rooms r hr)
  where
    go : (room : Room) × (get_elem? st.rooms r ≡ some room) → Changes user r st
    go (room, at) = record {
      joined = record st { rooms = set st.rooms r (add_member user room) };
      left = record st { rooms = set st.rooms r (remove_member user room) };
      joins = rw at;
      leaves = rw at;
      joined_valid =
          set_room-IsValid st r room (add_member user room) st.users at v refl
            (add_member-name user room) m.added_ordered
            (add_member-AllBelow (length st.users) user room hu proper.1);
      left_valid =
          set_room-IsValid st r room (remove_member user room) st.users at v refl
            (remove_member-name user room) m.removed_ordered
            (remove_member-AllBelow (length st.users) user room proper.1);
      joined_map = refl;
      left_map = refl;
      joined_users = refl;
      left_users = refl;
      joined_count = length-set st.rooms r (add_member user room);
      left_count = length-set st.rooms r (remove_member user room);
      joined_member = λ w q.
          ground (arith, member_at-set w q r st.rooms room (add_member user room) at, m.added w);
      joined_named = λ k q.
          Named-set st.rooms r room (add_member user room) k q at (add_member-name user room);
      left_member = λ w q.
          ground
            (arith, member_at-set w q r st.rooms room (remove_member user room) at, m.removed w);
    }
      where
        proper : IsOrdered room.members × AllBelow (length st.users) room.members
        proper = AllMembers-get (length st.users) st.rooms r v.members at

        m : Membership user room
        m = Membership_lem user room proper.0
