-- ===== src/Server/Rooms.antt =====
-- The map of rooms gives each name its own room.
use csf_hw.Prelude.{
  ◌↔◌, ℕ, suc, ◌≤◌, ◌≡◌, refl, ◌∙◌, ◌⊎◌, inl, inr, true, false, List, [], ◌∷◌, ◌++◌, Option, none,
  some, length, get_elem?, get_elem?-append_left, get_elem?-concat_last, get_elem?-lt, arith,
  if◌then◌else◌, Option-cases, Bool-cases,
}
use csf_hw.Text.{Str, str_eq}
use csf_hw.Text.Equality.{str_eq_iff, str_eq_refl}
use csf_hw.Room.{Room, new_room, remove_newline}
use csf_hw.Room.Members.{IsOrdered, AllBelow}
use csf_hw.Server.{Store, find_room, put_room, find_or_create_room}

-- The room at `r` has the name `k`, up to a newline.
abbrev pub Named : List Room → Str → ℕ → Type 0
Named rooms k r =
    (room : Room) × (get_elem? rooms r ≡ some room)
    × (remove_newline room.room_name ≡ remove_newline k)

-- Pointers fall short of `n` and increase along the map; each key names the room that it points to.
abbrev pub IsKeyed : List Room → ℕ → List (Str × ℕ) → Type 0
IsKeyed rooms n [] = Unit
IsKeyed rooms n ((k, r) ∷ m) = (n ≤ r) × Named rooms k r × IsKeyed rooms (suc r) m

abbrev pub AllMembers : ℕ → List Room → Type 0
AllMembers n [] = Unit
AllMembers n (room ∷ rooms) = IsOrdered room.members × AllBelow n room.members × AllMembers n rooms

-- Each key of the map has a room of its own with that name; the members of each room are an
-- ordered set of users.
pub record IsValid (st : Store) : Type 0 where
  pub keyed : IsKeyed st.rooms 0 st.m_rooms
  pub members : AllMembers (length st.users) st.rooms

find_room-ge :
    (k : Str) (rooms : List Room) (n r : ℕ) (m : List (Str × ℕ))
    → IsKeyed rooms n m
    → find_room k m ≡ some r
    → n ≤ r
unfolding find_room
find_room-ge k rooms n r [] v e = ground arith
find_room-ge k rooms n r ((j, q) ∷ m) v e = ground (arith, find_room-ge k rooms (suc q) r m v.2)

-- A pointer is found under one key only.
pub find_room-injective :
    (j k : Str) (rooms : List Room) (n r : ℕ) (m : List (Str × ℕ))
    → IsKeyed rooms n m
    → find_room j m ≡ some r
    → find_room k m ≡ some r
    → j ≡ k
unfolding find_room
find_room-injective j k rooms n r [] v e f = ground arith
find_room-injective j k rooms n r ((i, q) ∷ m) v e f = ground (
  arith,
  str_eq_iff i j,
  str_eq_iff i k,
  find_room-ge j rooms (suc q) r m v.2,
  find_room-ge k rooms (suc q) r m v.2,
  find_room-injective j k rooms (suc q) r m v.2,
)

pub find_room-Named :
    (k : Str) (rooms : List Room) (n r : ℕ) (m : List (Str × ℕ))
    → IsKeyed rooms n m
    → find_room k m ≡ some r
    → Named rooms k r
unfolding find_room
find_room-Named k rooms n r [] v e = ground arith
find_room-Named k rooms n r ((j, q) ∷ m) v e =
    ground (arith, str_eq_iff j k, find_room-Named k rooms (suc q) r m v.2)

pub find_room-put :
    (j k : Str) (r : ℕ) (m : List (Str × ℕ))
    → find_room j (put_room k r m) ≡ (if str_eq k j then some r else find_room j m)
unfolding find_room put_room
find_room-put j k r [] = refl
find_room-put j k r ((i, q) ∷ m) =
    ground (arith, str_eq_iff i k, str_eq_iff i j, str_eq_iff k j, find_room-put j k r m)

Named-append :
    (rooms : List Room) (k : Str) (r : ℕ) (new : Room)
    → Named rooms k r
    → Named (rooms ++ new ∷ []) k r
Named-append rooms k r new (room, at, named) =
    (room, get_elem?-append_left rooms (new ∷ []) r (get_elem?-lt rooms r at) ∙ at, named)

Named-new : (rooms : List Room) (k : Str) → Named (rooms ++ new_room k ∷ []) k (length rooms)
Named-new rooms k = (new_room k, get_elem?-concat_last rooms (new_room k), refl)

put_room-IsKeyed :
    (k : Str) (rooms : List Room) (n : ℕ) (m : List (Str × ℕ))
    → n ≤ length rooms
    → find_room k m ≡ none
    → IsKeyed rooms n m
    → IsKeyed (rooms ++ new_room k ∷ []) n (put_room k (length rooms) m)
unfolding find_room put_room
put_room-IsKeyed k rooms n [] h e v = (h, Named-new rooms k, tt)
put_room-IsKeyed k rooms n ((j, r) ∷ m) h e v = elim (Bool-cases (str_eq j k)) [
  | inl same ↦ absurd (found same)
  | inr other ↦ rw other (
    v.0,
    Named-append rooms j r (new_room k) v.1,
    put_room-IsKeyed k rooms (suc r) m (get_elem?-lt rooms r v.1.1) (rest other) v.2,
  )
]
  where
    found : str_eq j k ≡ true → ⊥
    found same = ground arith

    rest : str_eq j k ≡ false → find_room k m ≡ none
    rest other = ground arith

AllMembers-append :
    (n : ℕ) (rooms : List Room) (k : Str)
    → AllMembers n rooms
    → AllMembers n (rooms ++ new_room k ∷ [])
AllMembers-append n [] k v = (tt, tt, tt)
AllMembers-append n (room ∷ rooms) k v = (v.0, v.1, AllMembers-append n rooms k v.2)

-- Where a name is found or its room made.
abbrev pub pointer_or : ℕ → Option ℕ → ℕ
pointer_or new none = new
pointer_or new (some r) = r

abbrev pub pointer_of : Str → Store → ℕ
pointer_of name st = pointer_or (length st.rooms) (find_room name st.m_rooms)

-- What `find_or_create_room` promises: the store stays valid, the name is found at the pointer
-- returned, the room there has that name and was there before or is new and last, every other name
-- is found where it was, and asking again returns the same pointer and changes nothing.
pub record Finds (name : Str) (st : Store) (out : ℕ × Store) : Type 0 where
  pub valid : IsValid out.1
  pub found :
      (k : Str)
      → find_room k out.1.m_rooms ≡ (if str_eq name k then some out.0 else find_room k st.m_rooms)
  pub at : out.0 ≡ pointer_of name st
  pub named : Named out.1.rooms name out.0
  pub rooms_lem :
      (out.1.rooms ≡ st.rooms)
      ⊎ ((out.1.rooms ≡ st.rooms ++ new_room name ∷ []) × (out.0 ≡ length st.rooms))
  pub users_lem : out.1.users ≡ st.users
  pub again : find_or_create_room name out.1 ≡ out

find_or_create_room_old :
    (name : Str) (st : Store) (r : ℕ)
    → find_room name st.m_rooms ≡ some r
    → find_or_create_room name st ≡ (r, st)
unfolding find_or_create_room
find_or_create_room_old name st r e = rw (e, find_or_create_room)

module _ (name : Str) (st : Store) (v : IsValid st) where
  old_room-Finds : (r : ℕ) → find_room name st.m_rooms ≡ some r → Finds name st (r, st)
  old_room-Finds r e = record {
    valid = v;
    found = λ k. ground (arith, str_eq_iff name k);
    at = rw e refl;
    named = find_room-Named name st.rooms 0 r st.m_rooms v.keyed e;
    rooms_lem = inl refl;
    users_lem = refl;
    again = find_or_create_room_old name st r e;
  }

  -- The store with the new room.
  abbrev created : Store
  created = record st {
    rooms = st.rooms ++ new_room name ∷ [];
    m_rooms = put_room name (length st.rooms) st.m_rooms;
  }

  created_found : find_room name created.m_rooms ≡ some (length st.rooms)
  created_found = rw (find_room-put name name (length st.rooms) st.m_rooms, str_eq_refl name)

  created-Finds : find_room name st.m_rooms ≡ none → Finds name st (length st.rooms, created)
  created-Finds e = record {
    valid = record {
      keyed = put_room-IsKeyed name st.rooms 0 st.m_rooms (omega arith) e v.keyed;
      members = AllMembers-append (length st.users) st.rooms name v.members;
    };
    found = λ k. find_room-put k name (length st.rooms) st.m_rooms;
    at = rw e refl;
    named = Named-new st.rooms name;
    rooms_lem = inr (refl, refl);
    users_lem = refl;
    again = find_or_create_room_old name created (length st.rooms) created_found;
  }

  -- On a valid store `find_or_create_room` keeps the store valid; the name is then found at the
  -- returned pointer and every other name where it was; the room there has that name; no room is
  -- added or one new last room is, to which the pointer then leads; the users stay; and asking
  -- again returns the same pointer and changes nothing.
  pub find_or_create_room-Finds : Finds name st (find_or_create_room name st)
  unfolding find_or_create_room
  find_or_create_room-Finds = elim (Option-cases (find_room name st.m_rooms)) [
    | inl e ↦ rw (e, find_or_create_room) (created-Finds e)
    | inr (r, e) ↦ rw (e, find_or_create_room) (old_room-Finds r e)
  ]

-- On a valid store, asking for two names one after the other returns the same room exactly if the
-- names are the same.
pub find_or_create_room-injective :
    (j k : Str) (st : Store)
    → IsValid st
    → let first = find_or_create_room j st in
      (first.0 ≡ (find_or_create_room k first.1).0) ↔ (j ≡ k)
find_or_create_room-injective j k st v = (to, λ e. rw (← e, once.again))
  where
    first : ℕ × Store
    first = find_or_create_room j st

    second : ℕ × Store
    second = find_or_create_room k first.1

    once : Finds j st first
    once = find_or_create_room-Finds j st v

    twice : Finds k first.1 second
    twice = find_or_create_room-Finds k first.1 once.valid

    to : first.0 ≡ second.0 → j ≡ k
    to e =
        find_room-injective j k second.1.rooms 0 second.0 second.1.m_rooms twice.valid.keyed
          (ground (arith, once.found j, twice.found j, str_eq_refl j))
          (ground (arith, twice.found k, str_eq_refl k))
