-- ===== src/Server/Spec.antt =====
-- The chat as its users see it: who is in which room, by name, and what waits for whom. Pointers,
-- the order of the rooms and of their members, and the semaphores are forgotten.
pub mod Join
pub mod Leave
pub mod Tell
pub mod Requests
use csf_hw.Prelude.{
  refl, ℕ, Bool, true, false, not, ◌&&◌, List, [], ◌∷◌, ◌++◌, Option, none, some, get_elem?, ◌≡◌,
  ◌==◌, if◌then◌else◌,
}
use csf_hw.Text.{Str, codes, str_eq}
use csf_hw.Message.{Message, make_message, tag_ok, tag_err, tag_join, tag_leave, tag_quit}
use csf_hw.User.{User}
use csf_hw.Room.Broadcast.{delivery}
use csf_hw.Server.{Store, find_room}
use csf_hw.Server.Membership.{member_at}

-- `is_in v k`: the user `v` is in the room named `k`. `queue v` is what waits for `v`.
pub record View : Type 0 where
  pub is_in : ℕ → Str → Bool
  pub queue : ℕ → List Message
  pub username : ℕ → Str

abbrev pub room_has : Store → ℕ → Str → Bool
room_has st v k = elim (find_room k st.m_rooms) [ none ↦ false | some r ↦ member_at v r st.rooms ]

abbrev pub queue_in : List User → ℕ → List Message
queue_in users v = elim (get_elem? users v) [ none ↦ [] | some u ↦ u.mqueue.m_messages ]

abbrev pub name_in : List User → ℕ → Str
name_in users v = elim (get_elem? users v) [ none ↦ [] | some u ↦ u.username ]

-- What is seen of a store.
unfoldable pub view : Store → View
view st = record { is_in = room_has st; queue = queue_in st.users; username = name_in st.users }

-- The user is in the named room and in no other.
abbrev pub move_to : ℕ → Str → View → View
move_to user name a = record a { is_in = λ v k. if user == v then str_eq name k else a.is_in v k }

abbrev pub move_out : ℕ → View → View
move_out user a = record a { is_in = λ v k. not (user == v) && a.is_in v k }

-- Everybody in the room but those with the sender's name gets one delivery.
abbrev pub tell : ℕ → Str → Str → View → View
tell user k text a = record a {
  queue = λ v.
      a.queue v
      ++ (if a.is_in v k && not (str_eq (a.username v) (a.username user))
          then delivery k (a.username user) text ∷ []
          else []);
}

abbrev pub is_inside : ℕ → Option Str → View → Bool
is_inside user none a = false
is_inside user (some k) a = a.is_in user k

-- A text to all, from the room that the thread holds.
abbrev pub say : ℕ → Option Str → Str → View → View
say user none text a = a
say user (some k) text a = if a.is_in user k then tell user k text a else a

pub say_inside :
    (user : ℕ) (k text : Str) (a : View)
    → a.is_in user k ≡ true
    → say user (some k) text a ≡ tell user k text a
say_inside user k text a h = rw (say, h) refl

pub say_outside :
    (user : ℕ) (k text : Str) (a : View) → a.is_in user k ≡ false → say user (some k) text a ≡ a
say_outside user k text a h = rw (say, h) refl

-- What a request does to the chat, and the name of the room held after it.
unfoldable pub spec_step : ℕ → Message → Option Str → View → Option Str × View
spec_step user msg held a =
    if str_eq msg.tag tag_quit
    then (held, a)
    else if str_eq msg.tag tag_join
    then (some msg.payload, move_to user msg.payload a)
    else if str_eq msg.tag tag_leave
    then (held, move_out user a)
    else (held, say user held msg.payload a)

-- The name under which the room held stands in the map.
abbrev pub Holds : Store → Option ℕ → Option Str → Type 0
Holds st none none = Unit
Holds st (some r) (some k) = find_room k st.m_rooms ≡ some r
Holds st _ _ = ⊥
