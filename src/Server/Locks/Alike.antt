-- ===== src/Server/Locks/Alike.antt =====
-- Stores that differ in what waits in the queues and in newlines of rooms' names only.
use csf_hw.Prelude.{ℕ, ◌≡◌, sym, ap, ◌∙◌, List, some, map, length, get_elem?, length-map, get_same}
use csf_hw.Text.{Str}
use csf_hw.User.{User}
use csf_hw.Room.{Room, remove_newline}
use csf_hw.Server.{Store}
use csf_hw.Server.Locks.{cut_name}

abbrev pub usernames : List User → List Str
usernames users = map (λ (u : User). u.username) users

abbrev pub titles : List Room → List Str
titles rooms = map (λ (room : Room). remove_newline room.room_name) rooms

pub record Alike (a s : Store) : Type 0 where
  pub m_rooms_lem : a.m_rooms ≡ s.m_rooms
  pub rooms_lem : map cut_name a.rooms ≡ map cut_name s.rooms
  pub names_lem : usernames a.users ≡ usernames s.users

module _ {a s : Store} (like : Alike a s) where
  pub room_count : length a.rooms ≡ length s.rooms
  room_count =
      sym (length-map cut_name a.rooms) ∙ ap length like.rooms_lem ∙ length-map cut_name s.rooms

  pub user_count : length a.users ≡ length s.users
  user_count =
      sym (length-map (λ (u : User). u.username) a.users)
      ∙ ap length like.names_lem
      ∙ length-map (λ (u : User). u.username) s.users

  pub room_like :
      (r : ℕ) (room : Room)
      → get_elem? s.rooms r ≡ some room
      → (room' : Room) × (get_elem? a.rooms r ≡ some room') × (cut_name room' ≡ cut_name room)
  room_like r room at = get_same cut_name s.rooms a.rooms r like.rooms_lem at

pub members_like : (x y : Room) → cut_name x ≡ cut_name y → x.members ≡ y.members
members_like x y e = ap (λ (room : Room). room.members) e
