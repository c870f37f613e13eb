-- ===== src/Server/Session.antt =====
-- The session of one sender: which room its user is in, step by step.
pub mod Join
pub mod Sendall
pub mod Stays
pub mod Requests
pub mod NewUser
use csf_hw.Prelude.{ℕ, ◌<◌, ◌≡◌, ◌≢◌, Bool, true, false, Option, none, some, length}
use csf_hw.Text.{Str}
use csf_hw.Csapp.{Csapp}
use csf_hw.Server.{Store}
use csf_hw.Server.Rooms.{IsValid}
use csf_hw.Server.Membership.{member_at}
use csf_hw.Server.Chat.{Chat}

abbrev pub RoomIn : Option ℕ → ℕ → Type 0
RoomIn none n = Unit
RoomIn (some r) n = r < n

-- Whether `user` is a member of the room that its thread holds.
abbrev pub in_room : ℕ → Option ℕ → Store → Bool
in_room user none st = false
in_room user (some r) st = member_at user r st.rooms

-- The store is valid, the user and the room held exist, and the user is a member of no other room.
pub record InSession (user : ℕ) (room : Option ℕ) (st : Store) : Type 0 where
  pub valid : IsValid st
  pub user_lt : user < length st.users
  pub room_in : RoomIn room (length st.rooms)
  pub alone : (r : ℕ) → member_at user r st.rooms ≡ true → room ≡ some r
