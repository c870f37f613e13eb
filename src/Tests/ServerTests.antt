-- ===== src/Tests/ServerTests.antt =====
-- Runs of server.cpp, and its theorems at concrete inputs.
use csf_hw.Prelude.{zero, suc, ℕ, ◌≡◌, refl, ◌↔◌, true, [], ◌∷◌, Option, some, none, arith}
use csf_hw.Outcome.{undefined}
use csf_hw.Text.{Str, codes, str_eq}
use csf_hw.Message.{make_message, tag_leave, tag_sendall}
use csf_hw.User.{new_user}
use csf_hw.Room.{member_exists}
use csf_hw.Server.{Store, find_room, find_or_create_room}
use csf_hw.Server.Rooms.{IsValid, Finds, find_or_create_room-Finds}
use csf_hw.Server.Membership.{member_at}
use csf_hw.Server.Chat.{Chat, on_request}
use csf_hw.Server.Session.{InSession}
use csf_hw.Server.Session.Join.{Joins, on_join-Joins}
use csf_hw.Server.Session.Requests.{on_request-undefined_iff}
use csf_hw.Server.Spec.Requests.{Refines, on_request-Refines}
use csf_hw.Tests.{wire, open_conn, with_input}

-- One room with `ann` in it, and `bob` outside.
abbrev one_room : Store
one_room = record {
  m_rooms = (codes "lobby\n", 0) ∷ [];
  rooms = record { room_name = codes "lobby\n"; members = 0 ∷ [] } ∷ [];
  users = new_user (codes "ann\n") ∷ new_user (codes "bob\n") ∷ [];
}

one_room-IsValid : IsValid one_room
one_room-IsValid = record { keyed = (omega arith, (_, refl, refl), tt); members = omega arith }

find_or_create_room-Finds_example :
    Finds (codes "den\n") one_room (find_or_create_room (codes "den\n") one_room)
find_or_create_room-Finds_example =
    find_or_create_room-Finds (codes "den\n") one_room one_room-IsValid

-- The thread of `bob`, who has not joined, and of `ann`, who has.
abbrev bob_chat : Str → Chat wire
bob_chat s = record { conn = open_conn; net = with_input s; store = one_room; room = none }

abbrev ann_chat : Str → Chat wire
ann_chat s = record { conn = open_conn; net = with_input s; store = one_room; room = some 0 }

bob_alone : (r : ℕ) → member_at 1 r one_room.rooms ≡ true → ◌≡◌ {A = Option ℕ} none (some r)
unfolding member_exists
bob_alone zero h = cc
bob_alone (suc r) h = cc

ann_alone : (r : ℕ) → member_at 0 r one_room.rooms ≡ true → ◌≡◌ {A = Option ℕ} (some 0) (some r)
unfolding member_exists
ann_alone zero h = refl
ann_alone (suc r) h = cc

bob_session : InSession 1 none one_room
bob_session = record {
  valid = one_room-IsValid;
  user_lt = omega arith;
  room_in = tt;
  alone = bob_alone;
}

ann_session : InSession 0 (some 0) one_room
ann_session = record {
  valid = one_room-IsValid;
  user_lt = omega arith;
  room_in = omega arith;
  alone = ann_alone;
}

on_join-Joins_example : Joins wire 1 (codes "lobby\n") (bob_chat [])
on_join-Joins_example = on_join-Joins wire 1 (codes "lobby\n") (bob_chat []) bob_session

on_request-undefined_iff_example :
    (on_request wire 1 (make_message tag_leave (codes "bye\n")) (bob_chat []) ≡ undefined)
    ↔ ((tag_leave ≡ tag_leave) × (◌≡◌ {A = Option ℕ} none none))
on_request-undefined_iff_example =
    on_request-undefined_iff wire 1 (make_message tag_leave (codes "bye\n")) (bob_chat [])
      bob_session

on_request-Refines_example :
    Refines wire 0 (make_message tag_sendall (codes "hi\n")) (some (codes "lobby\n")) (ann_chat [])
unfolding find_room str_eq
on_request-Refines_example =
    on_request-Refines wire 0 (make_message tag_sendall (codes "hi\n")) (some (codes "lobby\n"))
      (ann_chat []) ann_session refl (λ _ e. cc)
