-- ===== src/Tests/RoomTests.antt =====
-- Runs of room.cpp, and its theorems at concrete inputs.
use csf_hw.Prelude.{◌≡◌, refl, List, [], ◌∷◌, arith}
use csf_hw.Outcome.{done}
use csf_hw.Text.{codes, str_eq}
use csf_hw.Message.{make_message, tag_delivery}
use csf_hw.MessageQueue.{enqueue}
use csf_hw.User.{User, new_user}
use csf_hw.Room.{Room, remove_newline, delivery_text, deliver, broadcast_message}
use csf_hw.Room.Broadcast.{Broadcasts, broadcast_message-Broadcasts}

abbrev lobby : Room
lobby = record { room_name = codes "lobby\n"; members = 0 ∷ 1 ∷ [] }

abbrev people : List User
people = new_user (codes "ann\n") ∷ new_user (codes "bob\n") ∷ new_user (codes "cid\n") ∷ []

broadcast_run :
    broadcast_message (codes "ann\n") (codes "hi\n") lobby people
    ≡ done (
      record { room_name = codes "lobby"; members = 0 ∷ 1 ∷ [] },
      new_user (codes "ann\n")
          ∷ record {
            username = codes "bob\n";
            mqueue = record {
              m_avail = 1;
              m_messages = make_message tag_delivery (codes "lobby:ann:hi") ∷ [];
            };
          }
          ∷ new_user (codes "cid\n")
          ∷ [],
    )
unfolding broadcast_message deliver delivery_text remove_newline str_eq enqueue
broadcast_run = refl

broadcast_message-Broadcasts_example : Broadcasts (codes "ann\n") (codes "hi\n") lobby people
broadcast_message-Broadcasts_example =
    broadcast_message-Broadcasts (codes "ann\n") (codes "hi\n") lobby people (omega arith)
      (omega arith)
