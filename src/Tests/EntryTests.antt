-- ===== src/Tests/EntryTests.antt =====
-- Login, receivers and the listening part of server.cpp, and the life of a connection, at concrete
-- inputs.
use csf_hw.Prelude.{
  List, length, ◌≡◌, refl, [], ◌∷◌, ◌++◌, List, none, pos, is_neg, arith, if◌then◌else◌,
}
use csf_hw.Outcome.{done, done, exited}
use csf_hw.Text.{Str, codes, str_eq, has}
use csf_hw.Text.Decimal.{to_string}
use csf_hw.Message.{Message, make_message, tag_delivery, tag_leave, tag_join}
use csf_hw.Server.{new_store}
use csf_hw.Server.Chat.{Chat}
use csf_hw.Server.Draining.{Drains, receiver_loop-Drains}
use csf_hw.Server.Entry.{Refuses, handle_client_login-Refuses}
use csf_hw.Server.Listen.{server_main}
use csf_hw.Server.Started.{Event, Happens, started, complaints, server_main-Accepts}
use csf_hw.Draft.{draft_request}
use csf_hw.Draft.Compare.{effect, draft_request-agrees}
use csf_hw.Server.Chat.{on_request}
use csf_hw.Server.Script.{bytes}
use csf_hw.Server.Visit.{Visits, worker-Visits}
use csf_hw.Tests.{
  Wire, script, script-IsScript, wire, wire_documented, open_conn, with_input, plain,
  new_store-IsValid,
}

-- A user with two deliveries in the queue.
abbrev deliveries : List Message
deliveries =
    make_message tag_delivery (codes "lobby:bob:hi")
    ∷ make_message tag_delivery (codes "lobby:bob:bye")
    ∷ []

abbrev ann_listens : Chat wire
ann_listens = record {
  conn = open_conn;
  net = with_input [];
  store = record {
    m_rooms = [];
    rooms = [];
    users =
        record {
          username = codes "ann\n";
          mqueue = record { m_avail = 2; m_messages = deliveries };
        }
        ∷ [];
  };
  room = none;
}

receiver_loop-Drains_example : Drains wire wire_documented 0 5 deliveries ann_listens
unfolding str_eq
receiver_loop-Drains_example =
    receiver_loop-Drains wire wire_documented 0 5 deliveries ann_listens refl
      (record { receiver = _; at = refl; counted = refl; queued = refl }) (refl, (refl, tt))

abbrev new_chat : Str → Chat wire
new_chat s = record { conn = open_conn; net = with_input s; store = new_store; room = none }

worker-Visits_example :
    Visits wire wire_documented script
      (codes "more")
      0
      open_conn
      (with_input (codes "slogin:ann\n" ++ bytes script (codes "more")))
      new_store
unfolding has
worker-Visits_example =
    worker-Visits wire wire_documented (codes "ann") script (codes "more") 0 open_conn
      (with_input (codes "slogin:ann\n" ++ bytes script (codes "more"))) new_store new_store-IsValid
      refl refl (plain (codes "ann") refl refl refl) (omega arith) script-IsScript

handle_client_login-Refuses_example :
    Refuses wire wire_documented [] 9 (new_chat (codes "leave:bye\n"))
unfolding has str_eq
handle_client_login-Refuses_example =
    handle_client_login-Refuses wire wire_documented 9 tag_leave (codes "bye") []
      (new_chat (codes "leave:bye\n")) refl (plain tag_leave refl refl refl)
      (plain (codes "bye") refl refl refl) (omega arith) refl refl refl

server_main-Accepts_example :
    (events : List Event) × (after : Wire) × (length events ≡ 2)
    × Happens wire (pos 3) (with_input []) events after
    × (server_main wire 2 (codes "server" ∷ to_string (pos 4000) ∷ []) (with_input []) ≡ (
        if is_neg (pos 3)
        then exited 1 (codes "Could not listen on port " ++ (to_string (pos 4000) ++ codes "\n"))
        else done
            (record { net = after; threads = started wire events; errors = complaints events })))
server_main-Accepts_example =
    server_main-Accepts wire 2 (codes "server") (pos 4000) (pos 3) (with_input []) (with_input [])
      refl refl (λ net. refl)

draft_request-agrees_example :
    effect wire (draft_request wire 0 (make_message tag_join (codes "den\n")) ann_listens)
    ≡ effect wire (on_request wire 0 (make_message tag_join (codes "den\n")) ann_listens)
draft_request-agrees_example =
    draft_request-agrees wire 0 (make_message tag_join (codes "den\n")) ann_listens
      (λ r inside _. cc)
