-- ===== src/Tests/PlayTests.antt =====
-- A session of sender.cpp at a concrete input: three commands typed, with their answers.
use csf_hw.Prelude.{◌++◌, arith, pos, refl, List, [], ◌∷◌}
use csf_hw.Text.{Str, codes, str_eq, has, c_str}
use csf_hw.Message.{Message, make_message, tag_join, tag_leave, tag_quit}
use csf_hw.Connection.{message_text}
use csf_hw.Client.Sender.{starts_with, find_str}
use csf_hw.Client.Search.{find_str-Lacks}
use csf_hw.Client.Commands.{typed_join, typed_leave, typed_quit}
use csf_hw.Client.Play.{Command, AllCommands, lines_of}
use csf_hw.Client.Visit.{Attends, sender_main-Attends}
use csf_hw.Joined.Receivers.{Hears, receiver_main-Hears}
use csf_hw.Joined.Senders.{Meets, sender_main-Meets}
use csf_hw.Server.{Store, new_store}
use csf_hw.Client.Feed.{Told, IsShort, message_of}
use csf_hw.Client.Follow.{Follows, receiver_main-Follows}
use csf_hw.Room.{remove_newline, delivery_text, find_char}
use csf_hw.Tests.{
  Wire, plain, script-IsScript, wire, wire_documented, with_input, open_conn, new_store-IsValid,
}

abbrev command : Str → Message → Str → Command
command typed msg behind = record { typed = typed; msg = msg; behind = behind }

abbrev commands : List Command
commands =
    command (codes "/join lobby") (make_message tag_join (codes "lobby")) []
    ∷ command (codes "/leave") (make_message tag_leave []) (codes "\n")
    ∷ command (codes "/quit") (make_message tag_quit []) (codes "\n")
    ∷ []

commands-AllCommands : AllCommands commands
unfolding has starts_with find_str
commands-AllCommands = (
  record { one_line = refl; stands_for = typed_join (codes "lobby") },
  (
    record {
      one_line = refl;
      stands_for = typed_leave [] [] (find_str-Lacks (codes "/join ") (codes "/leave") refl);
    },
    (
      record {
        one_line = refl;
        stands_for =
            typed_quit [] [] (find_str-Lacks (codes "/join ") (codes "/quit") refl)
              (find_str-Lacks (codes "/leave") (codes "/quit") refl);
      },
      tt,
    ),
  ),
)

abbrev answered : Str
answered = codes "ok:Join successful\nok:Leave successful\nok:Quit successful\nok:x\n"

abbrev to_greet : Wire
to_greet = with_input (codes "ok:Sender logged in\n" ++ answered)

sender_main-Attends_example :
    Attends wire wire_documented
      (codes "./sender")
      (codes "localhost")
      (codes "ann")
      (pos 5000)
      4
      (pos 0)
      to_greet
      to_greet
      commands
      []
      (codes "ok:x\n")
      0
unfolding str_eq message_text has
sender_main-Attends_example =
    sender_main-Attends wire wire_documented (codes "./sender") (codes "localhost") (codes "ann")
      (pos 5000) 4 (pos 0) to_greet to_greet commands [] (codes "ok:x\n") 0 refl refl
      (plain (codes "ann") refl refl refl) (omega arith) commands-AllCommands script-IsScript refl

-- The same run, as the input of the thread that serves it.
abbrev ann_attends :
    Attends wire wire_documented
      (codes "./sender")
      (codes "localhost")
      (codes "ann")
      (pos 5000)
      4
      (pos 0)
      to_greet
      to_greet
      commands
      []
      (codes "ok:x\n")
      0
unfolding str_eq message_text has
ann_attends =
    sender_main-Attends wire wire_documented (codes "./sender") (codes "localhost") (codes "ann")
      (pos 5000) 4 (pos 0) to_greet to_greet commands [] (codes "ok:x\n") 0 refl refl
      (plain (codes "ann") refl refl refl) (omega arith) commands-AllCommands script-IsScript refl

abbrev to_serve : Wire
to_serve = with_input ann_attends.played.net.output

sender_main-Meets_example :
    Meets wire wire_documented
      (lines_of commands)
      to_greet.input
      (codes "ok:x\n")
      0
      open_conn
      to_serve
      new_store
unfolding has str_eq message_text
sender_main-Meets_example =
    sender_main-Meets wire wire_documented (codes "./sender") (codes "localhost") (codes "ann")
      (pos 5000) 4 (pos 0) to_greet to_greet commands [] (codes "ok:x\n") 0 0 open_conn to_serve
      new_store ann_attends refl refl (plain (codes "ann") refl refl refl) (omega arith)
      script-IsScript new_store-IsValid refl refl refl

abbrev feed : Wire
feed = with_input (codes "ok:Receiver logged in\nok:Join successful\ndelivery:lobby:ann:hi\nok:x\n")

abbrev hi : Told
hi = record { room = codes "lobby\n"; sender = codes "ann\n"; text = codes "hi\n" }

hi-IsShort : IsShort hi
unfolding has remove_newline message_text delivery_text str_eq find_char
hi-IsShort = record {
  room_plain = plain (codes "lobby") refl refl refl;
  sender_plain = plain (codes "ann") refl refl refl;
  text_plain = plain (codes "hi") refl refl refl;
  fits = omega arith;
}

receiver_main-Follows_example :
    Follows wire wire_documented
      (codes "./receiver")
      (codes "localhost")
      (codes "bob")
      (codes "lobby")
      (pos 5000)
      4
      (pos 0)
      feed
      feed
      (hi ∷ [])
      (codes "ok:x\n")
unfolding str_eq message_text has remove_newline delivery_text find_char c_str
receiver_main-Follows_example =
    receiver_main-Follows wire wire_documented (codes "./receiver") (codes "localhost")
      (codes "bob") (codes "lobby") (pos 5000) 4 (pos 0) feed feed (hi ∷ []) (codes "ok:x\n") refl
      refl (plain (codes "bob") refl refl refl) (omega arith) (plain (codes "lobby") refl refl refl)
      (omega arith) (hi-IsShort, tt) refl

-- The same run, as the input of the thread that serves it.
abbrev bob_follows :
    Follows wire wire_documented
      (codes "./receiver")
      (codes "localhost")
      (codes "bob")
      (codes "lobby")
      (pos 5000)
      4
      (pos 0)
      feed
      feed
      (hi ∷ [])
      (codes "ok:x\n")
unfolding str_eq message_text has remove_newline delivery_text find_char c_str
bob_follows =
    receiver_main-Follows wire wire_documented (codes "./receiver") (codes "localhost")
      (codes "bob") (codes "lobby") (pos 5000) 4 (pos 0) feed feed (hi ∷ []) (codes "ok:x\n") refl
      refl (plain (codes "bob") refl refl refl) (omega arith) (plain (codes "lobby") refl refl refl)
      (omega arith) (hi-IsShort, tt) refl

-- What another thread has sent to the user.
abbrev told : Store
told = record new_store {
  users =
      record {
        username = codes "bob\n";
        mqueue = record { m_avail = 1; m_messages = message_of hi ∷ [] };
      }
      ∷ [];
}

abbrev to_follow : Wire
to_follow = with_input bob_follows.after.net.output

receiver_main-Hears_example :
    Hears wire wire_documented
      (codes "bob")
      (codes "lobby")
      (hi ∷ [])
      feed.input
      (codes "ok:x\n")
      2
      open_conn
      to_follow
      new_store
      told
unfolding str_eq message_text has remove_newline delivery_text find_char c_str
receiver_main-Hears_example =
    receiver_main-Hears wire wire_documented (codes "./receiver") (codes "localhost") (codes "bob")
      (codes "lobby") (pos 5000) 4 (pos 0) feed feed (hi ∷ []) (codes "ok:x\n") 2 open_conn
      to_follow new_store told bob_follows refl refl (plain (codes "bob") refl refl refl)
      (omega arith) (plain (codes "lobby") refl refl refl) (omega arith) new_store-IsValid refl refl
      refl (record { receiver = _; at = refl; counted = refl; queued = refl })
