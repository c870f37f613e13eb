-- ===== src/Tests/ClientTests.antt =====
-- Runs of the clients, and their theorems at concrete inputs.
use csf_hw.Prelude.{
  ◌≡◌, ◌≤◌, refl, true, List, [], ◌∷◌, ◌++◌, length, length-append, arith, if◌then◌else◌,
}
use csf_hw.Outcome.{done}
use csf_hw.Text.{Str, codes, str_eq, has, c_str, tokens}
use csf_hw.Message.{tag_err}
use csf_hw.Room.{remove_newline, delivery_text}
use csf_hw.Connection.{message_text}
use csf_hw.Connection.Fields.{IsPlain}
use csf_hw.Client.{Client}
use csf_hw.Client.Sender.{command_round}
use csf_hw.Client.Receiver.{split_data}
use csf_hw.Client.Split.{split_data-tokens}
use csf_hw.Client.Feed.{Told, IsShort, Shows, print_loop-Shows}
use csf_hw.Client.Requests.{Arrives}
use csf_hw.Client.Commands.{command_round_eof}
use csf_hw.Client.Trim.{trim, ltrim, rtrim, find_first_not_of, find_last_not_of}
use csf_hw.Tests.{wire, wire_documented, open_conn, with_input, plain}

trim_run : trim (codes " a b\t\n") ≡ codes "a b"
unfolding trim ltrim rtrim find_first_not_of find_last_not_of has
trim_run = refl

split_data-tokens_example :
    split_data (codes "lobby:ann:hi\n") ≡ tokens b':' (codes "lobby:ann:hi\n")
split_data-tokens_example = split_data-tokens (codes "lobby:ann:hi\n")

abbrev typing : Str → Str → Client wire
typing stdin input = record {
  conn = open_conn;
  net = with_input input;
  stdin = stdin;
  out = [];
  errors = [];
}

abbrev told : Str → Told
told text = record { room = codes "lobby\n"; sender = codes "ann\n"; text = text }

told-IsShort :
    (text : Str)
    → IsPlain (remove_newline text)
    → length (remove_newline text) ≤ 20
    → IsShort (told text)
unfolding has remove_newline message_text delivery_text str_eq
told-IsShort text plain_text short = record {
  room_plain = plain (codes "lobby") refl refl refl;
  sender_plain = plain (codes "ann") refl refl refl;
  text_plain = plain_text;
  fits = omega (arith, length-append (remove_newline text) (b'\n' ∷ []), short);
}

abbrev hi_bye : List Told
hi_bye = told (codes "hi\n") ∷ told (codes "bye\n") ∷ []

print_loop-Shows_example :
    Shows wire wire_documented hi_bye
      (codes "ok:x\n")
      (typing [] (codes "delivery:lobby:ann:hi\ndelivery:lobby:ann:bye\nok:x\n"))
unfolding has remove_newline delivery_text message_text str_eq c_str
print_loop-Shows_example =
    print_loop-Shows wire wire_documented hi_bye (codes "ok:x\n")
      (typing [] (codes "delivery:lobby:ann:hi\ndelivery:lobby:ann:bye\nok:x\n"))
      (
        told-IsShort (codes "hi\n") (plain (codes "hi") refl refl refl) (omega arith),
        (told-IsShort (codes "bye\n") (plain (codes "bye") refl refl refl) (omega arith), tt),
      )
      refl

abbrev typed_all : Client wire
typed_all = typing [] (codes "err:no room\n")

err_line : Arrives wire wire_documented (codes "err") (codes "no room") [] typed_all
unfolding has str_eq
err_line = record {
  arrives = refl;
  tag_plain = plain (codes "err") refl refl refl;
  field_plain = plain (codes "no room") refl refl refl;
  no_delivery = refl;
  fits = omega arith;
}

command_round_eof_example :
    (after : Client wire) × (command_round wire typed_all ≡ done (true, after))
    × (after.stdin ≡ [])
    × (after.net.output ≡ [] ++ codes "sendall:\n")
    × (after.net.input ≡ [])
    × (after.errors ≡ (
        if str_eq (codes "err") tag_err then [] ++ c_str (codes "no room" ++ b'\n' ∷ []) else []))
command_round_eof_example =
    command_round_eof wire wire_documented (codes "err") (codes "no room") [] typed_all refl
      err_line
