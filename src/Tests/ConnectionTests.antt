-- ===== src/Tests/ConnectionTests.antt =====
-- Runs of connection.cpp, and its theorems at concrete inputs.
use csf_hw.Prelude.{zero, suc, ℕ, ◌≡◌, refl, ◌↔◌, true, false, [], ◌∷◌, ◌++◌, arith}
use csf_hw.Outcome.{done, undefined}
use csf_hw.Text.{Str, codes, str_eq, has, c_str, tokens}
use csf_hw.Message.{make_message, empty_message, tag_join, tag_sendall, tag_delivery}
use csf_hw.Connection.{message_text, send, receive, received, divide_data, store_data, sent}
use csf_hw.Connection.Send.{Sends, send-Sends}
use csf_hw.Connection.Receive.{Receives}
use csf_hw.Connection.RoundTrip.{send-receive}
use csf_hw.Connection.Faults.{Overruns, receive-undefined_iff, receive_stale}
use csf_hw.Connection.LongLines.{receive_cut}
use csf_hw.Tests.{plain, Wire, read_wire, wire, wire_documented, open_conn, with_input}

send_run :
    (send wire open_conn (make_message tag_join (codes "lobby")) (with_input [])).net.output
    ≡ codes "join:lobby\n"
unfolding send message_text sent str_eq c_str
send_run = refl

receive_run :
    receive wire open_conn empty_message (with_input (codes "delivery:lobby:ann:hi\nok:x\n"))
    ≡ done (record {
      ok = true;
      msg = make_message tag_delivery (codes "lobby:ann:hi\n");
      conn = open_conn;
      net = record { input = codes "ok:x\n"; output = []; stack = codes "delivery:lobby:ann:hi\n" };
    })
unfolding receive received read_wire divide_data store_data tokens str_eq
receive_run = refl

send-Sends_example :
    Sends wire wire_documented open_conn (make_message tag_join (codes "lobby")) (with_input [])
send-Sends_example =
    send-Sends wire wire_documented open_conn (make_message tag_join (codes "lobby"))
      (with_input [])

send-receive_example :
    Receives wire wire_documented open_conn
      (with_input (codes "join:lobby\nquit:bye\n"))
      empty_message
      (make_message tag_join (codes "lobby\n"))
      (codes "quit:bye\n")
unfolding send message_text sent str_eq c_str has
send-receive_example =
    send-receive wire wire_documented open_conn open_conn (with_input [])
      (with_input (codes "join:lobby\nquit:bye\n")) (make_message tag_join (codes "lobby"))
      empty_message (codes "quit:bye\n") (plain tag_join refl refl refl)
      (plain (codes "lobby") refl refl refl) refl (omega arith) (omega arith) refl

receive-undefined_iff_example :
    (receive wire open_conn empty_message (with_input (codes "delivery:lobby\n")) ≡ undefined)
    ↔ ((false ≡ false) × Overruns (tokens b':' (codes "delivery:lobby\n")))
unfolding read_wire
receive-undefined_iff_example =
    receive-undefined_iff wire open_conn empty_message (with_input (codes "delivery:lobby\n"))

-- The input has ended, and the array still shows the last command.
ended : Wire
ended = record { input = []; output = []; stack = codes "sendall:hi\n" }

receive_stale_example :
    Receives wire wire_documented open_conn ended empty_message
      (make_message tag_sendall (codes "hi\n"))
      []
unfolding ended read_wire str_eq has
receive_stale_example =
    receive_stale wire wire_documented open_conn ended tag_sendall (codes "hi") empty_message refl
      refl refl refl refl

abbrev letters : ℕ → Str
letters zero = []
letters (suc n) = b'a' ∷ letters n

-- `join:` and 260 letters: 249 of them are received, 11 are read as the next line.
receive_cut_example :
    Receives wire wire_documented open_conn
      (with_input (codes "join:" ++ letters 260 ++ codes "\n"))
      empty_message
      (make_message tag_join (b'a' ∷ letters 248))
      (letters 11 ++ codes "\n")
unfolding has str_eq
receive_cut_example =
    receive_cut wire wire_documented open_conn
      (with_input (codes "join:" ++ letters 260 ++ codes "\n")) tag_join (letters 260) []
      empty_message b'a' (letters 248) refl (plain tag_join refl refl refl)
      (plain (letters 260) refl refl refl) refl (omega arith) refl
