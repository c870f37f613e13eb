-- ===== src/Client/Printing.antt =====
-- From a broadcast of the server to what receiver.cpp prints of it.
use csf_hw.Prelude.{
  ℤ, ◌<◌, ◌+◌, ◌≡◌, refl, ap, ◌∙◌, [], ◌∷◌, ◌++◌, length, length-append, append_assoc, arith,
}
use csf_hw.Outcome.{done}
use csf_hw.Text.{Str, codes, c_str, str_eq, has}
use csf_hw.Text.Equality.{c_str_whole, has-append_false}
use csf_hw.Message.{make_message, empty_message, max_len, tag_delivery}
use csf_hw.Csapp.{Csapp, Documented}
use csf_hw.Room.{remove_newline, delivery_text}
use csf_hw.Connection.{message_text}
use csf_hw.Connection.Fields.{IsPlain}
use csf_hw.Connection.Receive.{Receives}
use csf_hw.Connection.Deliveries.{three, tokens-three, receive_delivery}
use csf_hw.Client.{Client, exit_on_err}
use csf_hw.Client.Receiver.{delivery_line, print_round}
use csf_hw.Client.Split.{split_data-tokens}

c_str-line : (text : Str) → IsPlain text → c_str (text ++ b'\n' ∷ []) ≡ text ++ b'\n' ∷ []
unfolding has
c_str-line text pt =
    c_str_whole (text ++ b'\n' ∷ []) (has-append_false 0 text (b'\n' ∷ []) pt.no_nul refl)

delivery_line_lem :
    (room sender text : Str)
    → IsPlain room
    → IsPlain sender
    → IsPlain text
    → delivery_line (three room sender (text ++ b'\n' ∷ []))
      ≡ done (sender ++ (codes ": " ++ (text ++ b'\n' ∷ [])))
unfolding delivery_line
delivery_line_lem room sender text pr ps pt = rw (
  split_data-tokens (three room sender (text ++ b'\n' ∷ [])),
  tokens-three room sender text pr ps pt,
  c_str_whole sender ps.no_nul,
  c_str-line text pt,
)

-- What the server writes for a delivery.
delivery_bytes :
    (room sender text rest : Str)
    → message_text (make_message tag_delivery (three room sender text)) ++ rest
      ≡ tag_delivery ++ b':' ∷ three room sender (text ++ b'\n' ∷ rest)
unfolding message_text str_eq
delivery_bytes room sender text rest = ap (λ s. tag_delivery ++ b':' ∷ s) (simp append_assoc)

pub length_delivery :
    (payload : Str)
    → length (message_text (make_message tag_delivery payload)) ≡ length payload + 10
unfolding message_text str_eq
length_delivery payload = omega (arith, length-append payload (b'\n' ∷ []))

module _ (cs : Csapp) (doc : Documented cs) where
  open doc use {incoming, outgoing}

  pub record Prints (room sender text rest : Str) (c : Client cs) : Type 0 where
    pub after : Client cs
    pub returns : print_round cs c ≡ done after
    pub out : after.out ≡ c.out ++ (sender ++ (codes ": " ++ (text ++ b'\n' ∷ [])))
    pub errors : after.errors ≡ c.errors
    pub unread : incoming after.conn.m_fdbuf after.net ≡ rest
    pub silent : (fd : ℤ) → outgoing fd after.net ≡ outgoing fd c.net

  -- While the descriptors work as documented, let the next bytes that arrive at a receiving client
  -- be those that the server writes for a broadcast of a text by a sender in a room. The three, cut
  -- at their newlines, hold no colon, newline or NUL, and the line has less than 255 bytes. Then
  -- one round of the client's loop succeeds, prints `sender: text` with one newline behind it and
  -- nothing else, and takes exactly that line off the input.
  pub print_round-Prints :
      (room sender text rest : Str) (c : Client cs)
      → incoming c.conn.m_fdbuf c.net
        ≡ message_text (make_message tag_delivery (delivery_text room sender text)) ++ rest
      → IsPlain (remove_newline room)
      → IsPlain (remove_newline sender)
      → IsPlain (remove_newline text)
      → length (message_text (make_message tag_delivery (delivery_text room sender text))) < max_len
      → Prints (remove_newline room) (remove_newline sender) (remove_newline text) rest c
  unfolding delivery_text print_round exit_on_err str_eq
  print_round-Prints room sender text rest c arrives pr ps pt fits = record {
    after = record c {
      conn = r.result.conn;
      net = r.result.net;
      out = c.out ++ (remove_newline sender ++ (codes ": " ++ (remove_newline text ++ b'\n' ∷ [])));
    };
    returns = rw r.returns (rw (r.ok, r.msg_lem) (rw (delivery_line_lem _ _ _ pr ps pt) refl));
    out = refl;
    errors = refl;
    unread = r.incoming_lem;
    silent = r.outgoing_lem;
  }
    where
      r :
          Receives cs doc c.conn c.net empty_message
            (make_message tag_delivery (
              three
                (remove_newline room)
                (remove_newline sender)
                (remove_newline text ++ b'\n' ∷ [])))
            rest
      r =
          receive_delivery cs doc c.conn c.net _ _ _ rest empty_message
            (arrives ∙ delivery_bytes _ _ _ rest) pr ps pt
            (omega (arith, length_delivery (delivery_text room sender text)))
