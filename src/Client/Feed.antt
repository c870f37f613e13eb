-- ===== src/Client/Feed.antt =====
-- A sequence of broadcasts, from a queue of the server to what receiver.cpp prints.
use csf_hw.Prelude.{
  ℤ, ◌<◌, ◌≡◌, refl, ap, ◌∙◌, false, List, [], ◌∷◌, ◌++◌, map, length, append-nil, append_assoc,
  arith,
}
use csf_hw.Outcome.{done}
use csf_hw.Text.{Str, codes, str_eq, has}
use csf_hw.Text.Equality.{c_str_whole, has-append_false}
use csf_hw.Message.{Message, max_len}
use csf_hw.Csapp.{Csapp, Documented}
use csf_hw.Room.{remove_newline, delivery_text}
use csf_hw.Room.Broadcast.{delivery}
use csf_hw.Connection.{message_text}
use csf_hw.Connection.Send.{too_long}
use csf_hw.Connection.Fields.{IsPlain}
use csf_hw.Connection.Deliveries.{has-three}
use csf_hw.Server.Draining.{bytes_of, bytes_of_all}
use csf_hw.Client.{Client}
use csf_hw.Client.Receiver.{print_loop}
use csf_hw.Client.Printing.{length_delivery, print_round-Prints}

-- One broadcast.
pub record Told : Type 0 where
  pub room : Str
  pub sender : Str
  pub text : Str

abbrev pub message_of : Told → Message
message_of t = delivery t.room t.sender t.text

-- What is to be seen of it.
abbrev pub shown : Told → Str
shown t = remove_newline t.sender ++ (codes ": " ++ (remove_newline t.text ++ b'\n' ∷ []))

abbrev pub shown_all : List Told → Str
shown_all [] = []
shown_all (t ∷ ts) = shown t ++ shown_all ts

-- Plain fields, once cut at their newlines, and a line that the client can take in one piece.
pub record IsShort (t : Told) : Type 0 where
  pub room_plain : IsPlain (remove_newline t.room)
  pub sender_plain : IsPlain (remove_newline t.sender)
  pub text_plain : IsPlain (remove_newline t.text)
  pub fits : length (message_text (message_of t)) < max_len

abbrev pub AllShort : List Told → Type 0
AllShort [] = Unit
AllShort (t ∷ ts) = IsShort t × AllShort ts

module _ (t : Told) (s : IsShort t) where
  payload_no_nul : has 0 (delivery_text t.room t.sender t.text) ≡ false
  unfolding delivery_text
  payload_no_nul =
      has-three 0 _ _ _ refl s.room_plain.no_nul s.sender_plain.no_nul s.text_plain.no_nul

  message_text_no_nul : has 0 (message_text (message_of t)) ≡ false
  unfolding message_text str_eq has
  message_text_no_nul =
      has-append_false 0 (delivery_text t.room t.sender t.text) (b'\n' ∷ []) payload_no_nul refl

  message_of-short : too_long (message_of t) ≡ false
  message_of-short = ground (
    arith,
    s.fits,
    length_delivery (delivery_text t.room t.sender t.text),
    c_str_whole (delivery_text t.room t.sender t.text) payload_no_nul,
  )

  bytes_of-message_of : bytes_of (message_of t) ≡ message_text (message_of t)
  bytes_of-message_of =
      rw (bytes_of, message_of-short)
        (c_str_whole (message_text (message_of t)) message_text_no_nul)

module _ (cs : Csapp) (doc : Documented cs) where
  open doc use {incoming, outgoing}

  pub record Shows (ts : List Told) (rest : Str) (c : Client cs) : Type 0 where
    pub after : Client cs
    pub returns : print_loop cs (length ts) c ≡ done after
    pub out : after.out ≡ c.out ++ shown_all ts
    pub errors : after.errors ≡ c.errors
    pub unread : incoming after.conn.m_fdbuf after.net ≡ rest
    pub silent : (fd : ℤ) → outgoing fd after.net ≡ outgoing fd c.net

  -- While the descriptors work as documented, let the next bytes that arrive at a receiving client
  -- be those that `chat_with_receiver` writes for a sequence of broadcasts, as its loop is shown to
  -- do for what waits in a queue. In each broadcast the room, the sender and the text, cut at their
  -- newlines, hold no colon, newline or NUL, and the line has less than 255 bytes. Then as many
  -- rounds of the client's loop as there are broadcasts succeed, print `sender: text` with one
  -- newline behind it for each broadcast, in order, and nothing else, and take exactly those bytes
  -- off the input.
  pub print_loop-Shows :
      (ts : List Told) (rest : Str) (c : Client cs)
      → AllShort ts
      → incoming c.conn.m_fdbuf c.net ≡ bytes_of_all (map message_of ts) ++ rest
      → Shows ts rest c
  unfolding print_loop
  print_loop-Shows [] rest c all arrives = record {
    after = c;
    returns = refl;
    out = simp append-nil;
    errors = refl;
    unread = arrives;
    silent = λ fd. refl;
  }
  print_loop-Shows (t ∷ ts) rest c all arrives =
      let behind = bytes_of_all (map message_of ts) ++ rest in
      let first =
        print_round-Prints cs doc t.room t.sender t.text behind c
          (arrives
            ∙ append_assoc (bytes_of (message_of t)) (bytes_of_all (map message_of ts)) rest
            ∙ ap (λ b. b ++ behind) (bytes_of-message_of t all.0))
          all.0.room_plain all.0.sender_plain all.0.text_plain all.0.fits in
      let others = print_loop-Shows ts rest first.after all.1 first.unread in
      record {
        after = others.after;
        returns = rw first.returns others.returns;
        out =
            others.out
            ∙ ap (λ o. o ++ shown_all ts) first.out
            ∙ append_assoc c.out (shown t) (shown_all ts);
        errors = others.errors ∙ first.errors;
        unread = others.unread;
        silent = λ fd. others.silent fd ∙ first.silent fd;
      }
