-- ===== src/Client/Follow.antt =====
-- All of receiver.cpp: connecting, login, join, and what is printed.
use csf_hw.Prelude.{
  ℕ, ◌+◌, ◌≤◌, ◌≡◌, refl, ap, ap₂, ◌∙◌, false, List, [], ◌∷◌, ◌++◌, append_assoc, map, length, some,
  ℤ, pos, arith,
}
use csf_hw.Outcome.{done}
use csf_hw.Text.{Str, codes, c_str, str_eq, has}
use csf_hw.Text.Equality.{c_str_whole}
use csf_hw.Text.Decimal.{to_string, in_range, stoi-to_string}
use csf_hw.Message.{make_message, max_len, tag_rlogin, tag_join, tag_ok}
use csf_hw.Csapp.{Csapp, Documented}
use csf_hw.Connection.{message_text}
use csf_hw.Connection.Fields.{IsPlain}
use csf_hw.Server.Draining.{bytes_of_all}
use csf_hw.Server.Entry.{greeting}
use csf_hw.Client.{Client, exit_on_err}
use csf_hw.Client.Receiver.{receiver_main}
use csf_hw.Client.Requests.{Arrives, Exchanges, exchange-Exchanges}
use csf_hw.Client.Play.{line_text, sent_lem}
use csf_hw.Client.Visit.{connected, connect_lem}
use csf_hw.Client.Feed.{Told, message_of, shown_all, AllShort, Shows, print_loop-Shows}

-- The two requests on the wire.
rlogin_lem :
    (name : Str)
    → IsPlain name
    → length name + 9 ≤ max_len
    → c_str (message_text (make_message tag_rlogin name))
      ≡ tag_rlogin ++ (b':' ∷ (name ++ b'\n' ∷ []))
unfolding str_eq has line_text
rlogin_lem name pn fits = sent_lem (make_message tag_rlogin name) (record {
  tag_plain = record { no_colon = refl; no_newline = refl; no_nul = refl };
  field_plain = pn;
  no_delivery = refl;
  fits = omega (arith, fits);
})

join_lem :
    (room : Str)
    → IsPlain room
    → length room + 7 ≤ max_len
    → c_str (message_text (make_message tag_join room)) ≡ tag_join ++ (b':' ∷ (room ++ b'\n' ∷ []))
unfolding str_eq has line_text
join_lem room pr fits = sent_lem (make_message tag_join room) (record {
  tag_plain = record { no_colon = refl; no_newline = refl; no_nul = refl };
  field_plain = pr;
  no_delivery = refl;
  fits = omega (arith, fits);
})

module _ (cs : Csapp) (doc : Documented cs) where
  open doc use {outgoing, incoming}

  -- After as many rounds of the loop as there are broadcasts.
  pub record Follows (program host name room : Str) (port : ℤ) (fd : ℕ) (idle : cs.Rio)
      (net began : cs.Net) (ts : List Told) (rest : Str) : Type 0 where
    pub after : Client cs
    pub returns :
        receiver_main cs (length ts) (program ∷ host ∷ to_string port ∷ name ∷ room ∷ []) idle net
        ≡ done after
    pub written :
        outgoing (pos fd) after.net
        ≡ outgoing (pos fd) began
          ++ ((tag_rlogin ++ (b':' ∷ (name ++ b'\n' ∷ [])))
              ++ (tag_join ++ (b':' ∷ (room ++ b'\n' ∷ []))))
    pub unread : incoming after.conn.m_fdbuf after.net ≡ rest
    pub out : after.out ≡ shown_all ts
    pub errors : after.errors ≡ []

  ok_line :
      (field rest : Str) (c : Client cs)
      → IsPlain field
      → length field + 5 ≤ max_len
      → incoming c.conn.m_fdbuf c.net ≡ tag_ok ++ (b':' ∷ (field ++ b'\n' ∷ rest))
      → Arrives cs doc tag_ok field rest c
  unfolding has str_eq
  ok_line field rest c pf fits arrives = record {
    arrives = arrives;
    tag_plain = record { no_colon = refl; no_newline = refl; no_nul = refl };
    field_plain = pf;
    no_delivery = refl;
    fits = omega (arith, fits);
  }

  -- While the descriptors work as documented, let receiver.cpp be started with a host, the decimal
  -- text of a port that fits an `int`, a name and a room, both free of colons, newlines and NULs
  -- and at most 246 and 248 bytes long, and let connecting give a descriptor. Let there arrive the
  -- greeting for a receiver, the answer to a join, and what `chat_with_receiver` writes for a
  -- sequence of broadcasts as in `print_loop-Shows`. Then `main`, with as many rounds of its loop
  -- as there are broadcasts, writes exactly the login and the join, prints exactly `sender: text`
  -- with one newline behind it for each broadcast, in order, and no error, and takes exactly those
  -- bytes off the input.
  pub receiver_main-Follows :
      (program host name room : Str) (port : ℤ) (fd : ℕ) (idle : cs.Rio) (net began : cs.Net)
      (ts : List Told) (rest : Str)
      → in_range port ≡ some port
      → cs.open_clientfd (c_str host) (c_str (to_string port)) net ≡ (pos fd, began)
      → IsPlain name
      → length name + 9 ≤ max_len
      → IsPlain room
      → length room + 7 ≤ max_len
      → AllShort ts
      → incoming (cs.rio_readinitb (pos fd)) began
        ≡ greeting false
          ++ (codes "ok:Join successful\n" ++ (bytes_of_all (map message_of ts) ++ rest))
      → Follows program host name room port fd idle net began ts rest
  unfolding receiver_main exit_on_err str_eq has
  receiver_main-Follows program host name room port fd idle net began ts rest int opens pn name_fits
        pr room_fits all arrives =
      record {
        after = p.after;
        returns = rw (stoi-to_string port int) (
            rw (connect_lem cs doc _ host [] port fd idle net began opens)
              (rw x.returns (rw y.returns p.returns)));
        written =
            p.silent (pos fd)
            ∙ (rw x.fd at y.written)
            ∙ ap₂ (λ s t. s ++ t)
                (x.written ∙ ap (λ t. outgoing (pos fd) began ++ t) (rlogin_lem name pn name_fits))
                (join_lem room pr room_fits)
            ∙ append_assoc (outgoing (pos fd) began) _ _;
        unread = p.unread;
        out = p.out ∙ ap (λ t. t ++ shown_all ts) (y.out ∙ x.out);
        errors = p.errors ∙ y.errors ∙ x.errors;
      }
    where
      start : Client cs
      start = connected cs doc fd began []

      feed : Str
      feed = bytes_of_all (map message_of ts) ++ rest

      x :
          Exchanges cs doc
            (codes "Send rlogin not successful.\n")
            (codes "Receive from server not successful.\n")
            (make_message tag_rlogin name)
            (make_message tag_ok (codes "Receiver logged in\n"))
            (codes "ok:Join successful\n" ++ feed)
            start
      x =
          exchange-Exchanges cs doc _ _ (make_message tag_rlogin name) tag_ok
            (codes "Receiver logged in") (codes "ok:Join successful\n" ++ feed) start
            (ground (arith, c_str_whole name pn.no_nul))
            (ok_line (codes "Receiver logged in") (codes "ok:Join successful\n" ++ feed) start
              (record { no_colon = refl; no_newline = refl; no_nul = refl }) (omega arith) arrives)

      y :
          Exchanges cs doc
            (codes "join messages not successful.\n")
            (codes "Receive from server not successful.\n")
            (make_message tag_join room)
            (make_message tag_ok (codes "Join successful\n"))
            feed
            x.after
      y =
          exchange-Exchanges cs doc _ _ (make_message tag_join room) tag_ok
            (codes "Join successful") feed x.after (ground (arith, c_str_whole room pr.no_nul))
            (ok_line (codes "Join successful") feed x.after
              (record { no_colon = refl; no_newline = refl; no_nul = refl }) (omega arith) x.unread)

      p : Shows cs doc ts rest y.after
      p = print_loop-Shows cs doc ts rest y.after all y.unread
