-- ===== src/Connection/Faults.antt =====
-- The inputs on which `receive` goes wrong: accesses past its tokens, stale buffers, long lines.
use csf_hw.Prelude.{
  ◌≡◌, refl, ap, ◌∙◌, ◌≢◌, ◌↔◌, inl, inr, true, false, List, [], ◌∷◌, ◌++◌, is_neg, arith,
  Bool-cases,
}
use csf_hw.Outcome.{done, undefined, ◌>>=◌}
use csf_hw.Text.{Str, str_eq, has, tokens}
use csf_hw.Message.{Message, max_len, tag_delivery}
use csf_hw.Csapp.{Csapp, ReadLine, Documented, line_tail}
use csf_hw.Connection.Fields.{parse_line}
use csf_hw.Connection.Receive.{Receives, stored, received-parse}
use csf_hw.Connection.{Connection, divide_data, store_data, received, receive}

-- A text on which `receive` reads past the end of its tokens: it has none, or it is a delivery
-- with two or three.
abbrev pub Overruns : List Str → Type 0
Overruns [] = Unit
Overruns (tag ∷ []) = ⊥
Overruns (tag ∷ room ∷ []) = str_eq tag tag_delivery ≡ true
Overruns (tag ∷ room ∷ sender ∷ []) = str_eq tag tag_delivery ≡ true
Overruns (tag ∷ room ∷ sender ∷ text ∷ more) = ⊥

received_parts :
    (cs : Csapp) (r : ReadLine cs.Rio cs.Net) (old : Message) (c : Connection cs)
    (fields : List Str)
    → is_neg r.size ≡ false
    → tokens b':' r.shown ≡ fields
    → (received cs r old c ≡ undefined) ↔ Overruns fields
unfolding received divide_data store_data
received_parts cs r old c [] h e = ground arith
received_parts cs r old c (tag ∷ []) h e = ground arith
received_parts cs r old c (tag ∷ room ∷ []) h e = ground arith
received_parts cs r old c (tag ∷ room ∷ sender ∷ []) h e = ground arith
received_parts cs r old c (tag ∷ room ∷ sender ∷ text ∷ more) h e = ground arith

received_failed :
    (cs : Csapp) (r : ReadLine cs.Rio cs.Net) (old : Message) (c : Connection cs)
    → is_neg r.size ≡ true
    → received cs r old c ≢ undefined
unfolding received
received_failed cs r old c h = ground arith

-- `receive` is undefined behaviour exactly if `rio_readlineb` reports no error and the text then in
-- the buffer has no token at all, or has two or three and the first is `delivery`.
pub receive-undefined_iff :
    (cs : Csapp) (c : Connection cs) (old : Message) (net : cs.Net)
    → let r = cs.rio_readlineb c.m_fdbuf max_len net in
      (receive cs c old net ≡ undefined)
      ↔ ((is_neg r.size ≡ false) × Overruns (tokens b':' r.shown))
unfolding receive
receive-undefined_iff cs c old net = (to, from)
  where
    r : ReadLine cs.Rio cs.Net
    r = cs.rio_readlineb c.m_fdbuf max_len net

    to : received cs r old c ≡ undefined → (is_neg r.size ≡ false) × Overruns (tokens b':' r.shown)
    to e = elim (Bool-cases (is_neg r.size)) [
      | inl failed ↦ absurd (received_failed cs r old c failed e)
      | inr read ↦ (read, (received_parts cs r old c _ read refl).0 e)
    ]

    from :
        (is_neg r.size ≡ false) × Overruns (tokens b':' r.shown) → received cs r old c ≡ undefined
    from (read, over) = (received_parts cs r old c _ read refl).1 over

module _ (cs : Csapp) (doc : Documented cs) (c : Connection cs) (net : cs.Net) where
  open doc use {
    outgoing, incoming, readlineb_size, readlineb_shown, readlineb_incoming, readlineb_outgoing,
  }

  -- While the descriptors work as documented, if the input has ended and the unwritten buffer still
  -- shows a line `tag:field`, both free of colons and the tag not `delivery`, then `receive`
  -- reports success with that message, although nothing has arrived.
  pub receive_stale :
      (tag field : Str) (old : Message)
      → incoming c.m_fdbuf net ≡ []
      → (cs.rio_readlineb c.m_fdbuf max_len net).shown ≡ tag ++ (b':' ∷ (field ++ b'\n' ∷ []))
      → has b':' tag ≡ false
      → has b':' field ≡ false
      → str_eq tag tag_delivery ≡ false
      → Receives cs doc c net old (record { tag = tag; payload = field ++ b'\n' ∷ [] }) []
  unfolding receive line_tail
  receive_stale tag field old ended stale pt pf nd = record {
    result = stored cs r c (true, _);
    returns =
        received-parse cs r old c (rw (readlineb_size c.m_fdbuf max_len net))
        ∙ rw stale
            (ap (λ p. p >>= λ q. done (stored cs r c q)) (parse_line tag field old pt pf nd));
    ok = refl;
    msg_lem = refl;
    fd = refl;
    last = refl;
    incoming_lem = readlineb_incoming c.m_fdbuf max_len net ∙ rw ended;
    outgoing_lem = readlineb_outgoing c.m_fdbuf max_len net;
  }
    where
      r : ReadLine cs.Rio cs.Net
      r = cs.rio_readlineb c.m_fdbuf max_len net
