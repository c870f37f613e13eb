-- ===== src/Connection/LongLines.antt =====
-- Lines that are longer than the buffer of `receive`.
use csf_hw.Prelude.{
  ℕ, zero, suc, ◌+◌, ◌-◌, ◌≤◌, ◌<◌, ◌≡◌, refl, sym, ap, ◌∙◌, true, false, [], ◌∷◌, ◌++◌, length,
  length-append, append_assoc, take, drop, arith,
}
use csf_hw.Outcome.{done, ◌>>=◌}
use csf_hw.Text.{Str, str_eq, has}
use csf_hw.Message.{Message, max_len, tag_delivery}
use csf_hw.Text.Equality.{c_str_whole, has-append_false}
use csf_hw.Text.Split.{tokens-field, tokens_last}
use csf_hw.Csapp.{Csapp, ReadLine, Documented}
use csf_hw.Csapp.Lines.{line_head_cut, line_tail_cut}
use csf_hw.Connection.Fields.{IsPlain, parse}
use csf_hw.Connection.Receive.{Receives, stored, received-parse, append-ne-nil}
use csf_hw.Connection.{Connection, divide_data, store_data, receive}

pred-suc : (n : ℕ) → suc n - 1 - 0 ≡ n
pred-suc n = omega arith

sub-suc : (n k : ℕ) → n - 1 - k ≡ suc n - 1 - suc k
sub-suc n k = omega arith

take-eq-cons : (n x : ℕ) (s xs : Str) → take n s ≡ x ∷ xs → 0 < n
take-eq-cons zero x s xs e = cc
take-eq-cons (suc n) x s xs e = omega arith

has-take : (d n : ℕ) (s : Str) → has d s ≡ false → has d (take n s) ≡ false
unfolding has
has-take d zero s h = refl
has-take d (suc n) [] h = refl
has-take d (suc n) (c ∷ s) h = ground (arith, has-take d n s)

parse_cut :
    (tag : Str) (x : ℕ) (xs : Str) (msg : Message)
    → has b':' tag ≡ false
    → has b':' (x ∷ xs) ≡ false
    → str_eq tag tag_delivery ≡ false
    → parse (record msg { payload = tag ++ (b':' ∷ x ∷ xs) })
      ≡ done (true, record { tag = tag; payload = x ∷ xs })
unfolding divide_data store_data
parse_cut tag x xs msg ht hf nd =
    rw (tokens-field b':' tag (x ∷ xs) ht, tokens_last b':' x xs hf, nd)

take-field :
    (n : ℕ) (tag field : Str)
    → length tag < n
    → take n (tag ++ b':' ∷ field) ≡ tag ++ b':' ∷ take (n - 1 - length tag) field
take-field zero tag field h = absurd (omega arith)
take-field (suc n) [] field h = rw (pred-suc n)
take-field (suc n) (c ∷ tag) field h =
    ap (◌∷◌ c) (take-field n tag field (omega arith) ∙ rw (sub-suc n (length tag)))

drop-field :
    (n : ℕ) (tag field : Str)
    → length tag < n
    → drop n (tag ++ b':' ∷ field) ≡ drop (n - 1 - length tag) field
drop-field zero tag field h = absurd (omega arith)
drop-field (suc n) [] field h = rw (pred-suc n)
drop-field (suc n) (c ∷ tag) field h =
    drop-field n tag field (omega arith) ∙ rw (sub-suc n (length tag))

module _ (cs : Csapp) (doc : Documented cs) (c : Connection cs) (net : cs.Net) where
  open doc use {
    outgoing, incoming, readlineb_size, readlineb_shown, readlineb_incoming, readlineb_outgoing,
  }

  -- While the descriptors work as documented, if the next line is `tag:field`, both free of colons,
  -- newlines and NULs, the tag not `delivery`, and it has 255 bytes or more with its newline, and
  -- part of the field is among its first 254 bytes, then `receive` succeeds with only that part of
  -- the field, without a newline, and leaves the rest of the line as the next one.
  pub receive_cut :
      (tag field rest : Str) (old : Message) (x : ℕ) (xs : Str)
      → incoming c.m_fdbuf net ≡ tag ++ (b':' ∷ (field ++ b'\n' ∷ rest))
      → IsPlain tag
      → IsPlain field
      → str_eq tag tag_delivery ≡ false
      → max_len ≤ length tag + length field + 2
      → take (max_len - 2 - length tag) field ≡ x ∷ xs
      → Receives cs doc c net old
          (record { tag = tag; payload = x ∷ xs })
          (drop (max_len - 2 - length tag) field ++ b'\n' ∷ rest)
  unfolding receive has
  receive_cut tag field rest old x xs arrives pt pf nd long some_field = record {
    result = stored cs r c (true, _);
    returns =
        received-parse cs r old c (rw (readlineb_size c.m_fdbuf max_len net))
        ∙ rw shown (
            ap (λ p. p >>= λ q. done (stored cs r c q))
              (parse_cut tag x xs old pt.no_colon (free b':' pf.no_colon) nd));
    ok = refl;
    msg_lem = refl;
    fd = refl;
    last = refl;
    incoming_lem =
        readlineb_incoming c.m_fdbuf max_len net
        ∙ rw split (
            line_tail_cut 254 line (b'\n' ∷ rest) one_line
              (omega (arith, length-append tag (b':' ∷ field)))
            ∙ ap (λ s. s ++ b'\n' ∷ rest) (drop-field 254 tag field room));
    outgoing_lem = readlineb_outgoing c.m_fdbuf max_len net;
  }
    where
      r : ReadLine cs.Rio cs.Net
      r = cs.rio_readlineb c.m_fdbuf max_len net

      room : length tag < 254
      room = omega (arith, take-eq-cons (max_len - 2 - length tag) x field xs some_field)

      free : (d : ℕ) → has d field ≡ false → has d (x ∷ xs) ≡ false
      free d h = rw some_field at (has-take d (max_len - 2 - length tag) field h)

      line : Str
      line = tag ++ b':' ∷ field

      split : incoming c.m_fdbuf net ≡ line ++ b'\n' ∷ rest
      split = arrives ∙ sym (append_assoc tag (b':' ∷ field) (b'\n' ∷ rest))

      one_line : has b'\n' line ≡ false
      one_line = has-append_false b'\n' tag (b':' ∷ field) pt.no_newline pf.no_newline

      shown : r.shown ≡ tag ++ b':' ∷ x ∷ xs
      shown =
          readlineb_shown c.m_fdbuf max_len net (omega arith)
            (rw split (append-ne-nil line rest b'\n'))
          ∙ rw
              (
                split,
                line_head_cut 254 line (b'\n' ∷ rest) one_line
                    (omega (arith, length-append tag (b':' ∷ field))),
              )
              (rw (take-field 254 tag field room, some_field)
                (c_str_whole (tag ++ b':' ∷ x ∷ xs)
                  (has-append_false 0 tag (b':' ∷ x ∷ xs) pt.no_nul (free 0 pf.no_nul))))
