-- ===== src/Connection/Deliveries.antt =====
-- A delivery on the wire: a line of four fields, three of which become the data.
use csf_hw.Prelude.{
  ℕ, false, true, ap, ◌==◌, ◌+◌, ◌≤◌, ◌≡◌, refl, sym, ◌∙◌, [], ◌∷◌, ◌++◌, length, arith,
  append_assoc,
}
use csf_hw.Outcome.{done}
use csf_hw.Text.{Str, has, str_eq, tokens}
use csf_hw.Text.Equality.{has-append}
use csf_hw.Text.Split.{tokens-field}
use csf_hw.Message.{Message, make_message, max_len, tag_delivery}
use csf_hw.Csapp.{Csapp, Documented}
use csf_hw.Connection.Fields.{IsPlain, parse, tokens_line}
use csf_hw.Connection.Receive.{Receives, receive_parsed}
use csf_hw.Connection.{Connection, divide_data, store_data}

-- Three fields, as the server joins them.
abbrev pub three : Str → Str → Str → Str
three room sender text = room ++ (b':' ∷ (sender ++ b':' ∷ text))

pub tokens-three :
    (room sender text : Str)
    → IsPlain room
    → IsPlain sender
    → IsPlain text
    → tokens b':' (three room sender (text ++ b'\n' ∷ []))
      ≡ room ∷ sender ∷ (text ++ b'\n' ∷ []) ∷ []
tokens-three room sender text pr ps pt = rw (
  tokens-field b':' room (sender ++ b':' ∷ (text ++ b'\n' ∷ [])) pr.no_colon,
  tokens-field b':' sender (text ++ b'\n' ∷ []) ps.no_colon,
  tokens_line text pt.no_colon,
)

parse_delivery :
    (room sender text : Str) (msg : Message)
    → IsPlain room
    → IsPlain sender
    → IsPlain text
    → parse (record msg { payload = tag_delivery ++ b':' ∷ three room sender (text ++ b'\n' ∷ []) })
      ≡ done (true, make_message tag_delivery (three room sender (text ++ b'\n' ∷ [])))
unfolding divide_data store_data str_eq has
parse_delivery room sender text msg pr ps pt = rw (
  tokens-field b':' tag_delivery (three room sender (text ++ b'\n' ∷ [])) refl,
  tokens-three room sender text pr ps pt,
)

pub three-append :
    (room sender text s : Str) → three room sender text ++ s ≡ three room sender (text ++ s)
three-append room sender text s = simp append_assoc

pub has-three :
    (d : ℕ) (room sender text : Str)
    → (d == b':') ≡ false
    → has d room ≡ false
    → has d sender ≡ false
    → has d text ≡ false
    → has d (three room sender text) ≡ false
unfolding has
has-three d room sender text hd hr hs ht =
    ground
      (arith, has-append d room (b':' ∷ (sender ++ b':' ∷ text)), has-append d sender (b':' ∷ text))

module _ (cs : Csapp) (doc : Documented cs) (c : Connection cs) (net : cs.Net) where
  open doc use {incoming}

  pub receive_delivery :
      (room sender text rest : Str) (old : Message)
      → incoming c.m_fdbuf net ≡ tag_delivery ++ b':' ∷ three room sender (text ++ b'\n' ∷ rest)
      → IsPlain room
      → IsPlain sender
      → IsPlain text
      → length (three room sender text) + 11 ≤ max_len
      → Receives cs doc c net old
          (make_message tag_delivery (three room sender (text ++ b'\n' ∷ [])))
          rest
  unfolding has
  receive_delivery room sender text rest old arrives pr ps pt fits =
      receive_parsed cs doc c net (tag_delivery ++ b':' ∷ three room sender text) rest
        (arrives
          ∙ ap (λ s. tag_delivery ++ b':' ∷ s) (sym (three-append room sender text (b'\n' ∷ rest))))
        (has-three b'\n' room sender text refl pr.no_newline ps.no_newline pt.no_newline)
        (omega (arith, fits)) old _
        (has-three 0 room sender text refl pr.no_nul ps.no_nul pt.no_nul)
        (rw (three-append room sender text (b'\n' ∷ []))
          (parse_delivery room sender text old pr ps pt))
