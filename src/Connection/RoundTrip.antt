-- ===== src/Connection/RoundTrip.antt =====
-- A message that one end sends is what the other end receives.
use csf_hw.Prelude.{
  ◌+◌, ◌≤◌, ◌<◌, ◌≡◌, refl, ap, ◌∙◌, false, ◌||◌, [], ◌∷◌, ◌++◌, length, length-append, drop,
  drop-length_append, arith, append_assoc, if◌then◌else◌,
}
use csf_hw.Text.{Str, codes, str_eq, has, c_str}
use csf_hw.Text.Equality.{has-append_false, c_str_whole}
use csf_hw.Message.{Message, max_len, tag_delivery, tag_quit, tag_leave}
use csf_hw.Csapp.{Csapp, Documented}
use csf_hw.Connection.Fields.{IsPlain}
use csf_hw.Connection.Send.{send-Sends, too_long}
use csf_hw.Connection.Receive.{Receives, receive_line}
use csf_hw.Connection.{Connection, message_text, send}

-- The data that goes over the wire: `quit` and `leave` always say `bye`.
abbrev pub wire_field : Message → Str
wire_field msg =
    if str_eq msg.tag tag_quit || str_eq msg.tag tag_leave then codes "bye" else msg.payload

pub message_text_lem :
    (msg : Message) → message_text msg ≡ msg.tag ++ (b':' ∷ (wire_field msg ++ b'\n' ∷ []))
unfolding message_text
message_text_lem msg = ground arith

wire_field-IsPlain : (msg : Message) → IsPlain msg.payload → IsPlain (wire_field msg)
unfolding has
wire_field-IsPlain msg p = ground arith

pub message_text-c_str :
    (msg : Message)
    → IsPlain msg.tag
    → IsPlain msg.payload
    → c_str (message_text msg) ≡ message_text msg
unfolding has
message_text-c_str msg pt pp = c_str_whole (message_text msg) (
    rw (message_text_lem msg) (
      has-append_false 0 msg.tag _ pt.no_nul
        (has-append_false 0 (wire_field msg) (b'\n' ∷ []) (wire_field-IsPlain msg pp).no_nul refl)))

pub line-append :
    (tag field rest : Str)
    → (tag ++ (b':' ∷ (field ++ b'\n' ∷ []))) ++ rest ≡ tag ++ (b':' ∷ (field ++ b'\n' ∷ rest))
line-append tag field rest = simp append_assoc

pub length_line :
    (tag field : Str)
    → length (tag ++ (b':' ∷ (field ++ b'\n' ∷ []))) ≡ length tag + length field + 2
length_line tag field =
    omega
      (arith, length-append tag (b':' ∷ (field ++ b'\n' ∷ [])), length-append field (b'\n' ∷ []))

module _ (cs : Csapp) (doc : Documented cs) where
  open doc use {outgoing, incoming}

  -- What `send` on `a` writes.
  abbrev pub written : Connection cs → Message → cs.Net → Str
  written a msg net = drop (length (outgoing a.m_fd net)) (outgoing a.m_fd (send cs a msg net).net)

  pub written_lem :
      (a : Connection cs) (msg : Message) (net : cs.Net)
      → IsPlain msg.tag
      → IsPlain msg.payload
      → length msg.payload ≤ max_len
      → written a msg net ≡ msg.tag ++ (b':' ∷ (wire_field msg ++ b'\n' ∷ []))
  written_lem a msg net pt pp short =
      rw ((send-Sends cs doc a msg net).outgoing_lem, not_long)
        (drop-length_append (outgoing a.m_fd net) _
          ∙ message_text-c_str msg pt pp
          ∙ message_text_lem msg)
    where
      not_long : too_long msg ≡ false
      not_long = ground (arith, c_str_whole msg.payload pp.no_nul)

  -- While the descriptors work as documented, if what `send` on one end writes for a message
  -- arrives at the other end, followed by any rest, then `receive` there succeeds with the tag of
  -- the message and its data (`bye` for `quit` and `leave`) with a newline behind it, and the rest
  -- stays unread. The tag and the data hold no colon, newline or NUL, the tag is not `delivery`,
  -- the data has at most 255 bytes, and the whole line less than 255.
  pub send-receive :
      (a b : Connection cs) (sender receiver : cs.Net) (msg old : Message) (rest : Str)
      → IsPlain msg.tag
      → IsPlain msg.payload
      → str_eq msg.tag tag_delivery ≡ false
      → length msg.payload ≤ max_len
      → length (message_text msg) < max_len
      → incoming b.m_fdbuf receiver ≡ written a msg sender ++ rest
      → Receives cs doc b receiver old
          (record { tag = msg.tag; payload = wire_field msg ++ b'\n' ∷ [] })
          rest
  send-receive a b sender receiver msg old rest pt pp nd small short arrives =
      receive_line cs doc b receiver msg.tag (wire_field msg) rest old
        (arrives
          ∙ (ap (λ s. s ++ rest) (written_lem a msg sender pt pp small)
              ∙ line-append msg.tag (wire_field msg) rest))
        pt (wire_field-IsPlain msg pp) nd
        (omega (arith, ap length (message_text_lem msg), length_line msg.tag (wire_field msg)))
