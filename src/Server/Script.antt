-- ===== src/Server/Script.antt =====
-- A whole session of a sender: a script of requests up to `quit`, answered line by line.
use csf_hw.Prelude.{
  ℕ, suc, ◌+◌, ◌≤◌, ◌≡◌, refl, sym, ap, ◌∙◌, ◌≢◌, Bool, true, false, List, [], ◌∷◌, ◌++◌, none,
  Option, some, length, is_neg, append_assoc, append-nil, arith,
}
use csf_hw.Outcome.{done}
use csf_hw.Text.{Str, str_eq}
use csf_hw.Text.Equality.{str_eq_iff}
use csf_hw.Message.{Message, make_message, max_len, tag_quit, tag_leave, tag_delivery}
use csf_hw.Csapp.{Csapp, Documented}
use csf_hw.Connection.{is_open, message_text}
use csf_hw.Connection.Fields.{IsPlain}
use csf_hw.Server.Chat.{Chat, sender_loop}
use csf_hw.Server.Session.{in_room, InSession}
use csf_hw.Server.Session.Requests.{response_to, inside_after, held_after, is_held}
use csf_hw.Server.Replies.{sender_round-Answers}

-- One line that the sender types: its tag and its field.
pub record Line : Type 0 where
  pub tag : Str
  pub field : Str

abbrev pub request : Line → Message
request line = make_message line.tag (line.field ++ b'\n' ∷ [])

-- The bytes of a script, with `rest` behind them.
abbrev pub bytes : List Line → Str → Str
bytes [] rest = rest
bytes (line ∷ lines) rest = line.tag ++ (b':' ∷ (line.field ++ b'\n' ∷ bytes lines rest))

-- The answers owed to a script, from whether the user is in a room on.
abbrev pub answers : List Line → Bool → Str
answers [] inside = []
answers (line ∷ lines) inside =
    message_text (response_to (request line) inside)
    ++ answers lines (inside_after (request line) inside)

pub record IsLine (line : Line) : Type 0 where
  pub tag_plain : IsPlain line.tag
  pub field_plain : IsPlain line.field
  pub no_delivery : str_eq line.tag tag_delivery ≡ false
  pub fits : length line.tag + length line.field + 3 ≤ max_len

-- Lines that fit, no `leave` before the first join, and `quit` exactly at the end.
pub data IsScript : Bool → List Line → Type 0 where
  quits :
      {held : Bool} (line : Line) → IsLine line → line.tag ≡ tag_quit → IsScript held (line ∷ [])
  goes_on :
      {held : Bool} (line : Line) {lines : List Line}
      → IsLine line
      → str_eq line.tag tag_quit ≡ false
      → (line.tag ≡ tag_leave → held ≡ true)
      → IsScript (held_after (request line) held) lines
      → IsScript held (line ∷ lines)

held-some : (room : Option ℕ) → is_held room ≡ true → room ≢ none
held-some none h e = cc
held-some (some r) h e = cc

quit-leave : (tag : Str) → tag ≡ tag_quit → tag ≡ tag_leave → ⊥
quit-leave tag q e = cc

module _ (cs : Csapp) (doc : Documented cs) where
  open doc use {outgoing, incoming}

  -- The loop ends after the script; all answers are written, and the rest stays unread.
  pub record Serves (user : ℕ) (lines : List Line) (rest : Str) (rounds : ℕ) (c : Chat cs)
      : Type 0 where
    pub after : Chat cs
    pub returns : sender_loop cs (length lines + rounds) user c ≡ done after
    pub fd : after.conn.m_fd ≡ c.conn.m_fd
    pub session : InSession user after.room after.store
    pub unread : incoming after.conn.m_fdbuf after.net ≡ rest
    pub written :
        outgoing c.conn.m_fd after.net
        ≡ outgoing c.conn.m_fd c.net ++ answers lines (in_room user c.room c.store)

  -- While the descriptors work as documented and no other thread changes the store, let a sender in
  -- a session on an open connection type a script: lines `tag:field` of at most 254 bytes, both
  -- free of colons, newlines and NULs, no tag `delivery`, no `leave` while no room is held, and
  -- `quit` exactly at the end. Then the loop of `chat_with_sender` returns after as many rounds as
  -- the script has lines, whatever further rounds are allowed; it has written exactly the answers
  -- of the independent automaton `answers`, in order, and has left unread what follows the script,
  -- and the user is still in a session.
  pub sender_loop-Serves :
      (user rounds : ℕ) (lines : List Line) (rest : Str) (c : Chat cs) (held : Bool)
      → InSession user c.room c.store
      → is_neg c.conn.m_fd ≡ false
      → is_held c.room ≡ held
      → IsScript held lines
      → incoming c.conn.m_fdbuf c.net ≡ bytes lines rest
      → Serves user lines rest rounds c
  unfolding sender_loop is_open
  sender_loop-Serves user rounds _ rest c held s opened has_room (quits line l q) arrives =
      let a =
        sender_round-Answers cs doc user line.tag line.field rest c s arrives l.tag_plain
          l.field_plain l.no_delivery l.fits (λ e. absurd (quit-leave line.tag q e)) in
      let quit = (str_eq_iff line.tag tag_quit).1 q in
      record {
        after = a.after;
        returns =
            ap (λ n. sender_loop cs n user c) {x = length (line ∷ []) + rounds} {y = suc rounds}
              (omega arith)
            ∙ rw opened (rw a.returns (rw quit refl));
        fd = a.fd;
        session = a.session;
        unread = a.unread;
        written =
            a.written
            ∙ ap (λ t. outgoing c.conn.m_fd c.net ++ t)
                (sym (
                  append-nil
                    (message_text (response_to (request line) (in_room user c.room c.store)))));
      }
  sender_loop-Serves user rounds _ rest c held s opened has_room
        (goes_on line {lines} l no_quit may script) arrives =
      let a =
        sender_round-Answers cs doc user line.tag line.field (bytes lines rest) c s arrives
          l.tag_plain l.field_plain l.no_delivery l.fits
          (λ e. held-some c.room (has_room ∙ may e)) in
      let d =
        sender_loop-Serves user rounds lines rest a.after (held_after (request line) held) a.session
          (ap is_neg a.fd ∙ opened) (a.held_lem ∙ ap (held_after (request line)) has_room) script
          a.unread in
      record {
        after = d.after;
        returns =
            ap (λ n. sender_loop cs n user c) {x = length (line ∷ lines) + rounds}
              {y = suc (length lines + rounds)} (omega arith)
            ∙ rw opened (rw a.returns (rw no_quit d.returns));
        fd = d.fd ∙ a.fd;
        session = d.session;
        unread = d.unread;
        written =
            rw a.fd at d.written
            ∙ ap (λ b. outgoing c.conn.m_fd a.after.net ++ answers lines b) a.inside_lem
            ∙ ap
                (λ t.
                  t ++ answers lines (inside_after (request line) (in_room user c.room c.store)))
                a.written
            ∙ append_assoc (outgoing c.conn.m_fd c.net) _ _;
      }
