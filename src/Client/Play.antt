-- ===== src/Client/Play.antt =====
-- A whole session of the sending client: what is typed up to `/quit`, and what the server answers.
pub mod Loop
use csf_hw.Prelude.{
  ℕ, suc, ◌≢◌, ◌⊎◌, inl, inr, ◌+◌, ◌≡◌, refl, sym, ap, ◌∙◌, Bool, true, false, not, ◌||◌, List, [],
  ◌∷◌, ◌++◌, map, length, append-nil, append_assoc, arith, if◌then◌else◌,
}
use csf_hw.Outcome.{done}
use csf_hw.Text.{Str, codes, str_eq, has, c_str}
use csf_hw.Text.Equality.{str_eq_iff, c_str_whole, has-append_false}
use csf_hw.Message.{Message, tag_err, tag_quit, tag_leave}
use csf_hw.Csapp.{Csapp, Documented}
use csf_hw.Connection.{message_text}
use csf_hw.Connection.Send.{too_long}
use csf_hw.Connection.Fields.{IsPlain}
use csf_hw.Server.Session.Requests.{response_to, inside_after, held_after}
use csf_hw.Server.Script.{Line, request, bytes, answers, IsLine, IsScript, quits, goes_on}
use csf_hw.Client.{Client}
use csf_hw.Client.Sender.{command_round, command_loop}
use csf_hw.Client.Requests.{Arrives}
use csf_hw.Client.Commands.{
  Typed, typed_join, typed_leave, typed_quit, typed_text, command_round-Obeys,
}

-- A line typed, the request that it stands for, and what is printed behind an error's text.
pub record Command : Type 0 where
  pub typed : Str
  pub msg : Message
  pub behind : Str

-- The line that is sent for a request: `send` writes `bye` as the data of `leave` and of `quit`.
abbrev pub sent_line : Message → Line
sent_line msg = record {
  tag = msg.tag;
  field = if str_eq msg.tag tag_quit || str_eq msg.tag tag_leave then codes "bye" else msg.payload;
}

abbrev pub lines_of : List Command → List Line
lines_of cmds = map (λ (c : Command). sent_line c.msg) cmds

abbrev pub typed_all : List Command → Str → Str
typed_all [] more = more
typed_all (c ∷ cmds) more = c.typed ++ b'\n' ∷ typed_all cmds more

-- The errors that are printed, from whether the user is in a room on.
abbrev pub complaint : Command → Bool → Str
complaint c inside =
    let response = response_to (request (sent_line c.msg)) inside in
    if str_eq response.tag tag_err then response.payload ++ b'\n' ∷ c.behind else []

abbrev pub complaints : List Command → Bool → Str
complaints [] inside = []
complaints (c ∷ cmds) inside =
    complaint c inside ++ complaints cmds (inside_after (request (sent_line c.msg)) inside)

pub record IsCommand (c : Command) : Type 0 where
  pub one_line : has b'\n' c.typed ≡ false
  pub stands_for : Typed c.typed c.msg c.behind

abbrev pub AllCommands : List Command → Type 0
AllCommands [] = Unit
AllCommands (c ∷ cmds) = IsCommand c × AllCommands cmds

response-IsPlain : (msg : Message) (inside : Bool) → IsPlain (response_to msg inside).payload
unfolding has
response-IsPlain msg inside = record {
  no_colon = ground arith;
  no_newline = ground arith;
  no_nul = ground arith;
}

response_tag-IsPlain : (msg : Message) (inside : Bool) → IsPlain (response_to msg inside).tag
unfolding has
response_tag-IsPlain msg inside = record {
  no_colon = ground arith;
  no_newline = ground arith;
  no_nul = ground arith;
}

response-message_text :
    (msg : Message) (inside : Bool) (rest : Str)
    → message_text (response_to msg inside) ++ rest
      ≡ (response_to msg inside).tag ++ (b':' ∷ ((response_to msg inside).payload ++ b'\n' ∷ rest))
unfolding message_text str_eq
response-message_text msg inside rest = ground arith

short_lem :
    (line behind : Str) (msg : Message)
    → Typed line msg behind
    → IsLine (sent_line msg)
    → too_long msg ≡ false
unfolding str_eq c_str
short_lem _ behind _ (typed_join room) l =
    ground (arith, l.fits, c_str_whole room l.field_plain.no_nul)
short_lem _ behind _ (typed_leave before after h) l = ground arith
short_lem _ behind _ (typed_quit before after h k) l = ground arith
short_lem _ behind _ (typed_text text h k m) l =
    ground (arith, l.fits, c_str_whole text l.field_plain.no_nul)

unfoldable pub line_text : Line → Str
line_text line = line.tag ++ (b':' ∷ (line.field ++ b'\n' ∷ []))

line_text_whole : (line : Line) → IsLine line → c_str (line_text line) ≡ line_text line
unfolding has line_text
line_text_whole line l = c_str_whole (line_text line) (
    has-append_false 0 line.tag _ l.tag_plain.no_nul
      (has-append_false 0 line.field (b'\n' ∷ []) l.field_plain.no_nul refl))

message_text_lem : (msg : Message) → message_text msg ≡ line_text (sent_line msg)
unfolding message_text line_text
message_text_lem msg = ground arith

pub sent_lem :
    (msg : Message) → IsLine (sent_line msg) → c_str (message_text msg) ≡ line_text (sent_line msg)
sent_lem msg l = ap c_str (message_text_lem msg) ∙ line_text_whole (sent_line msg) l

bytes_lem :
    (line : Line) (lines : List Line) → bytes (line ∷ lines) [] ≡ line_text line ++ bytes lines []
unfolding line_text
bytes_lem line lines = simp append_assoc

complaint_lem :
    (failed : Bool) (errors payload behind : Str)
    → has 0 payload ≡ false
    → (if failed then errors ++ (c_str (payload ++ b'\n' ∷ []) ++ behind) else errors)
      ≡ errors ++ (if failed then payload ++ b'\n' ∷ behind else [])
unfolding has
complaint_lem true errors payload behind h =
    ap (λ p. errors ++ (p ++ behind))
      (c_str_whole (payload ++ b'\n' ∷ []) (has-append_false 0 payload (b'\n' ∷ []) h refl))
    ∙ ap (λ p. errors ++ p) (append_assoc payload (b'\n' ∷ []) behind)
complaint_lem false errors payload behind h = sym (append-nil errors)

IsScript-line :
    {held : Bool} {line : Line} {lines : List Line} → IsScript held (line ∷ lines) → IsLine line
IsScript-line (quits line l q) = l
IsScript-line (goes_on line l no_quit may script) = l

-- Either the script ends here with `quit`, or it goes on without.
IsScript-cases :
    {held : Bool} {line : Line} {lines : List Line}
    → IsScript held (line ∷ lines)
    → ((str_eq line.tag tag_quit ≡ true) × (lines ≡ []))
      ⊎ ((str_eq line.tag tag_quit ≡ false) × IsScript (held_after (request line) held) lines)
IsScript-cases (quits line l q) = inl ((str_eq_iff line.tag tag_quit).1 q, refl)
IsScript-cases (goes_on line l no_quit may script) = inr (no_quit, script)

IsScript-nil : {held : Bool} {lines : List Line} → IsScript held lines → lines ≢ []
IsScript-nil (quits line l q) e = cc
IsScript-nil (goes_on line l no_quit may script) e = cc

lines_of-nil : (cmds : List Command) → lines_of cmds ≡ [] → cmds ≡ []
lines_of-nil [] e = refl
lines_of-nil (c ∷ cmds) e = cc
