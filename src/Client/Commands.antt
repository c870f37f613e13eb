-- ===== src/Client/Commands.antt =====
-- What each line typed makes the sending client do.
use csf_hw.Prelude.{
  ℕ, ◌≡◌, refl, ap, append-nil, ◌∙◌, true, false, not, Bool-cases, inl, inr, [], ◌∷◌, ◌++◌, some,
  none, if◌then◌else◌,
}
use csf_hw.Outcome.{done}
use csf_hw.Text.{Str, codes, str_eq, c_str, has, getline_token, getline_rest}
use csf_hw.Text.Split.{getline_token-append, getline_rest-append}
use csf_hw.Message.{Message, make_message, tag_err, tag_join, tag_leave, tag_quit, tag_sendall}
use csf_hw.Csapp.{Csapp, Documented}
use csf_hw.Connection.{message_text}
use csf_hw.Connection.Send.{too_long}
use csf_hw.Client.{Client, report}
use csf_hw.Client.Sender.{
  find_str, on_join_command, on_leave_command, on_quit_command, on_text, on_command, command_round,
}
use csf_hw.Client.Search.{Lacks, starts_with-append, find_str_here, find_str-none, find_str_found}
use csf_hw.Client.Requests.{Arrives, Exchanges, exchange-Exchanges}

-- The request that a line stands for, and what is printed behind the text of an `err` response.
pub data Typed : Str → Message → Str → Type 0 where
  typed_join : (room : Str) → Typed (codes "/join " ++ room) (make_message tag_join room) []
  typed_leave :
      (before after : Str)
      → Lacks (codes "/join ") (before ++ (codes "/leave" ++ after))
      → Typed (before ++ (codes "/leave" ++ after)) (make_message tag_leave []) (codes "\n")
  typed_quit :
      (before after : Str)
      → Lacks (codes "/join ") (before ++ (codes "/quit" ++ after))
      → Lacks (codes "/leave") (before ++ (codes "/quit" ++ after))
      → Typed (before ++ (codes "/quit" ++ after)) (make_message tag_quit []) (codes "\n")
  typed_text :
      (text : Str)
      → Lacks (codes "/join ") text
      → Lacks (codes "/leave") text
      → Lacks (codes "/quit") text
      → Typed text (make_message tag_sendall text) []

module _ (cs : Csapp) (line : Str) (c : Client cs) where
  command_join :
      (n : ℕ)
      → find_str (codes "/join ") line ≡ some n
      → on_command cs line c ≡ on_join_command cs line n c
  unfolding on_command
  command_join n h = rw (on_command, h) refl

  command_leave :
      (n : ℕ)
      → find_str (codes "/join ") line ≡ none
      → find_str (codes "/leave") line ≡ some n
      → on_command cs line c ≡ on_leave_command cs c
  unfolding on_command
  command_leave n hj h = rw (on_command, hj, h) refl

  command_quit :
      (n : ℕ)
      → find_str (codes "/join ") line ≡ none
      → find_str (codes "/leave") line ≡ none
      → find_str (codes "/quit") line ≡ some n
      → on_command cs line c ≡ on_quit_command cs c
  unfolding on_command
  command_quit n hj hl h = rw (on_command, hj, hl, h) refl

  command_text :
      find_str (codes "/join ") line ≡ none
      → find_str (codes "/leave") line ≡ none
      → find_str (codes "/quit") line ≡ none
      → on_command cs line c ≡ on_text cs line c
  unfolding on_command
  command_text hj hl h = rw (on_command, hj, hl, h) refl

module _ (cs : Csapp) (doc : Documented cs) where
  open doc use {outgoing, incoming}

  -- What one line does, with `msg` the request and `behind` what is printed behind an error.
  pub record Obeys (msg : Message) (behind tag field rest : Str) (c after : Client cs)
      : Type 0 where
    pub fd : after.conn.m_fd ≡ c.conn.m_fd
    pub written :
        outgoing c.conn.m_fd after.net ≡ outgoing c.conn.m_fd c.net ++ c_str (message_text msg)
    pub unread : incoming after.conn.m_fdbuf after.net ≡ rest
    pub stdin : after.stdin ≡ c.stdin
    pub errors : after.errors ≡ (
        if str_eq tag tag_err
        then c.errors ++ (c_str (field ++ b'\n' ∷ []) ++ behind)
        else c.errors)

  report-Obeys :
      (e₁ e₂ behind tag field rest : Str) (msg : Message) (c : Client cs)
      (x : Exchanges cs doc e₁ e₂ msg (make_message tag (field ++ b'\n' ∷ [])) rest c)
      → Obeys msg behind tag field rest c
          (report cs behind (make_message tag (field ++ b'\n' ∷ [])) x.after)
  unfolding report
  report-Obeys e₁ e₂ behind tag field rest msg c x = elim (Bool-cases (str_eq tag tag_err)) [
    | inl failed ↦ rw failed (record {
      fd = x.fd;
      written = x.written;
      unread = x.unread;
      stdin = x.stdin;
      errors = rw (failed, x.errors) refl;
    })
    | inr fine ↦ rw fine (record {
      fd = x.fd;
      written = x.written;
      unread = x.unread;
      stdin = x.stdin;
      errors = rw (fine, x.errors) refl;
    })
  ]

  on_command-Obeys :
      (line behind tag field rest : Str) (msg : Message) (c : Client cs)
      → Typed line msg behind
      → too_long msg ≡ false
      → Arrives cs doc tag field rest c
      → (after : Client cs) × (on_command cs line c ≡ done (not (str_eq msg.tag tag_quit), after))
        × Obeys msg behind tag field rest c after
  unfolding on_join_command on_leave_command on_quit_command on_text str_eq
  on_command-Obeys line behind tag field rest msg c (typed_join room) short a =
      let x =
        exchange-Exchanges cs doc (codes "Sending join not successful.\n")
          (codes "Receiving join not successful.\n") msg tag field rest c short a in
      (
        _,
        command_join cs line c 0
              (find_str_here (codes "/join ") line (starts_with-append (codes "/join ") room))
            ∙ rw x.returns refl,
        report-Obeys _ _ _ _ _ _ _ _ x,
      )
  on_command-Obeys line behind tag field rest msg c (typed_leave before after lj) short a =
      let x =
        exchange-Exchanges cs doc (codes "Sending leave not successful.\n")
          (codes "Receiving after leave not successful.\n") msg tag field rest c short a in
      (
        _,
        command_leave cs line c _ (find_str-none _ _ lj)
              (find_str_found (codes "/leave") before after).1
            ∙ rw x.returns refl,
        report-Obeys _ _ _ _ _ _ _ _ x,
      )
  on_command-Obeys line behind tag field rest msg c (typed_quit before after lj ll) short a =
      let x =
        exchange-Exchanges cs doc (codes "Sending quit not successful.\n")
          (codes "Receiving after quit not successful.\n") msg tag field rest c short a in
      (
        _,
        command_quit cs line c _ (find_str-none _ _ lj) (find_str-none _ _ ll)
              (find_str_found (codes "/quit") before after).1
            ∙ rw x.returns refl,
        report-Obeys _ _ _ _ _ _ _ _ x,
      )
  on_command-Obeys line behind tag field rest msg c (typed_text text lj ll lq) short a =
      let x =
        exchange-Exchanges cs doc (codes "Sending sendall not successful.\n")
          (codes "Receiving after sendall not successful.\n") msg tag field rest c short a in
      (
        _,
        command_text cs line c (find_str-none _ _ lj) (find_str-none _ _ ll) (find_str-none _ _ lq)
            ∙ rw x.returns refl,
        report-Obeys _ _ _ _ _ _ _ _ x,
      )

  Arrives-stdin :
      (tag field rest stdin : Str) (c : Client cs)
      → Arrives cs doc tag field rest c
      → Arrives cs doc tag field rest (record c { stdin = stdin })
  Arrives-stdin tag field rest stdin c a = record {
    arrives = a.arrives;
    tag_plain = a.tag_plain;
    field_plain = a.field_plain;
    no_delivery = a.no_delivery;
    fits = a.fits;
  }

  -- While the descriptors work as documented, let the next line typed at a sending client stand for
  -- a request as in the independent table `Typed`: `/join ` in front joins, else `/leave` anywhere
  -- leaves, else `/quit` anywhere quits, and any other text is sent to all. The request's data has
  -- at most 255 bytes, and the next line to arrive is a response `tag:field`, both free of colons,
  -- newlines and NULs, the tag not `delivery`, at most 254 bytes. Then one round succeeds, takes
  -- exactly that typed line and that response, writes exactly the request, prints the response's
  -- data on the error stream exactly if the tag is `err`, and ends the loop exactly on a quit.
  pub command_round-Obeys :
      (line behind more tag field rest : Str) (msg : Message) (c : Client cs)
      → c.stdin ≡ line ++ b'\n' ∷ more
      → has b'\n' line ≡ false
      → Typed line msg behind
      → too_long msg ≡ false
      → Arrives cs doc tag field rest c
      → (after : Client cs) × (command_round cs c ≡ done (not (str_eq msg.tag tag_quit), after))
        × Obeys msg behind tag field rest (record c { stdin = more }) after
  unfolding command_round
  command_round-Obeys line behind more tag field rest msg c typed one_line t short a =
      rw
        (
          typed,
          getline_token-append b'\n' line more one_line,
          getline_rest-append b'\n' line more one_line,
        )
        (on_command-Obeys line behind tag field rest msg (record c { stdin = more }) t short
          (Arrives-stdin tag field rest more c a))

  Lacks-nil : (x : ℕ) (sub : Str) → Lacks (x ∷ sub) []
  Lacks-nil x sub [] after e = cc
  Lacks-nil x sub (c ∷ before) after e = cc

  -- While the descriptors work as documented, at the end of what is typed let a response
  -- `tag:field` arrive, both free of colons, newlines and NULs, the tag not `delivery`, at most 254
  -- bytes. Then a round of the sending client writes exactly an empty `sendall`, takes exactly that
  -- response off the input, prints its data on the error stream exactly if the tag is `err`, and
  -- asks for another round, again at the end of what is typed.
  pub command_round_eof :
      (tag field rest : Str) (c : Client cs)
      → c.stdin ≡ []
      → Arrives cs doc tag field rest c
      → (after : Client cs) × (command_round cs c ≡ done (true, after))
        × (after.stdin ≡ [])
        × (outgoing c.conn.m_fd after.net ≡ outgoing c.conn.m_fd c.net ++ codes "sendall:\n")
        × (incoming after.conn.m_fdbuf after.net ≡ rest)
        × (after.errors
            ≡ (if str_eq tag tag_err then c.errors ++ c_str (field ++ b'\n' ∷ []) else c.errors))
  unfolding command_round getline_token getline_rest str_eq message_text c_str
  command_round_eof tag field rest c ended a =
      let (after, returns, o) =
        on_command-Obeys [] [] tag field rest (make_message tag_sendall [])
          (record c { stdin = [] })
          (typed_text [] (Lacks-nil b'/' (codes "join ")) (Lacks-nil b'/' (codes "leave"))
            (Lacks-nil b'/' (codes "quit")))
          refl (Arrives-stdin tag field rest [] c a) in
      (
        after,
        rw ended returns,
        o.stdin,
        o.written,
        o.unread,
        o.errors
            ∙ ap (λ t. if str_eq tag tag_err then c.errors ++ t else c.errors) (simp append-nil),
      )
