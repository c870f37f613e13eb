-- ===== src/Client.antt =====
-- What sender.cpp and receiver.cpp share: connecting, and a request with its response.
pub mod Sender
pub mod Receiver
pub mod Trim
pub mod Split
pub mod Trimmed
pub mod Printing
pub mod Feed
pub mod Requests
pub mod Search
pub mod Commands
pub mod Play
pub mod Visit
pub mod Follow
use csf_hw.Prelude.{[], not, ◌++◌, ℤ, if◌then◌else◌}
use csf_hw.Outcome.{Outcome, done, exited, ◌>>=◌}
use csf_hw.Text.{Str, c_str, str_eq}
use csf_hw.Message.{Message, empty_message, tag_err}
use csf_hw.Csapp.{Csapp}
use csf_hw.Connection.{Connection, unconnected, connect, is_open, send, receive}

module _ (cs : Csapp) where
  -- `stdin` is what the user has yet to type, `out` and `errors` what was printed.
  pub record Client : Type 0 where
    pub conn : Connection cs
    pub net : cs.Net
    pub stdin : Str
    pub out : Str
    pub errors : Str

module _ (cs : Csapp) where
  -- The start of `main`; `idle` is the read buffer of the connection before it is initialised.
  unfoldable pub new_client : cs.Rio → cs.Net → Str → Client cs
  new_client idle net stdin = record {
    conn = unconnected cs idle;
    net = net;
    stdin = stdin;
    out = [];
    errors = [];
  }

  unfoldable pub give_up {ℓ} : {A : Type ℓ} → Str → Client cs → Outcome A
  give_up text c = exited 1 (c.errors ++ text)

  -- `Connection conn; conn.connect (server_hostname, server_port);` and the test behind it.
  unfoldable pub connect_client : Str → Str → ℤ → Client cs → Outcome (Client cs)
  connect_client error hostname port c =
      let (conn, net) = connect cs hostname port c.conn c.net in
      let c' = record c { conn = conn; net = net } in
      if not (is_open cs conn) then give_up error c' else done c'

  -- A request is sent and its response received: the same code, with other texts, stands around
  -- every request of both clients.
  unfoldable pub exchange : Str → Str → Message → Client cs → Outcome (Message × Client cs)
  exchange send_error receive_error msg c =
      let sent = send cs c.conn msg c.net in
      let c' = record c { conn = sent.conn; net = sent.net } in
      if not sent.ok then give_up send_error c' else (do
        r ← receive cs c'.conn empty_message c'.net
        let c'' = record c' { conn = r.conn; net = r.net }
        if not r.ok then give_up receive_error c'' else done (r.msg, c''))

  -- `if (response.tag == TAG_ERR) std::cerr << response.data.c_str () << after;`
  unfoldable pub report : Str → Message → Client cs → Client cs
  report after response c =
      if str_eq response.tag tag_err
      then record c { errors = c.errors ++ (c_str response.payload ++ after) }
      else c

  -- The same test where the client then exits.
  unfoldable pub exit_on_err : Message → Client cs → Outcome (Client cs)
  exit_on_err response c =
      if str_eq response.tag tag_err then give_up (c_str response.payload) c else done c
