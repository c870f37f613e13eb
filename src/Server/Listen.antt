-- ===== src/Server/Listen.antt =====
-- The listening part of server.cpp, and server_main.cpp. A thread that was started is an entry of
-- `threads`: its connection, on which Server/Login.worker runs.
use csf_hw.Prelude.{ℕ, zero, suc, Bool, not, List, [], ◌∷◌, ◌++◌, ℤ, negsuc, is_neg, if◌then◌else◌}
use csf_hw.Outcome.{Outcome, done, exited, ◌>>=◌, or_throw}
use csf_hw.Text.{Str, codes, c_str}
use csf_hw.Text.Decimal.{to_string, stoi}
use csf_hw.Csapp.{Csapp}
use csf_hw.Connection.{Connection, from_fd, destroy, is_size}

-- `m_port` and `m_ssock` of `Server`.
pub record Server : Type 0 where
  pub m_port : ℤ
  pub m_ssock : ℤ

-- `Server (port)`
abbrev pub new_server : ℤ → Server
new_server port = record { m_port = port; m_ssock = negsuc 0 }

module _ (cs : Csapp) where
  unfoldable pub listen : Server → cs.Net → Bool × (Server × cs.Net)
  listen server net =
      let (fd, net') = cs.open_listenfd (c_str (to_string server.m_port)) net in
      (not (is_neg fd), (record server { m_ssock = fd }, net'))

  unfoldable pub accept_client : Server → cs.Net → ℤ × cs.Net
  accept_client server net = cs.accept server.m_ssock net

  -- What the accept loop changes: the threads started, the text on the standard error stream.
  pub record Serving : Type 0 where
    pub net : cs.Net
    pub threads : List (Connection cs)
    pub errors : Str

module _ (cs : Csapp) where
  -- `pthread_create` starts the thread if it returns 0.
  unfoldable pub start_client_thread : ℤ → Serving cs → Outcome (Serving cs)
  start_client_thread client_fd s =
      let conn = from_fd cs client_fd in
      let (err, net) = cs.pthread_create s.net in
      let threads = if is_size err 0 then s.threads ++ conn ∷ [] else s.threads in
      if is_neg err
      then (do
        net' ← destroy cs conn net
        done (record s {
          net = net';
          threads = threads;
          errors = s.errors ++ codes "Error creating thread\n";
        }))
      else done (record s { net = net; threads = threads })

  -- One round of the loop that never ends.
  unfoldable pub accept_round : Server → Serving cs → Outcome (Serving cs)
  accept_round server s =
      let (client_fd, net) = accept_client cs server s.net in
      if is_neg client_fd
      then done
          (record s { net = net; errors = s.errors ++ codes "Error accepting client connection\n" })
      else start_client_thread client_fd (record s { net = net })

  -- Its first rounds.
  unfoldable pub handle_client_requests : ℕ → Server → Serving cs → Outcome (Serving cs)
  handle_client_requests zero server s = done s
  handle_client_requests (suc rounds) server s = do
    s' ← accept_round server s
    handle_client_requests rounds server s'

  -- `main` of server_main.cpp with its arguments, up to a number of rounds of the loop. The
  -- signals are not modelled.
  unfoldable pub server_main : ℕ → List Str → cs.Net → Outcome (Serving cs)
  server_main rounds (program ∷ port_text ∷ []) net = do
    port ← or_throw (stoi port_text)
    let (listening, (server, net')) = listen cs (new_server port) net
    if not listening
        then exited 1 (codes "Could not listen on port " ++ (to_string port ++ codes "\n"))
        else handle_client_requests rounds server (record { net = net'; threads = []; errors = [] })
  server_main rounds _ net = exited 1 (codes "Usage: server_main <port>\n")
