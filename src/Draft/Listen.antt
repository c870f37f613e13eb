-- ===== src/Draft/Listen.antt =====
-- The listening part of sev.cpp.
use csf_hw.Prelude.{
  ℕ, zero, suc, Bool, true, false, [], ◌∷◌, ◌++◌, pos, negsuc, is_neg, if◌then◌else◌,
}
use csf_hw.Text.{codes, c_str}
use csf_hw.Text.Decimal.{to_string}
use csf_hw.Csapp.{Csapp}
use csf_hw.Connection.{from_fd, is_size}
use csf_hw.Server.Listen.{Server, Serving}

-- `m_ssock > 0`
unfoldable pub is_valid_sock : Server → Bool
is_valid_sock server = elim server.m_ssock [
  | pos zero ↦ false
  | pos (suc n) ↦ true
  | negsuc n ↦ false
]

module _ (cs : Csapp) where
  -- The server, and whether it listens.
  unfoldable pub draft_listen : Server → Serving cs → Bool × (Server × Serving cs)
  draft_listen server s =
      let (fd, net) = cs.open_listenfd (c_str (to_string server.m_port)) s.net in
      let server' = record server { m_ssock = fd } in
      if is_valid_sock server' then (true, (server', record s { net = net })) else (
        false,
        (server', record s { net = net; errors = s.errors ++ codes "failed to open server" }),
      )

  -- One round of the loop; `false` means that it ends.
  unfoldable pub draft_accept_round : Server → Serving cs → Bool × Serving cs
  draft_accept_round server s =
      let (fd, net) = cs.accept server.m_ssock s.net in
      if is_neg fd
      then (false, record s { net = net; errors = s.errors ++ codes "failed to accept sock" })
      else (let (status, net') = cs.pthread_create net in
          let threads = if is_size status 0 then s.threads ++ from_fd cs fd ∷ [] else s.threads in
          if is_neg status
          then (
            false,
            record s {
              net = net';
              threads = threads;
              errors = s.errors ++ codes "failed to create thread";
            },
          )
          else (true, record s { net = net'; threads = threads }))

  -- The first rounds of the loop.
  unfoldable pub draft_handle_client_requests : ℕ → Server → Serving cs → Serving cs
  draft_handle_client_requests zero server s = s
  draft_handle_client_requests (suc rounds) server s =
      let (again, s') = draft_accept_round server s in
      let rest = draft_handle_client_requests rounds server s' in if again then rest else s'
