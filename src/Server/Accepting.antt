-- ===== src/Server/Accepting.antt =====
-- Starting the server and its threads, from the port given to what happens when no thread starts.
use csf_hw.Prelude.{ℕ, append-nil, ◌≡◌, false, [], ◌∷◌, ◌++◌, ℤ, is_neg, arith, if◌then◌else◌, some}
use csf_hw.Outcome.{done, exited}
use csf_hw.Text.{Str, codes, c_str}
use csf_hw.Text.Decimal.{to_string, in_range, stoi-to_string}
use csf_hw.Csapp.{Csapp}
use csf_hw.Connection.{from_fd, is_size}
use csf_hw.Server.Listen.{Serving, start_client_thread, handle_client_requests, server_main, listen}

module _ (cs : Csapp) where
  -- If `pthread_create` returns no negative number, a new thread with a connection on the
  -- descriptor runs exactly if it returned 0, and in neither case is an error printed or the
  -- connection closed.
  pub start_client_thread_lem :
      (client_fd err : ℤ) (net : cs.Net) (s : Serving cs)
      → cs.pthread_create s.net ≡ (err, net)
      → is_neg err ≡ false
      → start_client_thread cs client_fd s
        ≡ done (record s {
          net = net;
          threads = s.threads ++ (if is_size err 0 then from_fd cs client_fd ∷ [] else []);
        })
  unfolding start_client_thread
  start_client_thread_lem client_fd err net s created positive =
      rw (start_client_thread, created, positive) (ground (arith, append-nil s.threads))

  -- Started with the decimal text of a port that fits an `int`, the server asks for a listening
  -- socket on exactly that text; if it gets none it prints so and exits with status 1, and else it
  -- serves on that socket from no threads.
  pub server_main_lem :
      (rounds : ℕ) (program : Str) (port ssock : ℤ) (net net' : cs.Net)
      → in_range port ≡ some port
      → cs.open_listenfd (c_str (to_string port)) net ≡ (ssock, net')
      → server_main cs rounds (program ∷ to_string port ∷ []) net ≡ (
          if is_neg ssock
          then exited 1 (codes "Could not listen on port " ++ (to_string port ++ codes "\n"))
          else handle_client_requests cs rounds
              (record { m_port = port; m_ssock = ssock })
              (record { net = net'; threads = []; errors = [] }))
  unfolding server_main listen
  server_main_lem rounds program port ssock net net' fits opens =
      rw (stoi-to_string port fits, opens) (ground arith)
