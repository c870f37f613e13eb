-- ===== src/Server/Started.antt =====
-- The accept loop of server.cpp over any number of rounds, and server_main.cpp with it.
use csf_hw.Prelude.{
  ℕ, length, zero, suc, ◌≡◌, refl, ap, ◌∙◌, true, false, Bool-cases, inl, inr, List, [], ◌∷◌, ◌++◌,
  append-nil, append_assoc, some, ℤ, is_neg, if◌then◌else◌,
}
use csf_hw.Outcome.{done, exited}
use csf_hw.Text.{Str, codes, c_str}
use csf_hw.Text.Decimal.{to_string, in_range}
use csf_hw.Csapp.{Csapp}
use csf_hw.Connection.{Connection, from_fd, is_size}
use csf_hw.Server.Listen.{
  Server, Serving, accept_round, accept_client, handle_client_requests, server_main,
}
use csf_hw.Server.Accepting.{start_client_thread_lem, server_main_lem}

-- What `accept` returned in one round, and `pthread_create` if it was called.
pub data Event : Type 0 where
  refused : ℤ → Event
  accepted : ℤ → ℤ → Event

-- One error line for each time that `accept` failed.
abbrev pub complaints : List Event → Str
complaints [] = []
complaints (refused fd ∷ events) = codes "Error accepting client connection\n" ++ complaints events
complaints (accepted fd err ∷ events) = complaints events

module _ (cs : Csapp) where
  -- One thread for each descriptor for which `pthread_create` returned 0.
  abbrev pub started : List Event → List (Connection cs)
  started [] = []
  started (refused fd ∷ events) = started events
  started (accepted fd err ∷ events) =
      (if is_size err 0 then from_fd cs fd ∷ [] else []) ++ started events

  -- The calls, one after the other, from the state of the descriptors on.
  pub data Happens (ssock : ℤ) : cs.Net → List Event → cs.Net → Type 0 where
    nothing : {net : cs.Net} → Happens ssock net [] net
    fails :
        {net after : cs.Net} {events : List Event}
        → is_neg (cs.accept ssock net).0 ≡ true
        → Happens ssock (cs.accept ssock net).1 events after
        → Happens ssock net (refused (cs.accept ssock net).0 ∷ events) after
    succeeds :
        {net after : cs.Net} {events : List Event}
        → is_neg (cs.accept ssock net).0 ≡ false
        → Happens ssock (cs.pthread_create (cs.accept ssock net).1).1 events after
        → Happens ssock net
            (accepted (cs.accept ssock net).0 (cs.pthread_create (cs.accept ssock net).1).0
              ∷ events)
            after

  -- The state after the events.
  abbrev pub after_events : List Event → cs.Net → Serving cs → Serving cs
  after_events events net s = record {
    net = net;
    threads = s.threads ++ started events;
    errors = s.errors ++ complaints events;
  }

  after_events-cons :
      (event : Event) (events : List Event) (net between : cs.Net) (s : Serving cs)
      → after_events events net (after_events (event ∷ []) between s)
        ≡ after_events (event ∷ events) net s
  after_events-cons (refused fd) events net between s = simp (append-nil, append_assoc)
  after_events-cons (accepted fd err) events net between s = simp (append-nil, append_assoc)

  -- So many rounds of the loop, from `s`.
  pub record Accepts (rounds : ℕ) (server : Server) (s : Serving cs) : Type 0 where
    pub events : List Event
    pub net : cs.Net
    pub count : length events ≡ rounds
    pub happens : Happens server.m_ssock s.net events net
    pub returns : handle_client_requests cs rounds server s ≡ done (after_events events net s)

  accept_round-refused :
      (server : Server) (s : Serving cs)
      → is_neg (cs.accept server.m_ssock s.net).0 ≡ true
      → accept_round cs server s
        ≡ done (
            after_events
              (refused (cs.accept server.m_ssock s.net).0 ∷ [])
              (cs.accept server.m_ssock s.net).1
              s)
  unfolding accept_round accept_client
  accept_round-refused server s h = rw h (simp append-nil)

  accept_round-accepted :
      (server : Server) (s : Serving cs)
      → let (fd, net) = cs.accept server.m_ssock s.net in
        let (err, net') = cs.pthread_create net in
        is_neg fd ≡ false
        → is_neg err ≡ false
        → accept_round cs server s ≡ done (after_events (accepted fd err ∷ []) net' s)
  unfolding accept_round accept_client
  accept_round-accepted server s h k =
      let (fd, net) = cs.accept server.m_ssock s.net in
      let (err, net') = cs.pthread_create net in
      rw h
        (start_client_thread_lem cs fd err net' (record s { net = net }) refl k ∙ simp append-nil)

  handle_client_requests-Accepts :
      (rounds : ℕ) (server : Server) (s : Serving cs)
      → ((net : cs.Net) → is_neg (cs.pthread_create net).0 ≡ false)
      → Accepts rounds server s
  unfolding handle_client_requests
  handle_client_requests-Accepts zero server s create = record {
    events = [];
    net = s.net;
    count = refl;
    happens = nothing;
    returns = simp append-nil;
  }
  handle_client_requests-Accepts (suc rounds) server s create =
      elim (Bool-cases (is_neg (cs.accept server.m_ssock s.net).0)) [
        | inl h ↦
            let (fd, net) = cs.accept server.m_ssock s.net in
            let others =
              handle_client_requests-Accepts rounds server (after_events (refused fd ∷ []) net s)
                create in
            record {
              events = refused fd ∷ others.events;
              net = others.net;
              count = ap suc others.count;
              happens = fails h others.happens;
              returns = rw (accept_round-refused server s h) (
                  others.returns
                  ∙ ap done (after_events-cons (refused fd) others.events others.net net s));
            }
        | inr h ↦
            let (fd, net) = cs.accept server.m_ssock s.net in
            let (err, net') = cs.pthread_create net in
            let others =
              handle_client_requests-Accepts rounds server
                (after_events (accepted fd err ∷ []) net' s) create in
            record {
              events = accepted fd err ∷ others.events;
              net = others.net;
              count = ap suc others.count;
              happens = succeeds h others.happens;
              returns = rw (accept_round-accepted server s h (create net)) (
                  others.returns
                  ∙ ap done (after_events-cons (accepted fd err) others.events others.net net' s));
            }
      ]

  -- Let `pthread_create` never return a negative number. Started with the decimal text of a port
  -- that fits an `int`, the server asks for a listening socket on exactly that text; if it gets
  -- none it prints so and exits with status 1. Else, after any number of rounds of its loop, none
  -- of which fails, there are as many events as rounds, which are what `accept`, and after a
  -- success `pthread_create`, return one after the other: the threads that were started, in order,
  -- are one with a connection on each accepted descriptor for which `pthread_create` returned 0,
  -- and one error line is printed for each failure of `accept`, and nothing else.
  pub server_main-Accepts :
      (rounds : ℕ) (program : Str) (port ssock : ℤ) (net began : cs.Net)
      → in_range port ≡ some port
      → cs.open_listenfd (c_str (to_string port)) net ≡ (ssock, began)
      → ((net : cs.Net) → is_neg (cs.pthread_create net).0 ≡ false)
      → (events : List Event) × (after : cs.Net) × (length events ≡ rounds)
        × Happens ssock began events after
        × (server_main cs rounds (program ∷ to_string port ∷ []) net ≡ (
            if is_neg ssock
            then exited 1 (codes "Could not listen on port " ++ (to_string port ++ codes "\n"))
            else done
                (record { net = after; threads = started events; errors = complaints events })))
  server_main-Accepts rounds program port ssock net began int opens create =
      let server : Server = record { m_port = port; m_ssock = ssock } in
      let a =
        handle_client_requests-Accepts rounds server
          (record { net = began; threads = []; errors = [] }) create in
      (
        a.events,
        a.net,
        a.count,
        a.happens,
        server_main_lem cs rounds program port ssock net began int opens
            ∙ ap
                (λ o.
                  if is_neg ssock
                  then exited 1
                      (codes "Could not listen on port " ++ (to_string port ++ codes "\n"))
                  else o)
                a.returns,
      )
