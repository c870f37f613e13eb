-- ===== src/Server/Threads/Workers.antt =====
-- The whole function of a client's thread, `worker`, as a login and the acts of a thread.
use csf_hw.Prelude.{
  ℕ, ◌≡◌, refl, sym, ap, ◌∙◌, Bool, true, false, not, ◌||◌, Bool-cases, inl, inr, none, List, [],
  ◌∷◌, ◌++◌, append-nil, length, get_elem?, get_elem?-concat_last, set, subst, if◌then◌else◌,
}
use csf_hw.Outcome.{Outcome, done, done-injective, bind-done}
use csf_hw.Text.{Str, str_eq}
use csf_hw.Message.{Message, empty_message, tag_slogin, tag_rlogin}
use csf_hw.Csapp.{Csapp}
use csf_hw.Connection.{Connection, receive}
use csf_hw.Server.{create_user}
use csf_hw.Server.Chat.{Chat, respond}
use csf_hw.Server.Login.{
  worker, handle_client_login, handle_client_communication, send_login_success_response,
  send_login_error_response,
}
use csf_hw.Server.Threads.{Place, awaiting, greeting, ended, World, Reach, next, login}
use csf_hw.Server.Threads.Reachable.{Reach-IsSafe}
use csf_hw.Server.Threads.Sessions.{Runs}
use csf_hw.Server.Threads.Senders.{chat_with_sender-Runs}
use csf_hw.Server.Threads.Receivers.{chat_with_receiver-Runs}
use csf_hw.Server.Threads.Embedding.{Runs-Reach}

set-concat_last {ℓ} :
    {A : Type ℓ} (xs : List A) (u v : A) → set (xs ++ u ∷ []) (length xs) v ≡ xs ++ v ∷ []
set-concat_last [] u v = refl
set-concat_last (x ∷ xs) u v = ap (λ ys. x ∷ ys) (set-concat_last xs u v)

abbrev first_place : Bool → Place
first_place sender = if sender then awaiting none else greeting

-- A new last thread, at its end, or none.
abbrev pub WithThread : (cs : Csapp) → List Place → Chat cs → Type 0
WithThread cs threads c =
    (admitted : Bool) × Reach (record {
      store = c.store;
      threads = threads ++ (if admitted then ended c.room ∷ [] else []);
    })

module _ (cs : Csapp) where
  chat-WithThread :
      (name : Str) (sender : Bool) (w : World) (after : Chat cs)
      → Reach w
      → Runs
          (length w.store.users)
          (create_user name w.store).1
          (first_place sender)
          after.store
          (ended after.room)
      → WithThread cs w.threads after
  unfolding create_user
  chat-WithThread name sender w after reach runs =
      let count : length w.threads ≡ length w.store.users = (Reach-IsSafe reach).thread_count in
      let ts : List Place = w.threads ++ first_place sender ∷ [] in
      (
        true,
        subst (λ threads. Reach (record { store = after.store; threads = threads }))
            (ap (λ k. set ts k (ended after.room)) (sym count)
              ∙ set-concat_last w.threads (first_place sender) (ended after.room))
            (Runs-Reach (record { store = (create_user name w.store).1; threads = ts })
              (next reach (login name sender))
              (ap (get_elem? ts) (sym count) ∙ get_elem?-concat_last w.threads (first_place sender))
              refl runs),
      )

  communication-WithThread :
      (rounds : ℕ) (tag name : Str) (threads : List Place) (c after : Chat cs)
      → Reach (record { store = c.store; threads = threads })
      → str_eq tag tag_slogin || str_eq tag tag_rlogin ≡ true
      → handle_client_communication cs rounds tag name c ≡ done after
      → WithThread cs threads after
  unfolding handle_client_communication create_user
  communication-WithThread rounds tag name threads c after reach known e =
      elim (Bool-cases (str_eq tag tag_slogin)) [
        | inl s ↦
            chat-WithThread name true (record { store = c.store; threads = threads }) after reach
              (chat_with_sender-Runs cs (length c.store.users) rounds c.conn c.net _ after
                (rw s at e))
        | inr n ↦ elim (Bool-cases (str_eq tag tag_rlogin)) [
          | inl r ↦
              chat-WithThread name false (record { store = c.store; threads = threads }) after reach
                (chat_with_receiver-Runs cs (length c.store.users) rounds c.conn c.net _ after
                  (rw (n, r) at e))
          | inr m ↦ cc
        ]
      ]

  -- Nothing has changed.
  refused-WithThread :
      (threads : List Place) (c after : Chat cs)
      → Reach (record { store = c.store; threads = threads })
      → ◌≡◌ {A = Outcome (Chat cs)} (done (send_login_error_response cs c)) (done after)
      → WithThread cs threads after
  unfolding send_login_error_response respond
  refused-WithThread threads c after reach e = (
    false,
    subst (λ (x : Chat cs). Reach (record { store = x.store; threads = threads ++ [] }))
        (done-injective e)
        (subst (λ ts. Reach (record { store = c.store; threads = ts })) (sym (simp append-nil))
          reach),
  )

  received-WithThread :
      (rounds : ℕ) (ok : Bool) (msg : Message) (threads : List Place) (c after : Chat cs)
      → Reach (record { store = c.store; threads = threads })
      → (if not ok
          then done (send_login_error_response cs c)
          else if str_eq msg.tag tag_slogin || str_eq msg.tag tag_rlogin
          then handle_client_communication cs rounds msg.tag msg.payload
              (send_login_success_response cs msg.tag c)
          else done (send_login_error_response cs c))
        ≡ done after
      → WithThread cs threads after
  unfolding send_login_success_response respond
  received-WithThread rounds false msg threads c after reach e =
      refused-WithThread threads c after reach e
  received-WithThread rounds true msg threads c after reach e =
      elim (Bool-cases (str_eq msg.tag tag_slogin || str_eq msg.tag tag_rlogin)) [
        | inl known ↦
            communication-WithThread rounds msg.tag msg.payload threads
              (send_login_success_response cs msg.tag c) after reach known (rw known at e)
        | inr not_known ↦ refused-WithThread threads c after reach (rw not_known at e)
      ]

  -- Whatever the function of a client's thread does when it runs undisturbed and returns, from the
  -- login to the end of its chat as a sender or as a receiver, the model of interleaved acts can
  -- do: from every reachable state with the store that the function starts from, the state with the
  -- store that it leaves is reachable, with either no new thread, or one new last thread, which is
  -- at its end and holds the room that the function holds.
  pub worker-Reach :
      (rounds : ℕ) (conn : Connection cs) (net : cs.Net) (w : World) (after : Chat cs)
      → Reach w
      → worker cs rounds conn net w.store ≡ done after
      → WithThread cs w.threads after
  unfolding worker handle_client_login
  worker-Reach rounds conn net w after reach e =
      let start : Chat cs = record { conn = conn; net = net; store = w.store; room = none } in
      let (r, received, e₁) = bind-done (receive cs conn empty_message net) _ after e in
      received-WithThread rounds r.ok r.msg w.threads (record start { conn = r.conn; net = r.net })
        after reach e₁
