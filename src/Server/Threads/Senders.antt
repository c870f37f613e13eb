-- ===== src/Server/Threads/Senders.antt =====
-- All of `chat_with_sender`, as acts of its thread.
use csf_hw.Prelude.{
  ℕ, zero, suc, ◌≡◌, Bool, true, false, Bool-cases, inl, inr, none, some, subst, if◌then◌else◌,
}
use csf_hw.Outcome.{Outcome, done, done-injective, bind-done}
use csf_hw.Text.{codes}
use csf_hw.Message.{Message, empty_message, tag_err}
use csf_hw.Csapp.{Csapp}
use csf_hw.Connection.{Connection, receive, is_open}
use csf_hw.Server.{Store}
use csf_hw.Server.Chat.{
  Chat, respond, reply, on_request, sender_round, sender_loop, close_chat, chat_with_sender,
}
use csf_hw.Server.Threads.{
  Place, awaiting, closing, ended, heard, answered, hear, answer, stop, close,
}
use csf_hw.Server.Threads.Sessions.{Runs, stay, go, Runs-trans, on_request-Runs}

module _ (cs : Csapp) (user : ℕ) where
  -- Behind the test of what `receive` returned.
  heard_if-Runs :
      (msg : Message) (received : Bool) (c after : Chat cs) (again : Bool)
      → (if received
          then on_request cs user msg c
          else done (false, reply cs tag_err (codes "Receive error") c))
        ≡ done (again, after)
      → Runs user c.store (awaiting c.room) after.store (answered again after.room)
  heard_if-Runs msg true c after again e =
      go (hear (some msg)) (on_request-Runs cs user msg c after again e)
  heard_if-Runs msg false c after again e = go (hear none) (
      subst
        (λ (y : Bool × Chat cs).
          Runs user c.store (heard none c.room) y.1.store (answered y.0 y.1.room))
        (done-injective e) (unfold respond heard in go answer stay))

  -- One round, from the loop's head on.
  sender_round-Runs :
      (c after : Chat cs) (again : Bool)
      → sender_round cs user c ≡ done (again, after)
      → Runs user c.store (awaiting c.room) after.store (answered again after.room)
  unfolding sender_round
  sender_round-Runs c after again e =
      let (r, received, e₁) =
        bind-done (receive cs c.conn empty_message c.net) _ (again, after) e in
      heard_if-Runs r.msg r.ok (record c { conn = r.conn; net = r.net }) after again e₁

  -- The end of a round, in the loop.
  loop_end :
      (again : Bool) (rest : Outcome (Chat cs)) (p : Place) (st : Store) (c after : Chat cs)
      → Runs user st p c.store (answered again c.room)
      → (rest ≡ done after → Runs user c.store (awaiting c.room) after.store (closing after.room))
      → (if again then rest else done c) ≡ done after
      → Runs user st p after.store (closing after.room)
  unfolding answered
  loop_end true rest p st c after runs others e = Runs-trans runs (others e)
  loop_end false rest p st c after runs others e =
      subst (λ (x : Chat cs). Runs user st p x.store (closing x.room)) (done-injective e) runs

  sender_loop-Runs :
      (rounds : ℕ) (c after : Chat cs)
      → sender_loop cs rounds user c ≡ done after
      → Runs user c.store (awaiting c.room) after.store (closing after.room)
  unfolding sender_loop
  sender_loop-Runs zero c after e = cc
  sender_loop-Runs (suc rounds) c after e = elim (Bool-cases (is_open cs c.conn)) [
    | inl opened ↦
        let ((again, c'), round, e₁) =
          bind-done (sender_round cs user c) _ after (rw opened at e) in
        loop_end again (sender_loop cs rounds user c') (awaiting c.room) c.store c' after
          (sender_round-Runs c c' again round) (sender_loop-Runs rounds c' after) e₁
    | inr shut ↦
        subst (λ (x : Chat cs). Runs user c.store (awaiting c.room) x.store (closing x.room))
          (done-injective (rw shut at e)) (go stop stay)
  ]

  pub close_chat-Runs :
      (c after : Chat cs)
      → close_chat cs c ≡ done after
      → Runs user c.store (closing c.room) after.store (ended after.room)
  unfolding close_chat
  close_chat-Runs c after e =
      let (net, closed, e₁) = bind-done (csf_hw.Connection.close cs c.conn c.net) _ after e in
      subst (λ (x : Chat cs). Runs user c.store (closing c.room) x.store (ended x.room))
        (done-injective e₁) (go close stay)

  pub chat_with_sender-Runs :
      (rounds : ℕ) (conn : Connection cs) (net : cs.Net) (st : Store) (after : Chat cs)
      → chat_with_sender cs rounds user conn net st ≡ done after
      → Runs user st (awaiting none) after.store (ended after.room)
  unfolding chat_with_sender
  chat_with_sender-Runs rounds conn net st after e =
      let (c, looped, e₁) = bind-done (sender_loop cs rounds user _) _ after e in
      Runs-trans (sender_loop-Runs rounds _ c looped) (close_chat-Runs c after e₁)
