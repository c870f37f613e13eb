-- ===== src/Server/Threads/Receivers.antt =====
-- All of `chat_with_receiver`, as acts of its thread.
use csf_hw.Prelude.{
  ℕ, zero, suc, ◌≡◌, refl, sym, ◌∙◌, Bool, true, false, not, Bool-cases, inl, inr, Option, none,
  some, get_elem?, subst, if◌then◌else◌,
}
use csf_hw.Outcome.{Outcome, done, done-injective, bind-done, deref-done, ◌>>=◌, deref}
use csf_hw.Text.{Str, codes, str_eq}
use csf_hw.Message.{Message, empty_message, tag_ok, tag_err, tag_join}
use csf_hw.MessageQueue.{dequeue}
use csf_hw.Csapp.{Csapp}
use csf_hw.Room.{add_member}
use csf_hw.Connection.{Connection, receive, is_open}
use csf_hw.Server.{Store, find_or_create_room, at_room}
use csf_hw.Server.Chat.{Chat, respond, reply, close_chat}
use csf_hw.Server.Receiver.{
  receiver_join, forward, receiver_round, receiver_loop, chat_with_receiver,
}
use csf_hw.Server.Threads.{
  Place, closing, ended, heard, greeting, admitting, draining, greeted, drained, put_queue, greet,
  admit, enroll, drain, stop_drain,
}
use csf_hw.Server.Threads.Sessions.{Runs, stay, go, Runs-trans}
use csf_hw.Server.Threads.Senders.{close_chat-Runs}

module _ (cs : Csapp) (user : ℕ) where
  -- At the loop's head of a receiver, or behind the loop.
  turned : Bool → ℕ → Place
  turned true r = draining r
  turned false r = closing (some r)

  forward-turned :
      (msg : Option Message) (r : ℕ) (c : Chat cs)
      → (drained msg r ≡ turned (forward cs msg c).0 r)
        × ((forward cs msg c).1.store ≡ c.store)
        × ((forward cs msg c).1.room ≡ c.room)
  unfolding forward drained turned respond
  forward-turned none r c = (refl, refl, refl)
  forward-turned (some msg) r c = elim (Bool-cases (str_eq msg.tag tag_err)) [
    | inl failed ↦ (rw failed refl, rw failed refl, rw failed refl)
    | inr fine ↦ (rw fine refl, rw fine refl, rw fine refl)
  ]

  receiver_round-Runs :
      (r : ℕ) (c after : Chat cs) (again : Bool)
      → receiver_round cs user c ≡ done (again, after)
      → Runs user c.store (draining r) after.store (turned again r) × (after.room ≡ c.room)
  unfolding receiver_round
  receiver_round-Runs r c after again e =
      let (u, at, e₁) = bind-done (deref (get_elem? c.store.users user)) _ (again, after) e in
      let ((msg, queue), taken, e₂) = bind-done (dequeue u.mqueue) _ (again, after) e₁ in
      let took = record c { store = put_queue user u queue c.store } in
      let (place, store, room) = forward-turned msg r took in
      let end : forward cs msg took ≡ (again, after) = done-injective e₂ in
      subst
        (λ (y : Bool × Chat cs).
          Runs user c.store (draining r) y.1.store (turned y.0 r) × (y.1.room ≡ c.room))
        end
        (
          subst (λ (s : Store). Runs user c.store (draining r) s (turned (forward cs msg took).0 r))
              (sym store)
              (subst (λ (p : Place). Runs user c.store (draining r) took.store p) place
                (go (drain (deref-done (get_elem? c.store.users user) u at) taken) stay)),
          room,
        )

  receiver_loop-Runs :
      (rounds r : ℕ) (c after : Chat cs)
      → c.room ≡ some r
      → receiver_loop cs rounds user c ≡ done after
      → Runs user c.store (draining r) after.store (closing after.room)
  unfolding receiver_loop turned
  receiver_loop-Runs zero r c after h e = cc
  receiver_loop-Runs (suc rounds) r c after h e = elim (Bool-cases (is_open cs c.conn)) [
    | inl opened ↦
        let ((again, c'), round, e₁) =
          bind-done (receiver_round cs user c) _ after (rw opened at e) in
        let (runs, same) = receiver_round-Runs r c c' again round in
        drain_end again r (receiver_loop cs rounds user c') c.store c' after (same ∙ h) runs
          (receiver_loop-Runs rounds r c' after (same ∙ h)) e₁
    | inr shut ↦
        subst (λ (x : Chat cs). Runs user c.store (draining r) x.store (closing x.room))
          (done-injective (rw shut at e))
          (subst (λ room. Runs user c.store (draining r) c.store (closing room)) (sym h)
            (go stop_drain stay))
  ]
    where
      drain_end :
          (again : Bool) (r : ℕ) (rest : Outcome (Chat cs)) (st : Store) (c after : Chat cs)
          → c.room ≡ some r
          → Runs user st (draining r) c.store (turned again r)
          → (rest ≡ done after → Runs user c.store (draining r) after.store (closing after.room))
          → (if again then rest else done c) ≡ done after
          → Runs user st (draining r) after.store (closing after.room)
      drain_end true r rest st c after h runs others e = Runs-trans runs (others e)
      drain_end false r rest st c after h runs others e =
          subst (λ (x : Chat cs). Runs user st (draining r) x.store (closing x.room))
            (done-injective e)
            (subst (λ room. Runs user st (draining r) c.store (closing room)) (sym h) runs)

  -- Behind the part before the loop: in the loop with the room joined, or returned with none.
  begun : Bool → Option ℕ → Place
  begun true (some r) = draining r
  begun true none = ended none
  begun false room = ended none

  abbrev Holding : Bool → Option ℕ → Option ℕ → Type 0
  Holding true room before = (r : ℕ) × (room ≡ some r)
  Holding false room before = room ≡ before

  -- The tests behind `receive`, for a thread that holds no room yet.
  Begins : Chat cs → Bool × Chat cs → Type 0
  Begins c y =
      Runs user c.store greeting y.1.store (begun y.0 y.1.room) × Holding y.0 y.1.room c.room

  greeted-admitting :
      (msg : Message) → str_eq msg.tag tag_join ≡ true → greeted (some msg) ≡ admitting msg.payload
  unfolding greeted
  greeted-admitting msg j = rw j refl

  admitted-Begins :
      (msg : Message) (c : Chat cs) (y : Bool × Chat cs)
      → str_eq msg.tag tag_join ≡ true
      → (do
        let found = find_or_create_room msg.payload c.store
        joined ← at_room found.0 (add_member user) found.1
        done (
          true,
          reply cs tag_ok
              (codes "Join successful")
              (record c { room = some found.0; store = joined }),
        ))
        ≡ done y
      → Begins c y
  unfolding respond begun Begins
  admitted-Begins msg c y j e =
      let found = find_or_create_room msg.payload c.store in
      let (joined, joins, e₁) = bind-done (at_room found.0 (add_member user) found.1) _ y e in
      subst (Begins c) (done-injective e₁) (
        go (greet (some msg)) (
            subst (λ (p : Place). Runs user c.store p joined (draining found.0))
              (sym (greeted-admitting msg j)) (go (admit refl) (go (enroll joins) stay))),
        (found.0, refl),
      )

  turned_away-Begins :
      (heard : Option Message) (text : Str) (c : Chat cs) (y : Bool × Chat cs)
      → greeted heard ≡ ended none
      → ◌≡◌ {A = Outcome (Bool × Chat cs)} (done (false, reply cs tag_err text c)) (done y)
      → Begins c y
  unfolding respond begun Begins
  turned_away-Begins heard text c y away e = subst (Begins c) (done-injective e) (
    go (greet heard)
        (subst (λ (p : Place). Runs user c.store p c.store (ended none)) (sym away) stay),
    refl,
  )

  received-Begins :
      (msg : Message) (received : Bool) (c : Chat cs) (y : Bool × Chat cs)
      → (if not received
          then done (false, reply cs tag_err (codes "Receive error") c)
          else if not (str_eq msg.tag tag_join)
          then done (false, reply cs tag_err (codes "First message must be a join") c)
          else (do
            let found = find_or_create_room msg.payload c.store
            joined ← at_room found.0 (add_member user) found.1
            done (
              true,
              reply cs tag_ok
                  (codes "Join successful")
                  (record c { room = some found.0; store = joined }),
            )))
        ≡ done y
      → Begins c y
  received-Begins msg false c y e = turned_away-Begins none _ c y (unfold greeted in refl) e
  received-Begins msg true c y e = elim (Bool-cases (str_eq msg.tag tag_join)) [
    | inl j ↦ admitted-Begins msg c y j (rw j at e)
    | inr j ↦ turned_away-Begins (some msg) _ c y (unfold greeted in rw j refl) (rw j at e)
  ]

  receiver_join-Begins :
      (c : Chat cs) (y : Bool × Chat cs) → receiver_join cs user c ≡ done y → Begins c y
  unfolding receiver_join Begins
  receiver_join-Begins c y e =
      let (r, received, e₁) = bind-done (receive cs c.conn empty_message c.net) _ y e in
      received-Begins r.msg r.ok (record c { conn = r.conn; net = r.net }) y e₁

  -- The loop and the end, if there is a loop.
  begun-Runs :
      (rounds : ℕ) (joined : Bool) (room : Option ℕ) (st : Store) (c after : Chat cs)
      → c.room ≡ room
      → Holding joined room none
      → Runs user st greeting c.store (begun joined room)
      → (if joined then (do c' ← receiver_loop cs rounds user c; close_chat cs c') else done c)
        ≡ done after
      → Runs user st greeting after.store (ended after.room)
  unfolding begun
  begun-Runs rounds true (some r) st c after same n runs e =
      let (c', looped, e₁) = bind-done (receiver_loop cs rounds user c) _ after e in
      Runs-trans runs (
        Runs-trans (receiver_loop-Runs rounds r c c' same looped)
          (close_chat-Runs cs user c' after e₁))
  begun-Runs rounds true none st c after same (r, e₀) runs e = cc
  begun-Runs rounds false room st c after same n runs e =
      subst (λ (x : Chat cs). Runs user st greeting x.store (ended x.room)) (done-injective e)
        (subst (λ (o : Option ℕ). Runs user st greeting c.store (ended o)) (sym (same ∙ n)) runs)

  pub chat_with_receiver-Runs :
      (rounds : ℕ) (conn : Connection cs) (net : cs.Net) (st : Store) (after : Chat cs)
      → chat_with_receiver cs rounds user conn net st ≡ done after
      → Runs user st greeting after.store (ended after.room)
  unfolding chat_with_receiver Begins
  chat_with_receiver-Runs rounds conn net st after e =
      let ((joined, c), begins, e₁) = bind-done (receiver_join cs user _) _ after e in
      let (runs, alone) = receiver_join-Begins _ (joined, c) begins in
      begun-Runs rounds joined c.room st c after refl alone runs e₁
