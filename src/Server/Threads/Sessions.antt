-- ===== src/Server/Threads/Sessions.antt =====
-- The acts of one thread, not interrupted, are `chat_with_sender` and `chat_with_receiver`.
use csf_hw.Prelude.{
  ℕ, ◌≡◌, refl, sym, ◌∙◌, Bool, true, false, Bool-cases, inl, inr, Option, none, some, get_elem?,
  subst, if◌then◌else◌,
}
use csf_hw.Outcome.{Outcome, done, done-injective, bind-done, deref-done, ◌>>=◌, deref}
use csf_hw.Text.{Str, codes, str_eq}
use csf_hw.Message.{Message, tag_ok, tag_err, tag_quit, tag_join, tag_leave}
use csf_hw.Csapp.{Csapp}
use csf_hw.Room.{add_member, remove_member, member_exists}
use csf_hw.Server.{Store, find_or_create_room, at_room}
use csf_hw.Server.Chat.{
  Chat, respond, reply, broadcast_in, leave_room, on_join, on_leave, on_sendall, on_request,
}
use csf_hw.Server.Threads.{
  Place, awaiting, seeking, removing, telling, Request, quit, join, leave, text, request_of, take,
  heard, leave_if, tell_if, answered, Act, part, seek, enter, look_leave, remove, look_tell, tell,
  answer,
}

-- Acts of one thread with none of another between them.
pub data Runs (user : ℕ) : Store → Place → Store → Place → Type 0 where
  stay : {st : Store} {p : Place} → Runs user st p st p
  go :
      {st between after : Store} {p q r : Place}
      → Act user st p between q
      → Runs user between q after r
      → Runs user st p after r

pub Runs-trans :
    {user : ℕ} {st between after : Store} {p q r : Place}
    → Runs user st p between q
    → Runs user between q after r
    → Runs user st p after r
Runs-trans stay others = others
Runs-trans (go a runs) others = go a (Runs-trans runs others)

-- From the start of a join, once the room before is left.
entering-Runs :
    (user : ℕ) (name : Str) (left joined : Store)
    → at_room (find_or_create_room name left).0 (add_member user) (find_or_create_room name left).1
      ≡ done joined
    → Runs user left (seeking name) joined (awaiting (some (find_or_create_room name left).0))
unfolding answered
entering-Runs user name left joined e = go (seek refl) (go (enter e) (go answer stay))

-- A join leaves the room before, if there is one.
parting-Runs :
    (user : ℕ) (name : Str) (room : Option ℕ) (st left after : Store) (p : Place)
    → leave_room user room st ≡ done left
    → Runs user left (seeking name) after p
    → Runs user st (take join name room) after p
unfolding leave_room take
parting-Runs user name none st left after p e rest =
    subst (λ (s : Store). Runs user s (seeking name) after p) (sym (done-injective e)) rest
parting-Runs user name (some r) st left after p e rest = go (part e) rest

-- A request is over, and the thread is back at the loop's head with the same room.
abbrev Returns : (cs : Csapp) → ℕ → Place → Option ℕ → Chat cs → Chat cs → Type 0
Returns cs user p room c after =
    Runs user c.store p after.store (awaiting room) × (after.room ≡ c.room)

module _ (cs : Csapp) (user : ℕ) where
  join-Runs :
      (name : Str) (c after : Chat cs)
      → on_join cs user name c ≡ done after
      → Runs user c.store (take join name c.room) after.store (awaiting after.room)
  unfolding on_join respond
  join-Runs name c after e =
      let (left, leaves, e₁) = bind-done (leave_room user c.room c.store) _ after e in
      let found = find_or_create_room name left in
      let (joined, joins, e₂) = bind-done (at_room found.0 (add_member user) found.1) _ after e₁ in
      subst (λ (x : Chat cs). Runs user c.store (take join name c.room) x.store (awaiting x.room))
        (done-injective e₂)
        (parting-Runs user name c.room c.store left joined _ leaves
          (entering-Runs user name left joined joins))

  -- Behind the test of `member_exists`.
  leave_if-Runs :
      (r : ℕ) (member : Bool) (c after : Chat cs)
      → (if member
          then (do
            left ← at_room r (remove_member user) c.store
            done (reply cs tag_ok (codes "Leave successful") (record c { store = left })))
          else done (reply cs tag_err (codes "Leave unsuccessful, user isn't in the room") c))
        ≡ done after
      → Returns cs user (leave_if member r) (some r) c after
  unfolding respond answered leave_if
  leave_if-Runs r true c after e =
      let (left, removes, e₁) = bind-done (at_room r (remove_member user) c.store) _ after e in
      subst (Returns cs user (removing r) (some r) c) (done-injective e₁)
        (go (remove removes) (go answer stay), refl)
  leave_if-Runs r false c after e =
      subst (Returns cs user (leave_if false r) (some r) c) (done-injective e)
        (go answer stay, refl)

  tell_if-Runs :
      (payload : Str) (r : ℕ) (member : Bool) (c after : Chat cs)
      → (if member
          then (do
            told ← broadcast_in r user payload c.store
            done (reply cs tag_ok (codes "Sendall successful") (record c { store = told })))
          else done (reply cs tag_err (codes "Sendall unsuccessful, user isn't in a room") c))
        ≡ done after
      → Returns cs user (tell_if member payload r) (some r) c after
  unfolding respond answered tell_if
  tell_if-Runs payload r true c after e =
      let (told, tells, e₁) = bind-done (broadcast_in r user payload c.store) _ after e in
      subst (Returns cs user (telling payload r) (some r) c) (done-injective e₁)
        (go (tell tells) (go answer stay), refl)
  tell_if-Runs payload r false c after e =
      subst (Returns cs user (tell_if false payload r) (some r) c) (done-injective e)
        (go answer stay, refl)

  leave-Runs :
      (payload : Str) (room : Option ℕ) (c after : Chat cs)
      → on_leave cs user room c ≡ done after
      → Returns cs user (take leave payload room) room c after
  unfolding on_leave take
  leave-Runs payload none c after e = cc
  leave-Runs payload (some r) c after e =
      let (room, at, e₁) = bind-done (deref (get_elem? c.store.rooms r)) _ after e in
      let (runs, same) = leave_if-Runs r (member_exists user room) c after e₁ in
      (go (look_leave (deref-done (get_elem? c.store.rooms r) room at)) runs, same)

  text-Runs :
      (payload : Str) (room : Option ℕ) (c after : Chat cs)
      → on_sendall cs user payload room c ≡ done after
      → Returns cs user (take text payload room) room c after
  unfolding on_sendall take respond answered
  text-Runs payload none c after e =
      subst (Returns cs user (take text payload none) none c) (done-injective e)
        (go answer stay, refl)
  text-Runs payload (some r) c after e =
      let (room, at, e₁) = bind-done (deref (get_elem? c.store.rooms r)) _ after e in
      let (runs, same) = tell_if-Runs payload r (member_exists user room) c after e₁ in
      (go (look_tell (deref-done (get_elem? c.store.rooms r) room at)) runs, same)

  -- With the room that the thread held.
  same_room :
      (p : Place) (c after : Chat cs)
      → Returns cs user p c.room c after
      → Runs user c.store p after.store (awaiting after.room)
  same_room p c after r =
      subst (λ room. Runs user c.store p after.store (awaiting room)) (sym r.1) r.0

  -- The chain of tests, by the branch that they choose.
  branch : Request → Message → Chat cs → Outcome (Bool × Chat cs)
  branch quit msg c = done (false, reply cs tag_ok (codes "Quit successful") c)
  branch join msg c = do c' ← on_join cs user msg.payload c; done (true, c')
  branch leave msg c = do c' ← on_leave cs user c.room c; done (true, c')
  branch text msg c = do c' ← on_sendall cs user msg.payload c.room c; done (true, c')

  on_request-branch :
      (msg : Message) (c : Chat cs) → on_request cs user msg c ≡ branch (request_of msg) msg c
  unfolding on_request request_of branch
  on_request-branch msg c = elim (Bool-cases (str_eq msg.tag tag_quit)) [
    | inl q ↦ rw q refl
    | inr q ↦ elim (Bool-cases (str_eq msg.tag tag_join)) [
      | inl j ↦ rw (q, j) refl
      | inr j ↦ elim (Bool-cases (str_eq msg.tag tag_leave)) [
        | inl l ↦ rw (q, j, l) refl
        | inr l ↦ rw (q, j, l) refl
      ]
    ]
  ]

  -- What a branch that goes on has done, the thread has done.
  going_on :
      (m : Outcome (Chat cs)) (p : Place) (c after : Chat cs) (again : Bool)
      → ((x : Chat cs) → m ≡ done x → Runs user c.store p x.store (awaiting x.room))
      → ◌>>=◌ {B = Bool × Chat cs} m (λ x. done (true, x)) ≡ done (again, after)
      → Runs user c.store p after.store (answered again after.room)
  unfolding answered
  going_on m p c after again runs e =
      let (x, returns, e₁) = bind-done m _ (again, after) e in
      subst (λ (y : Bool × Chat cs). Runs user c.store p y.1.store (answered y.0 y.1.room))
        (done-injective e₁) (runs x returns)

  branch-Runs :
      (q : Request) (msg : Message) (c after : Chat cs) (again : Bool)
      → branch q msg c ≡ done (again, after)
      → Runs user c.store (take q msg.payload c.room) after.store (answered again after.room)
  unfolding branch
  branch-Runs quit msg c after again e =
      subst
        (λ (y : Bool × Chat cs).
          Runs user c.store (take quit msg.payload c.room) y.1.store (answered y.0 y.1.room))
        (done-injective e) (unfold respond take in go answer stay)
  branch-Runs join msg c after again e =
      going_on (on_join cs user msg.payload c) _ c after again (λ x. join-Runs msg.payload c x) e
  branch-Runs leave msg c after again e =
      going_on (on_leave cs user c.room c) _ c after again
        (λ x f. same_room _ c x (leave-Runs msg.payload c.room c x f)) e
  branch-Runs text msg c after again e =
      going_on (on_sendall cs user msg.payload c.room c) _ c after again
        (λ x f. same_room _ c x (text-Runs msg.payload c.room c x f)) e

  pub on_request-Runs :
      (msg : Message) (c after : Chat cs) (again : Bool)
      → on_request cs user msg c ≡ done (again, after)
      → Runs user c.store (heard (some msg) c.room) after.store (answered again after.room)
  unfolding heard
  on_request-Runs msg c after again e =
      branch-Runs (request_of msg) msg c after again (sym (on_request-branch msg c) ∙ e)
