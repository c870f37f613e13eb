-- ===== src/Draft/Compare.antt =====
-- The requests of sev.cpp against those of server.cpp.
use csf_hw.Prelude.{
  ℕ, ◌≡◌, refl, sym, ap, ◌∙◌, Bool, true, false, not, ◌&&◌, List, [], ◌∷◌, Option, none, some,
  get_elem?, Bool-cases, Option-cases, inl, inr, arith,
}
use csf_hw.Outcome.{Outcome, done, undefined, exited, aborted, unfinished, ◌>>=◌, deref}
use csf_hw.Text.{Str, codes, str_eq}
use csf_hw.Text.Equality.{str_eq_iff}
use csf_hw.Message.{Message, tag_ok, tag_join, tag_leave, tag_quit}
use csf_hw.Csapp.{Csapp}
use csf_hw.Room.{Room, add_member, member_exists}
use csf_hw.Server.{Store, find_room, put_room, find_or_create_room, at_room}
use csf_hw.Server.Membership.{member_at}
use csf_hw.Server.Chat.{
  Chat, respond, reply, leave_room, broadcast_in, on_join, on_leave, on_sendall, on_request,
}
use csf_hw.Draft.{
  insert_room, draft_find_or_create_room, enter_room, draft_join, draft_leave, draft_sendall,
  draft_request,
}

insert_room-put_room :
    (k : Str) (r : ℕ) (m : List (Str × ℕ))
    → find_room k m ≡ none
    → insert_room k r m ≡ put_room k r m
unfolding find_room insert_room put_room
insert_room-put_room k r [] h = refl
insert_room-put_room k r ((j, q) ∷ m) h = ground (arith, insert_room-put_room k r m)

-- For every name and every store, `find_or_create_room` of sev.cpp and of server.cpp return the
-- same room and leave the same store.
pub find_or_create_room-agrees :
    (name : Str) (st : Store) → draft_find_or_create_room name st ≡ find_or_create_room name st
unfolding draft_find_or_create_room find_or_create_room
find_or_create_room-agrees name st = elim (Option-cases (find_room name st.m_rooms)) [
  | inl new ↦
      rw
        (
          draft_find_or_create_room,
          find_or_create_room,
          new,
          insert_room-put_room name _ st.m_rooms new,
        )
        refl
  | inr (r, old) ↦ rw (draft_find_or_create_room, find_or_create_room, old) refl
]

member_at_missing :
    (user r : ℕ) (rooms : List Room) → get_elem? rooms r ≡ none → member_at user r rooms ≡ false
member_at_missing user r rooms missing = rw (member_at, missing) refl

member_at_found :
    (user r : ℕ) (rooms : List Room) (room : Room)
    → get_elem? rooms r ≡ some room
    → member_at user r rooms ≡ true
    → member_exists user room ≡ true
member_at_found user r rooms room at h = sym (rw (member_at, at) refl) ∙ h

join_no_quit : (tag : Str) → str_eq tag tag_join ≡ true → str_eq tag tag_quit ≡ false
unfolding str_eq
join_no_quit tag join = ap (λ t. str_eq t tag_quit) ((str_eq_iff tag tag_join).0 join)

module _ (cs : Csapp) where
  -- What a request does to the room held and to the store.
  abbrev pub room_effect : Outcome (Chat cs) → Outcome (Option ℕ × Store)
  room_effect o = o >>= λ c. done (c.room, c.store)

  -- The same, and whether the loop goes on.
  abbrev pub effect : Outcome (Bool × Chat cs) → Outcome (Bool × Option ℕ × Store)
  effect o = o >>= λ r. done (r.0, r.1.room, r.1.store)

  room_effect-bind {ℓ} :
      {A : Type ℓ} (o : Outcome A) (f g : A → Outcome (Chat cs))
      → ((a : A) → room_effect (f a) ≡ room_effect (g a))
      → room_effect (o >>= f) ≡ room_effect (o >>= g)
  room_effect-bind (done a) f g h = h a
  room_effect-bind undefined f g h = refl
  room_effect-bind (exited n text) f g h = refl
  room_effect-bind aborted f g h = refl
  room_effect-bind unfinished f g h = refl

  effect_later :
      (o : Outcome (Chat cs))
      → effect (do c ← o; done (true, c)) ≡ (do e ← room_effect o; done (true, e.0, e.1))
  effect_later (done c) = refl
  effect_later undefined = refl
  effect_later (exited n text) = refl
  effect_later aborted = refl
  effect_later unfinished = refl

  effect_again :
      (o p : Outcome (Chat cs))
      → room_effect o ≡ room_effect p
      → effect (do c ← o; done (true, c)) ≡ effect (do c ← p; done (true, c))
  effect_again o p h =
      effect_later o ∙ ap (λ q. q >>= λ e. done (true, e.0, e.1)) h ∙ sym (effect_later p)

  enter_room-agrees :
      (user : ℕ) (name text : Str) (st : Store) (c : Chat cs)
      → room_effect (enter_room cs user name text st c)
        ≡ room_effect (do
          let found = find_or_create_room name st
          joined ← at_room found.0 (add_member user) found.1
          done (
              reply cs tag_ok
                (codes "Join successful")
                (record c { room = some found.0; store = joined })))
  unfolding enter_room respond
  enter_room-agrees user name text st c =
      rw (find_or_create_room-agrees name st)
        (room_effect-bind (at_room _ _ _) _ _ (λ joined. refl))

  draft_join-agrees :
      (user : ℕ) (name : Str) (c : Chat cs)
      → room_effect (draft_join cs user name c.room c) ≡ room_effect (on_join cs user name c)
  unfolding draft_join on_join leave_room enter_room
  draft_join-agrees user name c = elim (Option-cases c.room) [
    | inl outside ↦ rw outside (enter_room-agrees user name _ c.store c)
    | inr (r, inside) ↦
        rw inside (
          room_effect-bind (at_room r _ c.store) _ _ (λ left. enter_room-agrees user name _ left c))
  ]

  draft_leave-agrees :
      (user : ℕ) (room : Option ℕ) (c : Chat cs)
      → room_effect (draft_leave cs user room c) ≡ room_effect (on_leave cs user room c)
  unfolding draft_leave on_leave respond
  draft_leave-agrees user none c = refl
  draft_leave-agrees user (some r) c =
      room_effect-bind (deref (get_elem? c.store.rooms r)) _ _ (λ room.
        elim (Bool-cases (member_exists user room)) [
          | inl inside ↦ rw inside (room_effect-bind (at_room r _ c.store) _ _ (λ left. refl))
          | inr outside ↦ rw outside refl
        ])

  -- A text is sent to all from a room of which the user is a member, or from none.
  draft_sendall-agrees :
      (user : ℕ) (text : Str) (room : Option ℕ) (c : Chat cs)
      → ((r : ℕ) → room ≡ some r → member_at user r c.store.rooms ≡ true)
      → room_effect (draft_sendall cs user text room c)
        ≡ room_effect (on_sendall cs user text room c)
  unfolding draft_sendall on_sendall respond
  draft_sendall-agrees user text none c h = refl
  draft_sendall-agrees user text (some r) c h = elim (Option-cases (get_elem? c.store.rooms r)) [
    | inl missing ↦
        absurd (ground (arith, h r refl, member_at_missing user r c.store.rooms missing))
    | inr (room, at) ↦
        rw (at, member_at_found user r c.store.rooms room at (h r refl))
          (room_effect-bind (broadcast_in r user text c.store) _ _ (λ told. refl))
  ]

  -- None of the tags that are tested.
  abbrev pub is_text : Message → Bool
  is_text msg =
      not (str_eq msg.tag tag_join)
      && not (str_eq msg.tag tag_quit)
      && not (str_eq msg.tag tag_leave)

  -- From any state, faults included, a request has the same effect in sev.cpp as in server.cpp on
  -- whether the loop goes on, on the room held and on the store, only the responses differ; a text
  -- to be sent to all is excepted where the thread holds a room of which the user is no member.
  pub draft_request-agrees :
      (user : ℕ) (msg : Message) (c : Chat cs)
      → ((r : ℕ) → c.room ≡ some r → is_text msg ≡ true → member_at user r c.store.rooms ≡ true)
      → effect (draft_request cs user msg c) ≡ effect (on_request cs user msg c)
  unfolding draft_request on_request respond
  draft_request-agrees user msg c h = elim (Bool-cases (str_eq msg.tag tag_join)) [
    | inl join ↦
        rw (join, join_no_quit msg.tag join)
          (effect_again _ _ (draft_join-agrees user msg.payload c))
    | inr no_join ↦ elim (Bool-cases (str_eq msg.tag tag_quit)) [
      | inl quit ↦ rw (no_join, quit) refl
      | inr no_quit ↦ elim (Bool-cases (str_eq msg.tag tag_leave)) [
        | inl leave ↦
            rw (no_join, no_quit, leave) (effect_again _ _ (draft_leave-agrees user c.room c))
        | inr no_leave ↦
            rw (no_join, no_quit, no_leave)
              (effect_again _ _ (
                draft_sendall-agrees user msg.payload c.room c
                  (λ r inside. h r inside (rw (no_join, no_quit, no_leave) refl))))
      ]
    ]
  ]
