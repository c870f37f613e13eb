-- ===== src/Server/Spec/Requests.antt =====
-- Every request of a session does to the chat, as its users see it, what the specification says.
use csf_hw.Prelude.{
  ℕ, ◌≡◌, refl, ◌∙◌, ◌≢◌, inl, inr, true, false, not, Option, none, some, Bool-cases,
}
use csf_hw.Outcome.{done}
use csf_hw.Text.{Str, str_eq}
use csf_hw.Text.Equality.{str_eq_iff, str_eq_refl}
use csf_hw.Message.{Message, tag_quit, tag_join, tag_leave}
use csf_hw.Csapp.{Csapp}
use csf_hw.Server.{Store}
use csf_hw.Server.Chat.{Chat, respond, on_leave, on_sendall, on_request}
use csf_hw.Server.Session.{in_room, InSession}
use csf_hw.Server.Session.Join.{Joins, on_join-Joins}
use csf_hw.Server.Session.Stays.{
  Stays, LeaveSeen, SendallSeen, leave_response, sendall_response, leave-Stays, sendall-Stays,
}
use csf_hw.Server.Session.Requests.{response_to}
use csf_hw.Server.Spec.{view, room_has, spec_step, is_inside, Holds}
use csf_hw.Server.Spec.Join.{view-joined}

-- Whether the user is in the room held, by pointers and by names.
is_inside-in_room :
    (user : ℕ) (st : Store) (room : Option ℕ) (held : Option Str)
    → Holds st room held
    → is_inside user held (view st) ≡ in_room user room st
unfolding view
is_inside-in_room user st none none h = refl
is_inside-in_room user st none (some k) h = absurd h
is_inside-in_room user st (some r) none h = absurd h
is_inside-in_room user st (some r) (some k) h = rw (room_has, h) refl

Holds-map :
    (st after : Store) (room : Option ℕ) (held : Option Str)
    → after.m_rooms ≡ st.m_rooms
    → Holds st room held
    → Holds after room held
Holds-map st after none none e h = tt
Holds-map st after none (some k) e h = h
Holds-map st after (some r) none e h = h
Holds-map st after (some r) (some k) e h = rw e h

-- A request is answered as `response_to` says of what is seen, the loop goes on unless it is
-- `quit`, and what is seen after it, with the name of the room held, is as `spec_step` says.
pub record Refines (cs : Csapp) (user : ℕ) (msg : Message) (held : Option Str) (c : Chat cs)
    : Type 0 where
  pub room : Option ℕ
  pub after : Store
  pub returns :
      on_request cs user msg c
      ≡ done (
        not (str_eq msg.tag tag_quit),
        respond cs
            (response_to msg (is_inside user held (view c.store)))
            (record c { room = room; store = after }),
      )
  pub session : InSession user room after
  pub holds : Holds after room (spec_step user msg held (view c.store)).0
  pub seen : view after ≡ (spec_step user msg held (view c.store)).1

module _ (cs : Csapp) (user : ℕ) (msg : Message) (held : Option Str) (c : Chat cs)
    (s : InSession user c.room c.store) (holds : Holds c.store c.room held) where
  quit-Refines : str_eq msg.tag tag_quit ≡ true → Refines cs user msg held c
  unfolding on_request spec_step
  quit-Refines q = record {
    room = c.room;
    after = c.store;
    returns = rw q refl;
    session = s;
    holds = rw q holds;
    seen = rw q refl;
  }

  join-Refines :
      str_eq msg.tag tag_quit ≡ false → str_eq msg.tag tag_join ≡ true → Refines cs user msg held c
  unfolding on_request spec_step
  join-Refines q j = record {
    room = some joins.target;
    after = joins.after;
    returns = rw (q, j) (rw joins.returns refl);
    session = joins.joined.session;
    holds = rw (q, j) (joins.joined.found msg.payload ∙ rw (str_eq_refl msg.payload) refl);
    seen = rw (q, j) (view-joined user msg.payload joins.target c.store joins.after joins.joined);
  }
    where
      joins : Joins cs user msg.payload c
      joins = on_join-Joins cs user msg.payload c s

  leave-Refines :
      str_eq msg.tag tag_quit ≡ false
      → str_eq msg.tag tag_join ≡ false
      → str_eq msg.tag tag_leave ≡ true
      → c.room ≢ none
      → Refines cs user msg held c
  unfolding on_request spec_step leave_response
  leave-Refines q j l h = record {
    room = c.room;
    after = st.after;
    returns = rw (q, j, l, is_inside-in_room user c.store c.room held holds) (rw st.returns refl);
    session = st.session;
    holds = rw (q, j, l) (Holds-map c.store st.after c.room held st.known.1 holds);
    seen = rw (q, j, l) st.known.0;
  }
    where
      st :
          Stays cs user c.room
            (leave_response (in_room user c.room c.store))
            false
            (LeaveSeen user c.store)
            c
            (on_leave cs user c.room c)
      st = leave-Stays cs user c c.room s h

  sendall-Refines :
      str_eq msg.tag tag_quit ≡ false
      → str_eq msg.tag tag_join ≡ false
      → str_eq msg.tag tag_leave ≡ false
      → Refines cs user msg held c
  unfolding on_request spec_step sendall_response
  sendall-Refines q j l = record {
    room = c.room;
    after = st.after;
    returns = rw (q, j, l, is_inside-in_room user c.store c.room held holds) (rw st.returns refl);
    session = st.session;
    holds = rw (q, j, l) (Holds-map c.store st.after c.room held (st.known held holds).1 holds);
    seen = rw (q, j, l) (st.known held holds).0;
  }
    where
      st :
          Stays cs user c.room
            (sendall_response (in_room user c.room c.store))
            (in_room user c.room c.store)
            (SendallSeen user msg.payload c.room c.store)
            c
            (on_sendall cs user msg.payload c.room c)
      st = sendall-Stays cs user c msg.payload c.room s

  -- A view of the store keeps only who is in which room, by the room's name, what waits in each
  -- user's queue, and the users' names. In a session, with the name under which the room held is in
  -- the map, a request that is no `leave` while no room is held is answered as `response_to` says
  -- of the view, the loop goes on unless it is `quit`, the user is in a session again, and the view
  -- and the name of the room held change exactly as the independent `spec_step` says: a join puts
  -- the user in the named room and in no other, a leave takes the user out of every room, a text to
  -- all appends one delivery to the queue of every member with another name if the user is in the
  -- room held, and nothing else changes.
  pub on_request-Refines : (msg.tag ≡ tag_leave → c.room ≢ none) → Refines cs user msg held c
  on_request-Refines h = elim (Bool-cases (str_eq msg.tag tag_quit)) [
    | inl q ↦ quit-Refines q
    | inr q ↦ elim (Bool-cases (str_eq msg.tag tag_join)) [
      | inl j ↦ join-Refines q j
      | inr j ↦ elim (Bool-cases (str_eq msg.tag tag_leave)) [
        | inl l ↦ leave-Refines q j l (h ((str_eq_iff msg.tag tag_leave).0 l))
        | inr l ↦ sendall-Refines q j l
      ]
    ]
  ]
